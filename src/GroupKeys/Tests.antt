-- ===== src/GroupKeys/Tests.antt =====
-- Runs of the group keys, and the theorems at concrete inputs.
use servidor_drive.Prelude.{
  ◌+◌, ◌≡◌, refl, true, none, some, [], ◌∷◌, codes, decimal, repeat, text_in, ok, err, text_eq,
}
use servidor_drive.Prelude.Base64.{base64url, from_base64url, is_base64_character}
use servidor_drive.GroupKeys.Names.{revoked_recipient, stale_epoch, text, epoch, is_name}
use servidor_drive.GroupKeys.Wrap.{
  WrapInput, Wrap, Zk, aad_for, aad_text, create_opaque_wrap, wrap_record,
}
use servidor_drive.GroupKeys.Binding.{Same, aad_for_injective}
use servidor_drive.GroupKeys.Sharing.{
  Sharing, new_sharing, revoke_device, begin_wrap, finish_wrap, rotate, remove_member, unwrap,
}
use servidor_drive.GroupKeys.Sharing.Current.{
  add_call, register_call, wrap_call, calls, IsCurrent, calls-IsCurrent,
}
use servidor_drive.GroupKeys.Sharing.Stale.{stale_refused}
use servidor_drive.GroupKeys.Validate.{Opener, validate_opaque_wrap}
use servidor_drive.GroupKeys.Sharing.Revoked.{revoked_refused, revoked_while_waiting}

-- A cryptography that gives sixty zero bytes and seals nothing.
abbrev zk : Zk
zk = record { wrap_key = λ i aad. some (repeat 60 0); hpke_seal = λ key i aad. none }

abbrev group : Sharing
group = record {
  group_id = codes "g";
  members = codes "ana" ∷ codes "bia" ∷ [];
  revoked_devices = [];
  devices = [];
  membership_version = 1;
  epoch = 1;
  wraps = [];
}

abbrev input : WrapInput
input = record {
  compartment_id = codes "private";
  epoch = 1;
  object_id = codes "doc";
  version_id = codes "v1";
  key_ref = codes "k1";
  recipient_id = codes "ana";
  device_id = codes "laptop";
  wrap_id = repeat 16 7;
  recipient_public_key = none;
}

made : Wrap
made = record {
  compartment_id = codes "private";
  epoch = 1;
  object_id = codes "doc";
  version_id = codes "v1";
  key_ref = codes "k1";
  recipient_id = codes "ana";
  device_id = codes "laptop";
  wrap_id = base64url (repeat 16 7);
  wrapped = base64url (repeat 60 0);
  aad = base64url (aad_text input);
  hpke = none;
}

begun : begin_wrap zk group input ≡ ok made
unfolding begin_wrap made text is_name text_eq epoch create_opaque_wrap wrap_record
begun = refl

group_tests :
    (new_sharing (codes "g") (codes "ana" ∷ codes "bia" ∷ codes "ana" ∷ []) 1 ≡ ok group)
    × (begin_wrap zk group (record input { recipient_id = codes "eva" }) ≡ err revoked_recipient)
    × (begin_wrap zk group (record input { epoch = 2 }) ≡ err stale_epoch)
    × (begin_wrap zk (rotate group) input ≡ err stale_epoch)
unfolding new_sharing begin_wrap rotate text is_name epoch text_eq
group_tests = (refl, refl, refl, refl)

after_revocation : Sharing
after_revocation = record group {
  revoked_devices = codes "laptop" ∷ [];
  membership_version = 2;
  epoch = 2;
}

revoked_laptop : revoke_device group (codes "laptop") ≡ ok after_revocation
unfolding revoke_device after_revocation text is_name
revoked_laptop = refl

aad_input : aad_for input ≡ ok (aad_text input)
unfolding aad_for text is_name epoch
aad_input = refl

aad_for_injective_example : Same input (record input { recipient_public_key = some [] })
unfolding aad_for
aad_for_injective_example =
    aad_for_injective input (record input { recipient_public_key = some [] }) (aad_text input)
      aad_input aad_input

calls-IsCurrent_example : IsCurrent (
    calls zk group
      (wrap_call input ∷ add_call (codes "eva") ∷ wrap_call (record input { epoch = 2 }) ∷ []))
calls-IsCurrent_example =
    calls-IsCurrent zk
      (wrap_call input ∷ add_call (codes "eva") ∷ wrap_call (record input { epoch = 2 }) ∷ []) group
      tt

revoked_refused_example : ¬ (
    begin_wrap zk
      (calls zk after_revocation (register_call (codes "bia") (codes "laptop") (codes "key") ∷ []))
      (record input { epoch = 2 })
    ≡ ok made)
revoked_refused_example =
    revoked_refused zk (codes "laptop") group after_revocation
      (register_call (codes "bia") (codes "laptop") (codes "key") ∷ []) (record input { epoch = 2 })
      made revoked_laptop refl

revoked_while_waiting_example :
    ((finish_wrap made after_revocation).wraps ≡ made ∷ [])
    × ((finish_wrap made after_revocation).epoch ≡ made.epoch + 1)
    × (text_in made.device_id (finish_wrap made after_revocation).revoked_devices ≡ true)
revoked_while_waiting_example =
    revoked_while_waiting zk group after_revocation input made begun revoked_laptop

-- What opens each wrap to the same key.
abbrev opener : Opener
opener = record {
  hpke_open = λ key enc ciphertext info aad. none;
  unwrap_key = λ wrapped key aad i. some (repeat 32 1);
}

unwrap_tests :
    (validate_opaque_wrap made ≡ ok made)
    × (unwrap opener group made input [] none ≡ ok (repeat 32 1))
    × (unwrap opener (rotate group) made input [] none ≡ err stale_epoch)
    × (unwrap opener after_revocation made input [] none ≡ err revoked_recipient)
unfolding validate_opaque_wrap unwrap made rotate after_revocation text is_name epoch base64url
    is_base64_character text_eq from_base64url aad_text decimal aad_for
unwrap_tests = (refl, refl, refl, refl)

without_bia : Sharing
without_bia = record group { members = codes "ana" ∷ []; membership_version = 2; epoch = 2 }

removed_bia : remove_member group (codes "bia") ≡ ok without_bia
unfolding remove_member without_bia text is_name text_eq
removed_bia = refl

stale_refused_example : ¬ (unwrap opener without_bia made input [] none ≡ ok (repeat 32 1))
unfolding calls
stale_refused_example =
    stale_refused opener zk group without_bia [] [] input input made (codes "bia") [] (repeat 32 1)
      none begun removed_bia
