-- ===== src/GroupKeys/Sharing/Current.antt =====
-- What the wraps of a group are for, as long as each is made without a change in between.
use servidor_drive.Prelude.{
  is_nonempty, ℕ, ◌≡◌, refl, Bool, true, false, not, ◌&&◌, Option, List, [], ◌∷◌, ◌++◌,
  if◌then◌else◌, ◌==◌, Text, text_in, Result, ok, err, >>=-eq-ok, ok_injective, Result-cases, All,
  arith, Bool-cases, inl, inr, length,
}
use mathlib.Core.Path.{subst}
use servidor_drive.GroupKeys.Names.{GroupError, revoked_recipient, stale_epoch, text, epoch}
use servidor_drive.GroupKeys.Wrap.{
  WrapInput, Wrap, Zk, create_opaque_wrap, aad_for, wrap_record, Hpke, answered, seal_for,
}
use servidor_drive.GroupKeys.Sharing.{
  Sharing, active, register_device, rotate, add_member, remove_member, revoke_device, begin_wrap,
  finish_wrap, wrap_for, sealed_input, is_of, device_at, set_device,
}

-- The wrap has the group's epoch, its recipient is a member and its device is not revoked.
abbrev pub IsCurrentWrap : Sharing → Wrap → Type 0
IsCurrentWrap s w =
    (w.epoch ≡ s.epoch)
    × (text_in w.recipient_id s.members ≡ true)
    × (text_in w.device_id s.revoked_devices ≡ false)

abbrev pub IsCurrent : Sharing → Type 0
IsCurrent s = All (IsCurrentWrap s) s.wraps

All-append {ℓ} :
    {A : Type ℓ} (P : A → Type 0) (xs : List A) (x : A) → All P xs → P x → All P (xs ++ x ∷ [])
All-append P [] x h p = (p, tt)
All-append P (y ∷ xs) x (q, h) p = (q, All-append P xs x h p)

pub text-same : (s t : Text) → text s ≡ ok t → s ≡ t
unfolding text
text-same s t h = ground arith

module _ (zk : Zk) where
  -- The calls on a group, each run to its end; one that is refused changes nothing.
  pub data Call : Type 0 where
    register_call : Text → Text → Text → Call
    add_call remove_call revoke_call : Text → Call
    rotate_call : Call
    wrap_call : WrapInput → Call

  abbrev pub or_same : Sharing → Result GroupError Sharing → Sharing
  or_same s (err e) = s
  or_same s (ok t) = t

  unfoldable pub call : Sharing → Call → Sharing
  unfolding wrap_for register_device
  call s (register_call recipient device key) = or_same s (register_device s recipient device key)
  call s (add_call recipient) = or_same s (add_member s recipient)
  call s (remove_call recipient) = or_same s (remove_member s recipient)
  call s (revoke_call device) = or_same s (revoke_device s device)
  call s rotate_call = rotate s
  call s (wrap_call input) = or_same s (wrap_for zk s input)

  unfoldable pub calls : Sharing → List Call → Sharing
  unfolding call
  calls s [] = s
  calls s (c ∷ cs) = calls (call s c) cs

  abbrev pub IsFor : WrapInput → Wrap → Type 0
  IsFor i w = (w.epoch ≡ i.epoch) × (w.recipient_id ≡ i.recipient_id) × (w.device_id ≡ i.device_id)

  wrap_record-IsFor :
      (i : WrapInput) (aad : Text) (wrapped : List ℕ) (hpke : Option Hpke)
      → IsFor i (wrap_record i aad wrapped hpke)
  unfolding wrap_record
  wrap_record-IsFor i aad wrapped hpke = (refl, refl, refl)

  pub created-IsFor : (i : WrapInput) (w : Wrap) → create_opaque_wrap zk i ≡ ok w → IsFor i w
  unfolding create_opaque_wrap
  created-IsFor i w h = elim (Bool-cases (length i.wrap_id == 16)) [
    | inr bad ↦ absurd (cc (rw (bad, create_opaque_wrap) at h))
    | inl good ↦
        let (aad, e1, h1) = >>=-eq-ok (aad_for i) _ (rw (good, create_opaque_wrap) at h) in
        let (wrapped, e2, h2) = >>=-eq-ok (answered (zk.wrap_key i aad)) _ h1 in
        let (hpke, e3, h3) = >>=-eq-ok (seal_for zk i aad i.recipient_public_key) _ h2 in
        let made : wrap_record i aad wrapped hpke ≡ w = ok_injective h3 in
        rw (← made) (wrap_record-IsFor i aad wrapped hpke)
  ]

  pub active-true :
      (s : Sharing) (recipient device : Text)
      → active s recipient device ≡ ok true
      → (text_in recipient s.members ≡ true) × (text_in device s.revoked_devices ≡ false)
  unfolding active
  active-true s recipient device h =
      let (d, e1, h1) = >>=-eq-ok (text device) _ h in
      let (r, e2, h2) = >>=-eq-ok (text recipient) _ h1 in
      let p : device ≡ d = text-same _ _ e1 in
      let q : recipient ≡ r = text-same _ _ e2 in
      let both : (text_in r s.members
            && not (text_in d s.revoked_devices)
            && is_of recipient (device_at d s.devices))
          ≡ true =
        ok_injective h2 in
      (rw q (ground arith), rw p (ground arith))

  after_checks :
      (s : Sharing) (i : WrapInput) (w : Wrap) (is_active : Bool) (now : ℕ)
      → (if is_active then epoch i.epoch else err revoked_recipient) ≡ ok now
      → (if now == s.epoch then create_opaque_wrap zk (sealed_input s i) else err stale_epoch)
        ≡ ok w
      → (is_active ≡ true) × IsFor (sealed_input s i) w
  after_checks s i w is_active now h k =
      (ground arith, created-IsFor (sealed_input s i) w (ground arith))

  pub begin_wrap_sound :
      (s : Sharing) (i : WrapInput) (w : Wrap)
      → begin_wrap zk s i ≡ ok w
      → IsFor (sealed_input s i) w
        × (text_in i.recipient_id s.members ≡ true)
        × (text_in i.device_id s.revoked_devices ≡ false)
  unfolding begin_wrap
  begin_wrap_sound s i w h =
      let (is_active, checked, h1) = >>=-eq-ok (active s i.recipient_id i.device_id) _ h in
      let (now, checked_epoch, h2) =
        >>=-eq-ok (if is_active then epoch i.epoch else err revoked_recipient) _ h1 in
      let (granted, made) = after_checks s i w is_active now checked_epoch h2 in
      let (member, kept) = active-true s i.recipient_id i.device_id (rw (← granted) checked) in
      (made, member, kept)

  begin_wrap-IsCurrentWrap :
      (s : Sharing) (i : WrapInput) (w : Wrap) → begin_wrap zk s i ≡ ok w → IsCurrentWrap s w
  begin_wrap-IsCurrentWrap s i w h =
      let ((same_epoch, same_recipient, same_device), member, kept) = begin_wrap_sound s i w h in
      (same_epoch, rw same_recipient member, rw same_device kept)

  register-IsCurrent :
      (s t : Sharing) (recipient device key : Text)
      → register_device s recipient device key ≡ ok t
      → IsCurrent s
      → IsCurrent t
  unfolding register_device
  register-IsCurrent s t recipient device key h w =
      let (u, e1, h1) = >>=-eq-ok (text recipient) _ h in
      let (d, e2, h2) = >>=-eq-ok (text device) _ h1 in
      elim (Bool-cases (is_nonempty key)) [
        | inl n ↦
            let p : record s {
              devices = set_device d (record { recipient_id = u; public_key = key }) s.devices;
            }
                ≡ t =
              ok_injective (rw n at h2) in
            subst IsCurrent p w
        | inr n ↦ absurd (cc (rw n at h2))
      ]

  wrap-IsCurrent :
      (s t : Sharing) (i : WrapInput) → wrap_for zk s i ≡ ok t → IsCurrent s → IsCurrent t
  unfolding wrap_for finish_wrap
  wrap-IsCurrent s t i h w =
      let (made, e1, h1) = >>=-eq-ok (begin_wrap zk s i) _ h in
      let p : finish_wrap made s ≡ t = ok_injective h1 in
      subst IsCurrent p
        (All-append (IsCurrentWrap s) s.wraps made w (begin_wrap-IsCurrentWrap s i made e1))

  call-IsCurrent : (s : Sharing) (c : Call) → IsCurrent s → IsCurrent (call s c)
  unfolding call add_member remove_member revoke_device rotate
  call-IsCurrent s (register_call recipient device key) w =
      elim (Result-cases (register_device s recipient device key)) [
        | inl (e, bad) ↦ rw bad w
        | inr (t, good) ↦ rw good (register-IsCurrent s t recipient device key good w)
      ]
  call-IsCurrent s (add_call recipient) w = elim (Result-cases (text recipient)) [
    | inl (e, bad) ↦ rw bad w
    | inr (t, good) ↦ rw good tt
  ]
  call-IsCurrent s (remove_call recipient) w = elim (Result-cases (text recipient)) [
    | inl (e, bad) ↦ rw bad w
    | inr (t, good) ↦ rw good tt
  ]
  call-IsCurrent s (revoke_call device) w = elim (Result-cases (text device)) [
    | inl (e, bad) ↦ rw bad w
    | inr (t, good) ↦ rw good tt
  ]
  call-IsCurrent s rotate_call w = tt
  call-IsCurrent s (wrap_call i) w = elim (Result-cases (wrap_for zk s i)) [
    | inl (e, bad) ↦ rw bad w
    | inr (t, good) ↦ rw good (wrap-IsCurrent s t i good w)
  ]

  -- If each wrap is made without a change in between, then over any calls all wraps of the group have
  -- its epoch, and are for members and for devices that are not revoked.
  pub calls-IsCurrent : (cs : List Call) (s : Sharing) → IsCurrent s → IsCurrent (calls s cs)
  unfolding calls
  calls-IsCurrent [] s w = w
  calls-IsCurrent (c ∷ cs) s w = calls-IsCurrent cs (call s c) (call-IsCurrent s c w)
