-- ===== src/GroupKeys/Sharing.antt =====
-- The class GroupKeySharing of src/services/groupKeySharing.js. A wrap is made in two steps, since
-- `wrapFor` waits for the cryptography between its checks and its push.
pub mod Current
pub mod Revoked
pub mod Stale
use servidor_drive.Prelude.{
  ℕ, ◌+◌, Bool, true, false, not, ◌&&◌, Option, none, some, List, [], ◌∷◌, ◌++◌, keep,
  if◌then◌else◌, ◌==◌, Text, text_eq, text_in, is_nonempty, Result, ok, err, ◌>>=◌,
}
use servidor_drive.GroupKeys.Names.{
  GroupError, invalid_group_wrap, revoked_recipient, stale_epoch, text, epoch,
}
use servidor_drive.GroupKeys.Wrap.{WrapInput, Wrap, Zk, create_opaque_wrap}
use servidor_drive.GroupKeys.Validate.{Opener, unwrap_opaque_wrap}

pub record Device : Type 0 where
  pub recipient_id : Text
  pub public_key : Text

pub record Sharing : Type 0 where
  pub group_id : Text
  pub members : List Text
  pub revoked_devices : List Text
  pub devices : List (Text × Device)
  pub membership_version : ℕ
  pub epoch : ℕ
  pub wraps : List Wrap

-- `Set.prototype.add` and `Set.prototype.delete`
abbrev pub add : Text → List Text → List Text
add x xs = if text_in x xs then xs else xs ++ x ∷ []

abbrev pub without : Text → List Text → List Text
without x xs = keep (λ y. not (text_eq y x)) xs

-- `new Set(members.map(...))`: the first name that is refused ends it.
unfoldable pub member_set : List Text → List Text → Result GroupError (List Text)
member_set [] into = ok into
member_set (m ∷ ms) into = do name ← text m; member_set ms (add name into)

unfoldable pub new_sharing : Text → List Text → ℕ → Result GroupError Sharing
unfolding member_set
new_sharing group_id members current_epoch = do
  id ← text group_id
  names ← member_set members []
  now ← epoch current_epoch
  ok (record {
    group_id = id;
    members = names;
    revoked_devices = [];
    devices = [];
    membership_version = 1;
    epoch = now;
    wraps = [];
  })

unfoldable pub device_at : Text → List (Text × Device) → Option Device
device_at id [] = none
device_at id ((k, d) ∷ rest) = if text_eq k id then some d else device_at id rest

-- `Map.prototype.set`
unfoldable pub set_device : Text → Device → List (Text × Device) → List (Text × Device)
set_device id d [] = (id, d) ∷ []
set_device id d ((k, old) ∷ rest) =
    if text_eq k id then (k, d) ∷ rest else (k, old) ∷ set_device id d rest

abbrev pub is_of : Text → Option Device → Bool
is_of recipient none = true
is_of recipient (some d) = text_eq d.recipient_id recipient

-- A device that is not registered counts for whoever names it.
unfoldable pub active : Sharing → Text → Text → Result GroupError Bool
unfolding device_at
active s recipient_id device_id = do
  device ← text device_id
  recipient ← text recipient_id
  ok (
      text_in recipient s.members
      && not (text_in device s.revoked_devices)
      && is_of recipient_id (device_at device s.devices))

unfoldable pub register_device : Sharing → Text → Text → Text → Result GroupError Sharing
unfolding set_device
register_device s recipient_id device_id public_key = do
  user ← text recipient_id
  device ← text device_id
  (if is_nonempty public_key
      then ok (record s {
        devices =
            set_device device (record { recipient_id = user; public_key = public_key }) s.devices;
      })
      else err invalid_group_wrap)

-- Each change of who may read starts the next epoch with no wraps.
unfoldable pub rotate : Sharing → Sharing
rotate s = record s {
  membership_version = s.membership_version + 1;
  epoch = s.epoch + 1;
  wraps = [];
}

unfoldable pub add_member : Sharing → Text → Result GroupError Sharing
unfolding rotate
add_member s recipient_id = do
  name ← text recipient_id
  ok (rotate (record s { members = add name s.members }))

unfoldable pub remove_member : Sharing → Text → Result GroupError Sharing
unfolding rotate
remove_member s recipient_id = do
  name ← text recipient_id
  ok (rotate (record s { members = without name s.members }))

unfoldable pub revoke_device : Sharing → Text → Result GroupError Sharing
unfolding rotate
revoke_device s device_id = do
  device ← text device_id
  ok (rotate (record s { revoked_devices = add device s.revoked_devices }))

abbrev key_or : Option Text → Option Device → Option Text
key_or (some k) d = some k
key_or none none = none
key_or none (some d) = some d.public_key

-- `{ ...input, recipientPublicKey, epoch: this.epoch }`
abbrev pub sealed_input : Sharing → WrapInput → WrapInput
sealed_input s input = record input {
  recipient_public_key = key_or input.recipient_public_key (device_at input.device_id s.devices);
  epoch = s.epoch;
}

module _ (zk : Zk) where
  -- `wrapFor` up to where it waits: the checks, and the record that the cryptography will give.
  unfoldable pub begin_wrap : Sharing → WrapInput → Result GroupError Wrap
  unfolding active device_at
  begin_wrap s input = do
    is_active ← active s input.recipient_id input.device_id
    now ← (if is_active then epoch input.epoch else err revoked_recipient)
    (if now == s.epoch then create_opaque_wrap zk (sealed_input s input) else err stale_epoch)

-- `this.wraps.push(record)`, on the state that stands when the wait ends.
unfoldable pub finish_wrap : Wrap → Sharing → Sharing
finish_wrap record_made s = record s { wraps = s.wraps ++ record_made ∷ [] }

module _ (zk : Zk) where
  -- `wrapFor` with nothing in between.
  unfoldable pub wrap_for : Sharing → WrapInput → Result GroupError Sharing
  unfolding begin_wrap finish_wrap
  wrap_for s input = do made ← begin_wrap zk s input; ok (finish_wrap made s)

-- `unwrap`, on a record that is given or fetched.
unfoldable pub unwrap :
    Opener → Sharing → Wrap → WrapInput → List ℕ → Option Text → Result GroupError (List ℕ)
unfolding active unwrap_opaque_wrap
unwrap opener s w input cer recipient_key = do
  is_active ← active s input.recipient_id input.device_id
  (if is_active
      then unwrap_opaque_wrap opener w (record input { epoch = s.epoch }) cer recipient_key
      else err revoked_recipient)
