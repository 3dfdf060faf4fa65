-- ===== src/Groups.antt =====
-- AtomicGroupsStore of src/routes/groups.js: the groups, their members, and the epoch and the manifest
-- of their keys.
pub mod Well
pub mod Epochs
pub mod Tests
use servidor_drive.Prelude.{
  ℕ, zero, suc, ◌+◌, Bool, true, false, not, ◌&&◌, ◌||◌, Option, none, some, List, [], ◌∷◌, ◌++◌,
  length, ltb, ◌==◌, if◌then◌else◌, Text, text_eq, text_in, trim, is_nonempty, Result, ok, err,
  ◌>>=◌, every, any, leb, utf16_length,
}
use servidor_drive.Prelude.Objects.{Slot, absent, foreign, own, inherited_names}
use servidor_drive.Prelude.TextMaps.{TextMap, lookup, read_text, insert, discard}
use servidor_drive.GroupKeys.Names.{GroupError}
use servidor_drive.GroupKeys.Validate.{Manifest, validate_manifest}

abbrev pub max_group_name : ℕ
max_group_name = 80

abbrev pub max_members : ℕ
max_members = 500

-- `keyEpoch` is missing in a group that was stored before there were keys; the identifier, the name, the
-- members and the first time are missing in one that was made of an inherited value.
pub record Group : Type 0 where
  pub id : Option Text
  pub name : Option Text
  pub members : Option (List Text)
  pub key_epoch : Option ℕ
  pub key_manifest : Option Manifest
  pub created_at : Option Text
  pub updated_at : Option Text

-- What an inherited value, such as the constructor of every object, gives where the code reads it:
-- `{ ...value }` copies nothing of a function, and a function has no members, `keyEpoch` or `keyManifest`.
abbrev pub inherited_group : Group
inherited_group = record {
  id = none;
  name = none;
  members = none;
  key_epoch = none;
  key_manifest = none;
  created_at = none;
  updated_at = none;
}

-- `this.state.groups[id]`
abbrev pub of_slot : Slot Group → Option Group
of_slot absent = none
of_slot foreign = some inherited_group
of_slot (own g) = some g

abbrev pub State : Type 0
State = TextMap Group

-- What is thrown: the limit, a manifest that is invalid or stale, or the error of a group without members,
-- such as the value of a name that every object inherits.
pub data GroupsError : Type 0 where
  member_limit invalid_manifest stale_manifest members_missing : GroupsError

-- `value || 1`
abbrev pub or_one : Option ℕ → ℕ
or_one none = 1
or_one (some zero) = 1
or_one (some (suc n)) = suc n

-- `/[\u0000-\u001f\u007f]/`
abbrev is_control : ℕ → Bool
is_control c = leb c 31 || c == 127

unfoldable pub normalize_name : Text → Option Text
normalize_name value =
    let name = trim value in
    if is_nonempty name && not (ltb max_group_name (utf16_length name)) && not (any is_control name)
    then some name
    else none

unfoldable pub assert_member_limit : List Text → Result GroupsError (List Text)
assert_member_limit members =
    if ltb max_members (length members) then err member_limit else ok members

-- `group.members.includes(member)`
abbrev pub has_member : Text → Option (List Text) → Result GroupsError Bool
has_member username none = err members_missing
has_member username (some members) = ok (text_in username members)

-- One step of `some`, whose rest is not looked at once a group has the member.
abbrev pub or_rest : Result GroupsError Bool → Result GroupsError Bool → Result GroupsError Bool
or_rest (err e) rest = err e
or_rest (ok true) rest = ok true
or_rest (ok false) rest = rest

-- `isGroupMember`: the search ends at the first group that has the member.
unfoldable pub is_group_member : State → Text → List Text → Result GroupsError Bool
unfolding read_text
is_group_member s username [] = ok false
is_group_member s username (id ∷ ids) =
    let rest = is_group_member s username ids in
    elim (of_slot (read_text id s)) [
      | none ↦ rest
      | some g ↦ or_rest (has_member username g.members) rest
    ]

-- The identifier is drawn by the caller's clock and generator.
unfoldable pub create : Text → Text → Text → List Text → State → Result GroupsError (Group × State)
unfolding assert_member_limit insert
create id now name members s = do
  _ ← assert_member_limit members
  let group : Group = record {
    id = some id;
    name = some name;
    members = some members;
    key_epoch = some 1;
    key_manifest = none;
    created_at = some now;
    updated_at = some now;
  }
  ok (group, insert id group s)

pub record Changes : Type 0 where
  pub name : Option Text
  pub members : Option (List Text)

abbrev pub or_old {ℓ} : {A : Type ℓ} → Option A → Option A → Option A
or_old none old = old
or_old (some new) old = some new

-- Two lists of names are the same if their JSON texts are.
unfoldable pub same_names : List Text → List Text → Bool
same_names [] [] = true
same_names (x ∷ xs) (y ∷ ys) = text_eq x y && same_names xs ys
same_names _ _ = false

abbrev pub checked_members : Option (List Text) → Result GroupsError (Unit {0})
checked_members none = ok tt
checked_members (some members) =
    if ltb max_members (length members) then err member_limit else ok tt

-- New members differ from none, whose JSON is undefined.
abbrev pub membership_changed : Option (List Text) → Option (List Text) → Bool
membership_changed none old = false
membership_changed (some new) none = true
membership_changed (some new) (some old) = not (same_names new old)

-- The group with the changes: new members start the next epoch without a manifest.
unfoldable pub changed : Text → Changes → Group → Group
unfolding same_names
changed now changes current =
    let new_keys = membership_changed changes.members current.members in
    record current {
      name = or_old changes.name current.name;
      members = or_old changes.members current.members;
      key_epoch =
          some (if new_keys then or_one current.key_epoch + 1 else or_one current.key_epoch);
      key_manifest = if new_keys then none else current.key_manifest;
      updated_at = some now;
    }

abbrev pub manifest_answer : Result GroupError Manifest → Result GroupsError Manifest
manifest_answer (err e) = err invalid_manifest
manifest_answer (ok m) = ok m

module _ (id now : Text) (s : State) where
  -- `update` on what is read at the identifier.
  unfoldable pub update_at : Changes → Option Group → Result GroupsError (Option Group × State)
  unfolding changed insert
  update_at changes none = ok (none, s)
  update_at changes (some current) = do
    _ ← checked_members changes.members
    ok (some (changed now changes current), insert id (changed now changes current) s)

  unfoldable pub update : Changes → Result GroupsError (Option Group × State)
  unfolding update_at read_text
  update changes = update_at changes (of_slot (read_text id s))

  unfoldable pub accept_manifest : Group → Manifest → Result GroupsError (Option Group × State)
  unfolding insert
  accept_manifest current normalized =
      let group : Group = record current {
        key_manifest = some normalized;
        updated_at = some now;
      } in
      if text_eq normalized.group_id id && normalized.epoch == or_one current.key_epoch
      then ok (some group, insert id group s)
      else err stale_manifest

  -- `setKeyManifest` on what is read at the identifier.
  unfoldable pub set_key_manifest_at :
      Manifest → Option Group → Result GroupsError (Option Group × State)
  unfolding accept_manifest
  set_key_manifest_at manifest none = ok (none, s)
  set_key_manifest_at manifest (some current) = do
    normalized ← manifest_answer (validate_manifest manifest)
    accept_manifest current normalized

  unfoldable pub set_key_manifest : Manifest → Result GroupsError (Option Group × State)
  unfolding set_key_manifest_at read_text
  set_key_manifest manifest = set_key_manifest_at manifest (of_slot (read_text id s))

module _ (id : Text) (s : State) where
  unfoldable pub remove_at : Slot Group → Bool × State
  unfolding discard
  remove_at absent = (false, s)
  remove_at foreign = (true, s)
  remove_at (own g) = (true, discard id s)

  -- `remove`: an inherited name is removed with success and without effect.
  unfoldable pub remove : Bool × State
  unfolding remove_at read_text
  remove = remove_at (read_text id s)
