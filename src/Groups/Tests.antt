-- ===== src/Groups/Tests.antt =====
-- Runs of the groups store, and the theorems at concrete inputs.
use servidor_drive.GroupKeys.Names.{epoch, is_name, text}
use servidor_drive.Prelude.{
  ◌≡◌, refl, true, none, some, List, [], ◌∷◌, codes, Text, ok, err, text_eq, trim,
}
use servidor_drive.Prelude.TextMaps.{lookup}
use servidor_drive.GroupKeys.Validate.{Manifest, validate_manifest}
use servidor_drive.Groups.{
  Group, State, create, update, set_key_manifest, is_group_member, normalize_name, stale_manifest,
  members_missing, inherited_group,
}
use servidor_drive.Groups.Well.{
  Call, create_call, update_call, manifest_call, remove_call, calls, IsKeyed, calls-IsKeyed,
}
use servidor_drive.Groups.Epochs.{Advanced, calls-Advanced}

abbrev id : Text
id = codes "group-1"

abbrev pair : List Text
pair = codes "ana" ∷ codes "bia" ∷ []

abbrev team : Group
team = record {
  id = some id;
  name = some (codes "Team");
  members = some pair;
  key_epoch = some 1;
  key_manifest = none;
  created_at = some (codes "t0");
  updated_at = some (codes "t0");
}

abbrev one_group : State
one_group = (id, team) ∷ []

abbrev manifest : Manifest
manifest = record { group_id = id; epoch = 1; wraps = []; membership = none }

abbrev with_manifest : Group
with_manifest = record team { key_manifest = some manifest; updated_at = some (codes "t1") }

abbrev smaller : Group
smaller = record team {
  members = some (codes "ana" ∷ []);
  key_epoch = some 2;
  updated_at = some (codes "t2");
}

group_tests :
    (create id (codes "t0") (codes "Team") pair [] ≡ ok (team, one_group))
    × (set_key_manifest id (codes "t1") one_group manifest
        ≡ ok (some with_manifest, (id, with_manifest) ∷ []))
    × (set_key_manifest id (codes "t1") one_group (record manifest { epoch = 2 })
        ≡ err stale_manifest)
    × (update id
          (codes "t2")
          ((id, with_manifest) ∷ [])
          (record { name = none; members = some (codes "ana" ∷ []) })
        ≡ ok (some smaller, (id, smaller) ∷ []))
    × (is_group_member one_group (codes "ana") (codes "nobody" ∷ id ∷ []) ≡ ok true)
    × (normalize_name (codes "  Team ") ≡ some (codes "Team"))
unfolding create set_key_manifest update is_group_member normalize_name text_eq validate_manifest
    text is_name epoch trim
group_tests = (refl, refl, refl, refl, refl, refl)

-- A name that every object inherits is taken for a group.
inherited_is_found :
    is_group_member one_group (codes "ana") (codes "constructor" ∷ []) ≡ err members_missing
unfolding is_group_member text_eq
inherited_is_found = refl

-- An update by such a name stores a group without identifier and members.
abbrev nameless : Group
nameless = record inherited_group {
  name = some (codes "X");
  key_epoch = some 1;
  updated_at = some (codes "t3");
}

inherited_is_stored :
    update (codes "toString") (codes "t3") [] (record { name = some (codes "X"); members = none })
    ≡ ok (some nameless, (codes "toString", nameless) ∷ [])
unfolding update text_eq
inherited_is_stored = refl

abbrev changes : List Call
changes =
    manifest_call id (codes "t1") manifest
    ∷ update_call id (codes "t2") (record { name = none; members = some (codes "ana" ∷ []) })
    ∷ []

calls-IsKeyed_example :
    IsKeyed
      (calls [] (create_call id (codes "t0") (codes "Team") pair ∷ remove_call (codes "x") ∷ []))
unfolding lookup
calls-IsKeyed_example =
    calls-IsKeyed (create_call id (codes "t0") (codes "Team") pair ∷ remove_call (codes "x") ∷ [])
      [] (refl, (refl, tt)) (λ i g h. absurd cc)

found : lookup id one_group ≡ some team
unfolding lookup text_eq
found = refl

calls-Advanced_example : Advanced id team (calls one_group changes)
calls-Advanced_example = calls-Advanced changes id team one_group found (refl, (refl, tt))
