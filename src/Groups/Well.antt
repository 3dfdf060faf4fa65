-- ===== src/Groups/Well.antt =====
-- The invariant of the stored groups, and the calls that keep it.
use servidor_drive.Prelude.{
  ℕ, zero, suc, ◌≡◌, ◌≤◌, refl, ◌&&◌, Bool, false, All, Option, none, some, List, [], ◌∷◌, length,
  ltb, ◌==◌, Text, text_eq, eq_of_text_eq, Result, ok, err, Result-cases, Bool-cases, inl, inr,
  arith,
}
use servidor_drive.Prelude.Objects.{Slot, absent, foreign, own}
use servidor_drive.Prelude.TextMaps.{
  lookup, insert, discard, lookup-insert, lookup-discard, read_text, read_text-own,
  read_text-foreign, is_inherited,
}
use servidor_drive.GroupKeys.Validate.{Manifest, validate_manifest}
use servidor_drive.Groups.{
  of_slot, Group, State, GroupsError, Changes, create, update, update_at, accept_manifest,
  set_key_manifest, set_key_manifest_at, remove, remove_at, changed, or_one, or_old, max_members,
  checked_members, assert_member_limit, membership_changed, manifest_answer,
}

-- A manifest is for its group and for the epoch of its keys.
abbrev pub IsKeyedGroup : Text → Group → Type 0
IsKeyedGroup id g =
    (g.id ≡ some id)
    × ((members : List Text) × (g.members ≡ some members) × (length members ≤ max_members))
    × ((m : Manifest)
        → g.key_manifest ≡ some m
        → (m.group_id ≡ id) × (m.epoch ≡ or_one g.key_epoch))

abbrev pub IsKeyed : State → Type 0
IsKeyed s = (id : Text) (g : Group) → lookup id s ≡ some g → IsKeyedGroup id g

insert-IsKeyed :
    (id : Text) (g : Group) (s : State) → IsKeyedGroup id g → IsKeyed s → IsKeyed (insert id g s)
insert-IsKeyed id g s w ws j h found = elim (Bool-cases (text_eq id j)) [
  | inl t ↦
      let e : Path (Option Group) (some g) (some h) = rw (lookup-insert id j g s, t) at found in
      let p : id ≡ j = eq_of_text_eq id j t in let q : g ≡ h = cc in rw (← q) (rw (← p) w)
  | inr f ↦ ws j h (rw (lookup-insert id j g s, f) at found)
]

discard-IsKeyed : (id : Text) (s : State) → IsKeyed s → IsKeyed (discard id s)
discard-IsKeyed id s ws j h found = elim (Bool-cases (text_eq id j)) [
  | inl t ↦ absurd (cc (rw (lookup-discard id j s, t) at found))
  | inr f ↦ ws j h (rw (lookup-discard id j s, f) at found)
]

pub or_one_twice : (o : Option ℕ) → or_one (some (or_one o)) ≡ or_one o
or_one_twice none = refl
or_one_twice (some zero) = refl
or_one_twice (some (suc n)) = refl

abbrev AreBounded : Option (List Text) → Type 0
AreBounded o = (members : List Text) × (o ≡ some members) × (length members ≤ max_members)

checked-bounded :
    (o old : Option (List Text))
    → checked_members o ≡ ok tt
    → AreBounded old
    → AreBounded (or_old o old)
checked-bounded none old h l = l
checked-bounded (some members) old h l = (members, refl, ground arith)

changed-IsKeyedGroup :
    (id now : Text) (changes : Changes) (g : Group)
    → checked_members changes.members ≡ ok tt
    → IsKeyedGroup id g
    → IsKeyedGroup id (changed now changes g)
unfolding changed
changed-IsKeyedGroup id now changes g h (named, bounded, keyed) =
    elim (Bool-cases (membership_changed changes.members g.members)) [
      | inl t ↦ (
        named,
        checked-bounded changes.members g.members h bounded,
        λ m e. absurd (cc (rw t at e)),
      )
      | inr f ↦ (
        named,
        checked-bounded changes.members g.members h bounded,
        λ m e.
            let (same_group, same_epoch) = keyed m (rw f at e) in
            (same_group, rw (f, or_one_twice g.key_epoch) same_epoch),
      )
    ]

-- The calls on the store; one that throws leaves it as it is.
pub data Call : Type 0 where
  create_call : Text → Text → Text → List Text → Call
  update_call : Text → Text → Changes → Call
  manifest_call : Text → Text → Manifest → Call
  remove_call : Text → Call

-- A change of what stands at a name that every object inherits.
abbrev pub changes_inherited : Call → Bool
changes_inherited (update_call id now changes) = is_inherited id
changes_inherited (manifest_call id now manifest) = is_inherited id
changes_inherited _ = false

abbrev pub or_same : {A : Type 0} → State → Result GroupsError (A × State) → State
or_same s (err e) = s
or_same s (ok (a, t)) = t

unfoldable pub call : State → Call → State
unfolding create update set_key_manifest remove
call s (create_call id now name members) = or_same s (create id now name members s)
call s (update_call id now changes) = or_same s (update id now s changes)
call s (manifest_call id now manifest) = or_same s (set_key_manifest id now s manifest)
call s (remove_call id) = (remove id s).1

unfoldable pub calls : State → List Call → State
unfolding call
calls s [] = s
calls s (c ∷ cs) = calls (call s c) cs

module _ (s : State) (w : IsKeyed s) where
  create-IsKeyed :
      (id now name : Text) (members : List Text)
      → IsKeyed (or_same s (create id now name members s))
  unfolding create assert_member_limit
  create-IsKeyed id now name members = elim (Bool-cases (ltb max_members (length members))) [
    | inl t ↦ rw t w
    | inr f ↦ rw f (insert-IsKeyed id _ s (refl, (members, refl, ground arith), λ m e. absurd cc) w)
  ]

  update_at-IsKeyed :
      (id now : Text) (changes : Changes) (slot : Slot Group)
      → is_inherited id ≡ false
      → read_text id s ≡ slot
      → IsKeyed (or_same s (update_at id now s changes (of_slot slot)))
  unfolding update_at
  update_at-IsKeyed id now changes absent plain e = w
  update_at-IsKeyed id now changes foreign plain e =
      absurd (cc (plain, (read_text-foreign id s e).1))
  update_at-IsKeyed id now changes (own g) plain e =
      elim (Result-cases (checked_members changes.members)) [
        | inl (_, bad) ↦ rw bad w
        | inr (u, good) ↦ rw good (
            insert-IsKeyed id _ s
              (changed-IsKeyedGroup id now changes g good (w id g (read_text-own id s g e))) w)
      ]

  accept_manifest-IsKeyed :
      (id now : Text) (g : Group) (m : Manifest)
      → IsKeyedGroup id g
      → IsKeyed (or_same s (accept_manifest id now s g m))
  unfolding accept_manifest
  accept_manifest-IsKeyed id now g m (named, bounded, _) =
      elim (Bool-cases (text_eq m.group_id id && m.epoch == or_one g.key_epoch)) [
        | inr f ↦ rw f w
        | inl t ↦ rw t (
            insert-IsKeyed id _ s
              (
                named,
                bounded,
                λ n e.
                    let q : m ≡ n = cc in
                    (
                      rw (← q) (eq_of_text_eq m.group_id id (ground arith)),
                      rw (← q) (ground arith),
                    ),
              )
              w)
      ]

  set_key_manifest_at-IsKeyed :
      (id now : Text) (manifest : Manifest) (slot : Slot Group)
      → is_inherited id ≡ false
      → read_text id s ≡ slot
      → IsKeyed (or_same s (set_key_manifest_at id now s manifest (of_slot slot)))
  unfolding set_key_manifest_at
  set_key_manifest_at-IsKeyed id now manifest absent plain e = w
  set_key_manifest_at-IsKeyed id now manifest foreign plain e =
      absurd (cc (plain, (read_text-foreign id s e).1))
  set_key_manifest_at-IsKeyed id now manifest (own g) plain e =
      elim (Result-cases (manifest_answer (validate_manifest manifest))) [
        | inl (_, bad) ↦ rw bad w
        | inr (m, good) ↦
            rw good (accept_manifest-IsKeyed id now g m (w id g (read_text-own id s g e)))
      ]

  remove_at-IsKeyed : (id : Text) (slot : Slot Group) → IsKeyed (remove_at id s slot).1
  unfolding remove_at
  remove_at-IsKeyed id absent = w
  remove_at-IsKeyed id foreign = w
  remove_at-IsKeyed id (own g) = discard-IsKeyed id s w

  call-IsKeyed : (c : Call) → changes_inherited c ≡ false → IsKeyed (call s c)
  unfolding call update set_key_manifest remove
  call-IsKeyed (create_call id now name members) plain = create-IsKeyed id now name members
  call-IsKeyed (update_call id now changes) plain =
      update_at-IsKeyed id now changes (read_text id s) plain refl
  call-IsKeyed (manifest_call id now manifest) plain =
      set_key_manifest_at-IsKeyed id now manifest (read_text id s) plain refl
  call-IsKeyed (remove_call id) plain = remove_at-IsKeyed id (read_text id s)

-- From stored groups of which this holds, over any calls, none of which updates or gives a manifest to a
-- group by a name that every object inherits: each group is stored under its own identifier, has members,
-- at most 500 of them, and its manifest, if it has one, is for this group and for the current epoch of its
-- keys.
pub calls-IsKeyed :
    (cs : List Call) (s : State)
    → All (λ c. changes_inherited c ≡ false) cs
    → IsKeyed s
    → IsKeyed (calls s cs)
unfolding calls
calls-IsKeyed [] s plain w = w
calls-IsKeyed (c ∷ cs) s (p, plain) w = calls-IsKeyed cs (call s c) plain (call-IsKeyed s w c p)
