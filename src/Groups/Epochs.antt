-- ===== src/Groups/Epochs.antt =====
-- How the key epoch of a group goes with its members.
use servidor_drive.Prelude.{
  ℕ, zero, suc, ◌+◌, ◌≡◌, ◌≤◌, ◌<◌, ◌⊎◌, refl, ap, ◌∙◌, Bool, true, false, not, ◌&&◌, Option, none,
  some, List, [], ◌∷◌, length, ltb, ◌==◌, Text, text_eq, eq_of_text_eq, Result-cases, Bool-cases,
  inl, inr, arith, All,
}
use servidor_drive.Prelude.Objects.{Slot, absent, foreign, own}
use servidor_drive.Prelude.TextMaps.{
  lookup, insert, lookup-insert, lookup-discard, read_text, read_text-own, read_text-foreign,
}
use servidor_drive.GroupKeys.Validate.{Manifest, validate_manifest}
use servidor_drive.Groups.{
  inherited_group, of_slot, Group, State, Changes, create, update, update_at, accept_manifest,
  set_key_manifest, set_key_manifest_at, remove, remove_at, changed, or_one, or_old, max_members,
  checked_members, assert_member_limit, membership_changed, manifest_answer, same_names,
}
use servidor_drive.Groups.Well.{
  Call, create_call, update_call, manifest_call, remove_call, call, calls, or_same, or_one_twice,
}

-- The same members in the same epoch, or a later epoch.
abbrev pub Advances : Group → Group → Type 0
Advances old new =
    ((or_one new.key_epoch ≡ or_one old.key_epoch) × (new.members ≡ old.members))
    ⊎ (or_one old.key_epoch < or_one new.key_epoch)

abbrev pub Advanced : Text → Group → State → Type 0
Advanced id old s = (new : Group) × (lookup id s ≡ some new) × Advances old new

same_names-eq : (xs ys : List Text) → same_names xs ys ≡ true → xs ≡ ys
unfolding same_names
same_names-eq [] [] h = refl
same_names-eq [] (y ∷ ys) h = cc
same_names-eq (x ∷ xs) [] h = cc
same_names-eq (x ∷ xs) (y ∷ ys) h = ground (arith, same_names-eq xs ys, eq_of_text_eq x y)

unchanged_members :
    (o old : Option (List Text)) → membership_changed o old ≡ false → or_old o old ≡ old
unchanged_members none old h = refl
unchanged_members (some new) none h = absurd (cc)
unchanged_members (some new) (some old) h = ap some (same_names-eq new old (ground arith))

or_one_positive : (n : ℕ) → n + 1 ≤ or_one (some (n + 1))
or_one_positive zero = omega arith
or_one_positive (suc n) = let e : suc n + 1 ≡ suc (n + 1) = omega arith in rw e (omega arith)

or_one_grows : (o : Option ℕ) → or_one o < or_one (some (or_one o + 1))
or_one_grows none = omega arith
or_one_grows (some zero) = omega arith
or_one_grows (some (suc n)) = omega (arith, or_one_positive (suc n))

changed-Advances : (now : Text) (changes : Changes) (g : Group) → Advances g (changed now changes g)
unfolding changed
changed-Advances now changes g = elim (Bool-cases (membership_changed changes.members g.members)) [
  | inl t ↦ inr (rw t (or_one_grows g.key_epoch))
  | inr f ↦ inl (rw f (or_one_twice g.key_epoch), unchanged_members changes.members g.members f)
]

Advances-trans : (a b c : Group) → Advances a b → Advances b c → Advances a c
Advances-trans a b c (inl (e, m)) (inl (f, n)) = inl (f ∙ e, n ∙ m)
Advances-trans a b c (inl (e, m)) (inr l) = inr (omega (arith, e))
Advances-trans a b c (inr l) (inl (f, n)) = inr (omega (arith, f))
Advances-trans a b c (inr l) (inr r) = inr (omega arith)

-- The calls that neither create a group under the identifier nor remove it.
abbrev pub spares : Text → Call → Bool
spares id (create_call j now name members) = not (text_eq j id)
spares id (remove_call j) = not (text_eq j id)
spares id _ = true

stays : (id : Text) (old : Group) (s : State) → lookup id s ≡ some old → Advanced id old s
stays id old s h = (old, h, inl (refl, refl))

-- A group that is made of an inherited value stands at another identifier.
inserted_new :
    (j id : Text) (old new : Group) (s : State)
    → lookup id s ≡ some old
    → lookup j s ≡ none
    → Advanced id old (insert j new s)
inserted_new j id old new s h missing = elim (Bool-cases (text_eq j id)) [
  | inl t ↦ absurd (cc (eq_of_text_eq j id t, h, missing))
  | inr f ↦ (old, rw (lookup-insert j id new s, f) h, inl (refl, refl))
]

inserted :
    (j id : Text) (old g new : Group) (s : State)
    → lookup id s ≡ some old
    → lookup j s ≡ some g
    → Advances g new
    → Advanced id old (insert j new s)
inserted j id old g new s h found a = elim (Bool-cases (text_eq j id)) [
  | inl t ↦
      let p : j ≡ id = eq_of_text_eq j id t in
      let q : g ≡ old = cc (rw p at found) in
      (new, rw (lookup-insert j id new s, t) refl, rw (← q) a)
  | inr f ↦ (old, rw (lookup-insert j id new s, f) h, inl (refl, refl))
]

module _ (id : Text) (old : Group) (s : State) (h : lookup id s ≡ some old) where
  create-Advanced :
      (j now name : Text) (members : List Text)
      → text_eq j id ≡ false
      → Advanced id old (or_same s (create j now name members s))
  unfolding create assert_member_limit
  create-Advanced j now name members f = elim (Bool-cases (ltb max_members (length members))) [
    | inl t ↦ rw t (stays id old s h)
    | inr g ↦ rw g (old, rw (lookup-insert j id _ s, f) h, inl (refl, refl))
  ]

  update_at-Advanced :
      (j now : Text) (changes : Changes) (slot : Slot Group)
      → read_text j s ≡ slot
      → Advanced id old (or_same s (update_at j now s changes (of_slot slot)))
  unfolding update_at
  update_at-Advanced j now changes absent e = stays id old s h
  update_at-Advanced j now changes foreign e =
      elim (Result-cases (checked_members changes.members)) [
        | inl (_, bad) ↦ rw bad (stays id old s h)
        | inr (u, good) ↦ rw good (
            inserted_new j id old (changed now changes inherited_group) s h
              (read_text-foreign j s e).0)
      ]
  update_at-Advanced j now changes (own g) e =
      elim (Result-cases (checked_members changes.members)) [
        | inl (_, bad) ↦ rw bad (stays id old s h)
        | inr (u, good) ↦ rw good (
            inserted j id old g (changed now changes g) s h (read_text-own j s g e)
              (changed-Advances now changes g))
      ]

  accept_manifest-Advanced :
      (j now : Text) (g : Group) (m : Manifest)
      → lookup j s ≡ some g
      → Advanced id old (or_same s (accept_manifest j now s g m))
  unfolding accept_manifest
  accept_manifest-Advanced j now g m found =
      elim (Bool-cases (text_eq m.group_id j && m.epoch == or_one g.key_epoch)) [
        | inl t ↦ rw t (inserted j id old g _ s h found (inl (refl, refl)))
        | inr f ↦ rw f (stays id old s h)
      ]

  accept_new-Advanced :
      (j now : Text) (m : Manifest)
      → lookup j s ≡ none
      → Advanced id old (or_same s (accept_manifest j now s inherited_group m))
  unfolding accept_manifest
  accept_new-Advanced j now m missing = elim (Bool-cases (text_eq m.group_id j && m.epoch == 1)) [
    | inl t ↦ rw t (inserted_new j id old _ s h missing)
    | inr f ↦ rw f (stays id old s h)
  ]

  set_key_manifest_at-Advanced :
      (j now : Text) (manifest : Manifest) (slot : Slot Group)
      → read_text j s ≡ slot
      → Advanced id old (or_same s (set_key_manifest_at j now s manifest (of_slot slot)))
  unfolding set_key_manifest_at
  set_key_manifest_at-Advanced j now manifest absent e = stays id old s h
  set_key_manifest_at-Advanced j now manifest foreign e =
      elim (Result-cases (manifest_answer (validate_manifest manifest))) [
        | inl (_, bad) ↦ rw bad (stays id old s h)
        | inr (m, good) ↦ rw good (accept_new-Advanced j now m (read_text-foreign j s e).0)
      ]
  set_key_manifest_at-Advanced j now manifest (own g) e =
      elim (Result-cases (manifest_answer (validate_manifest manifest))) [
        | inl (_, bad) ↦ rw bad (stays id old s h)
        | inr (m, good) ↦ rw good (accept_manifest-Advanced j now g m (read_text-own j s g e))
      ]

  remove_at-Advanced :
      (j : Text) (slot : Slot Group) → text_eq j id ≡ false → Advanced id old (remove_at j s slot).1
  unfolding remove_at
  remove_at-Advanced j absent f = stays id old s h
  remove_at-Advanced j foreign f = stays id old s h
  remove_at-Advanced j (own g) f = (old, rw (lookup-discard j id s, f) h, inl (refl, refl))

  call-Advanced : (c : Call) → spares id c ≡ true → Advanced id old (call s c)
  unfolding call update set_key_manifest remove
  call-Advanced (create_call j now name members) k =
      create-Advanced j now name members (ground arith)
  call-Advanced (update_call j now changes) k =
      update_at-Advanced j now changes (read_text j s) refl
  call-Advanced (manifest_call j now manifest) k =
      set_key_manifest_at-Advanced j now manifest (read_text j s) refl
  call-Advanced (remove_call j) k = remove_at-Advanced j (read_text j s) (ground arith)

-- While a group is neither removed nor created anew, its key epoch never falls, and as long as it is the
-- same the members are the same: a change of members is always a new epoch.
pub calls-Advanced :
    (cs : List Call) (id : Text) (old : Group) (s : State)
    → lookup id s ≡ some old
    → All (λ c. spares id c ≡ true) cs
    → Advanced id old (calls s cs)
unfolding calls
calls-Advanced [] id old s h k = stays id old s h
calls-Advanced (c ∷ cs) id old s h (k, ks) =
    let (mid, here, a) = call-Advanced id old s h c k in
    let (new, there, b) = calls-Advanced cs id mid (call s c) here ks in
    (new, there, Advances-trans old mid new a b)
