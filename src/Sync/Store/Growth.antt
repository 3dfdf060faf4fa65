-- ===== src/Sync/Store/Growth.antt =====
-- Over any sequence of operations the objects stay, and their revisions only grow.
use servidor_drive.Prelude.{
  String, ◌≡◌, ◌⊎◌, refl, Option, none, some, List, [], ◌∷◌, Ordering, arith, eq_iff, Bool-cases,
  inl, inr, ◌===◌,
}
use servidor_drive.Prelude.Objects.{read, get}
use servidor_drive.Sync.Revision.{
  Revision, Collation, compare_revisions, compare_revisions_swapped, compare_revisions_lt_trans,
}
use servidor_drive.Sync.Operation.{Operation}
use servidor_drive.Sync.Store.{
  UserState, Outcome, store, outcome, put_user, stored, replay, conflict, stale, against, decide,
  apply_outcome,
}
use servidor_drive.Sync.Store.Records.{objects-store}

module _ (c : Collation) where
  -- The requests of one user, in the order in which the queue runs them.
  unfoldable pub puts : List Operation → UserState → UserState
  unfolding put_user
  puts [] u = u
  puts (input ∷ rest) u = puts rest (put_user c input u).1

  abbrev pub Later : Operation → Operation → Type 0
  Later old new =
      (new ≡ old) ⊎ (compare_revisions c (some old.revision) (some new.revision) ≡ Ordering.lt)

  abbrev pub Grown : String → Operation → UserState → Type 0
  Grown k old u = (new : Operation) × (get k u.objects ≡ some new) × Later old new

  against_advances :
      (input old rec : Operation) (base : Option Revision)
      → against c input old base ≡ stored rec
      → compare_revisions c (some old.revision) (some input.revision) ≡ Ordering.lt
  unfolding against
  against_advances input old rec none h = cc
  against_advances input old rec (some base) h =
      ground (arith, compare_revisions_swapped c (some input.revision) (some old.revision))

  outcome_advances :
      (input old rec : Operation) (u : UserState)
      → get input.object_id u.objects ≡ some old
      → outcome c input u ≡ stored rec
      → compare_revisions c (some old.revision) (some input.revision) ≡ Ordering.lt
  unfolding outcome decide read
  outcome_advances input old rec u e h =
      ground (arith, against_advances input old rec input.base_revision)

  accepted-Grown :
      (input old rec : Operation) (k : String) (u : UserState)
      → get k u.objects ≡ some old
      → outcome c input u ≡ stored rec
      → Grown k old (store input u)
  accepted-Grown input old rec k u e h = elim (Bool-cases (input.object_id === k)) [
    | inl t ↦
        let same : input.object_id ≡ k = (eq_iff input.object_id k).0 t in
        (input, rw objects-store (rw t), inr (outcome_advances input old rec u (rw same e) h))
    | inr f ↦ (old, rw objects-store (rw f e), inl refl)
  ]

  answered-Grown :
      (answer : Outcome) (input old : Operation) (k : String) (u : UserState)
      → get k u.objects ≡ some old
      → outcome c input u ≡ answer
      → Grown k old (apply_outcome c answer input u)
  answered-Grown replay input old k u e h = (old, e, inl refl)
  answered-Grown (conflict _) input old k u e h = (old, e, inl refl)
  answered-Grown (stale _) input old k u e h = (old, e, inl refl)
  answered-Grown (stored rec) input old k u e h = accepted-Grown input old rec k u e h

  put_user-Grown :
      (input old : Operation) (k : String) (u : UserState)
      → get k u.objects ≡ some old
      → Grown k old (put_user c input u).1
  unfolding put_user
  put_user-Grown input old k u e = answered-Grown (outcome c input u) input old k u e refl

  Later-trans : (a b d : Operation) → Later a b → Later b d → Later a d
  Later-trans a b d (inl p) k = rw (← p) k
  Later-trans a b d (inr h) (inl q) = inr (rw q h)
  Later-trans a b d (inr h) (inr k) =
      inr (compare_revisions_lt_trans c (some a.revision) (some b.revision) (some d.revision) h k)

  -- After any sequence of requests an object that was there is still there, and its record is the
  -- same one or has a later revision.
  pub puts-Grown :
      (requests : List Operation) (k : String) (old : Operation) (u : UserState)
      → get k u.objects ≡ some old
      → Grown k old (puts requests u)
  unfolding puts
  puts-Grown [] k old u e = (old, e, inl refl)
  puts-Grown (input ∷ rest) k old u e =
      let (mid, here, first) = put_user-Grown input old k u e in
      let (new, there, second) = puts-Grown rest k mid (put_user c input u).1 here in
      (new, there, Later-trans old mid new first second)
