-- ===== src/Sync/Journal/Invariant.antt =====
-- The journal's invariant and the operations that keep it.
use servidor_drive.Prelude.{
  ℕ, zero, suc, ◌≤◌, String, ◌≡◌, refl, Bool, false, not, ◌||◌, List, [], ◌∷◌, ◌++◌, any, keep,
  includes, length, drop, length-slice_last, arith, eq_iff, eq_refl, Bool-cases, inl, inr,
  if◌then◌else◌, is_empty,
}
use servidor_drive.Sync.Journal.{
  Item, State, SyncJournal, has_id, bounded, enqueued, marked, replaced, change_first, max_entries,
  commit, enqueue, mark_seen, replace,
}

abbrev pub ids : List Item → List String
ids [] = []
ids (item ∷ items) = item.operation_id ∷ ids items

abbrev pub Distinct : List String → Type 0
Distinct [] = Unit
Distinct (k ∷ ks) = (includes k ks ≡ false) × Distinct ks

-- No name of the first list is in the second.
abbrev pub Apart : List String → List String → Type 0
Apart [] seen = Unit
Apart (k ∷ ks) seen = (includes k seen ≡ false) × Apart ks seen

pub record IsWell (s : State) : Type 0 where
  pub distinct : Distinct (ids s.pending)
  pub apart : Apart (ids s.pending) s.seen
  pub pending_bounded : length s.pending ≤ max_entries
  pub seen_bounded : length s.seen ≤ max_entries

includes-append :
    (k : String) (xs ys : List String) → includes k (xs ++ ys) ≡ (includes k xs || includes k ys)
includes-append k [] ys = refl
includes-append k (x ∷ xs) ys = ground (arith, includes-append k xs ys)

includes-drop :
    (n : ℕ) (k : String) (xs : List String) → includes k xs ≡ false → includes k (drop n xs) ≡ false
includes-drop zero k xs h = h
includes-drop (suc n) k [] h = h
includes-drop (suc n) k (x ∷ xs) h = includes-drop n k xs (ground arith)

ids-drop : (n : ℕ) (items : List Item) → ids (drop n items) ≡ drop n (ids items)
ids-drop zero items = refl
ids-drop (suc n) [] = refl
ids-drop (suc n) (item ∷ items) = ids-drop n items

Distinct-drop : (n : ℕ) (ks : List String) → Distinct ks → Distinct (drop n ks)
Distinct-drop zero ks h = h
Distinct-drop (suc n) [] h = h
Distinct-drop (suc n) (k ∷ ks) h = Distinct-drop n ks h.1

Apart-drop : (n : ℕ) (ks seen : List String) → Apart ks seen → Apart (drop n ks) seen
Apart-drop zero ks seen h = h
Apart-drop (suc n) [] seen h = h
Apart-drop (suc n) (k ∷ ks) seen h = Apart-drop n ks seen h.1

Apart-drop_seen : (n : ℕ) (ks seen : List String) → Apart ks seen → Apart ks (drop n seen)
Apart-drop_seen n [] seen h = tt
Apart-drop_seen n (k ∷ ks) seen h = (includes-drop n k seen h.0, Apart-drop_seen n ks seen h.1)

-- What a mutator has to establish: the cuts of `commit` bring the bounds.
pub bounded-IsWell :
    (s : State) → Distinct (ids s.pending) → Apart (ids s.pending) s.seen → IsWell (bounded s)
unfolding bounded
bounded-IsWell s d a = record {
  distinct = rw ids-drop (Distinct-drop _ _ d);
  apart = rw ids-drop (Apart-drop_seen _ _ _ (Apart-drop _ _ _ a));
  pending_bounded = omega (arith, length-slice_last max_entries s.pending);
  seen_bounded = omega (arith, length-slice_last max_entries s.seen);
}

any-has_id : (k : String) (items : List Item) → any (has_id k) items ≡ includes k (ids items)
any-has_id k [] = refl
any-has_id k (item ∷ items) = ground (arith, any-has_id k items)

ids-append : (xs ys : List Item) → ids (xs ++ ys) ≡ ids xs ++ ids ys
ids-append [] ys = refl
ids-append (x ∷ xs) ys = rw (ids-append xs ys)

Distinct-append_one :
    (ks : List String) (k : String) → Distinct ks → includes k ks ≡ false → Distinct (ks ++ k ∷ [])
Distinct-append_one [] k d h = (refl, tt)
Distinct-append_one (j ∷ ks) k d h = (
  ground (arith, includes-append j ks (k ∷ []), eq_iff k j, eq_iff j k, eq_refl j),
  Distinct-append_one ks k d.1 (ground arith),
)

Apart-append_one :
    (ks seen : List String) (k : String)
    → Apart ks seen
    → includes k seen ≡ false
    → Apart (ks ++ k ∷ []) seen
Apart-append_one [] seen k a h = (h, tt)
Apart-append_one (j ∷ ks) seen k a h = (a.0, Apart-append_one ks seen k a.1 h)

pub enqueued-IsWell :
    (operation : Item) (s : State) → IsWell s → IsWell (bounded (enqueued operation s))
unfolding enqueued
enqueued-IsWell operation s w =
    elim (Bool-cases
      (includes operation.operation_id s.seen || any (has_id operation.operation_id) s.pending)) [
        | inl old ↦ rw old (bounded-IsWell s w.distinct w.apart)
        | inr new ↦
            let k : String = operation.operation_id in
            rw new (
              bounded-IsWell (record s { pending = s.pending ++ operation ∷ [] })
                (rw ids-append (
                  Distinct-append_one (ids s.pending) k w.distinct
                    (ground (arith, any-has_id k s.pending))))
                (rw ids-append (Apart-append_one (ids s.pending) s.seen k w.apart (ground arith))))
      ]

module _ (k : String) where
  abbrev others : List Item → List Item
  others = keep (λ item. not (has_id k item))

  includes-others :
      (j : String) (items : List Item)
      → includes j (ids items) ≡ false
      → includes j (ids (others items)) ≡ false
  includes-others j [] h = refl
  includes-others j (item ∷ items) h = ground (arith, includes-others j items)

  Distinct-others : (items : List Item) → Distinct (ids items) → Distinct (ids (others items))
  Distinct-others [] d = tt
  Distinct-others (item ∷ items) d =
      ground (arith, Distinct-others items d.1, includes-others item.operation_id items d.0)

  Apart-others :
      (items : List Item) (seen : List String)
      → Apart (ids items) seen
      → Apart (ids (others items)) (if includes k seen then seen else seen ++ k ∷ [])
  Apart-others [] seen a = tt
  Apart-others (item ∷ items) seen a = ground (
    arith,
    Apart-others items seen a.1,
    includes-append item.operation_id seen (k ∷ []),
    eq_iff k item.operation_id,
    eq_iff item.operation_id k,
  )

pub marked-IsWell :
    (operation_id : String) (s : State) → IsWell s → IsWell (bounded (marked operation_id s))
unfolding marked
marked-IsWell k s w =
    bounded-IsWell _ (Distinct-others k s.pending w.distinct)
      (Apart-others k s.pending s.seen w.apart)

ids-change_first :
    (k : String) (item : Item) (items : List Item)
    → item.operation_id ≡ k
    → ids (change_first k (λ _. item) items) ≡ ids items
unfolding change_first
ids-change_first k item [] h = refl
ids-change_first k item (i ∷ items) h =
    ground (arith, ids-change_first k item items, eq_iff i.operation_id k)

pub replaced-IsWell :
    (replacement : Item) (s : State)
    → IsWell s
    → IsWell (bounded (replaced replacement.operation_id replacement s))
unfolding replaced
replaced-IsWell item s w =
    let e : ids (change_first item.operation_id (λ _. item) s.pending) ≡ ids s.pending =
      ids-change_first item.operation_id item s.pending refl in
    bounded-IsWell _ (rw e w.distinct) (rw e w.apart)

-- The requests that the client makes of its journal, each with the success of its write.
pub data JournalCall : Type 0 where
  enqueue_call : Bool → Item → JournalCall
  mark_seen_call : Bool → String → JournalCall
  replace_call : Bool → Item → JournalCall

unfoldable pub call : JournalCall → SyncJournal → SyncJournal
unfolding enqueue mark_seen replace
call (enqueue_call written operation) j = (enqueue written operation j).1
call (mark_seen_call written operation_id) j = (mark_seen written operation_id j).1
call (replace_call written item) j = (replace written item.operation_id item j).1

unfoldable pub calls : List JournalCall → SyncJournal → SyncJournal
calls [] j = j
calls (r ∷ rest) j = calls rest (call r j)

commit-IsWell :
    (written : Bool) (next : State) (j : SyncJournal)
    → IsWell j.state
    → IsWell (bounded next)
    → IsWell (commit written next j.state j).1.state
unfolding commit
commit-IsWell written next j w n = elim (Bool-cases j.rejected) [
  | inl r ↦ simp r w
  | inr r ↦ elim (Bool-cases written) [ inl t ↦ simp (r, t) n | inr f ↦ simp (r, f) w ]
]

call-IsWell : (r : JournalCall) (j : SyncJournal) → IsWell j.state → IsWell (call r j).state
unfolding call
call-IsWell (enqueue_call written operation) j w =
    elim (Bool-cases (is_empty operation.operation_id)) [
      | inl e ↦ rw (e, call, enqueue) w
      | inr e ↦
          rw (e, call, enqueue)
            (commit-IsWell written (enqueued operation j.state) j w
              (enqueued-IsWell operation j.state w))
    ]
call-IsWell (mark_seen_call written k) j w =
    commit-IsWell written (marked k j.state) j w (marked-IsWell k j.state w)
call-IsWell (replace_call written item) j w =
    commit-IsWell written (replaced item.operation_id item j.state) j w
      (replaced-IsWell item j.state w)

-- Whatever is enqueued, marked or replaced under its own name, and whichever writes fail: no name
-- is pending twice, none is both pending and seen, and both lists stay within their bound.
pub calls-IsWell :
    (requests : List JournalCall) (j : SyncJournal)
    → IsWell j.state
    → IsWell (calls requests j).state
unfolding calls
calls-IsWell [] j w = w
calls-IsWell (r ∷ rest) j w = calls-IsWell rest (call r j) (call-IsWell r j w)
