-- ===== src/Sync/Revision.antt =====
-- Revisions and their order: `compareRevisions` and `nextRevision` of
-- sync-client/rootark-sync-protocol.js.
use servidor_drive.Prelude.{ℕ, ◌+◌, String, ◌≡◌, refl, Option, none, some, Ordering, arith, max}
use Prim.Native.Nat.{compare}

-- What the program relies on of `String.prototype.localeCompare`: a collation is a total preorder.
abbrev pub flip : Ordering → Ordering
flip Ordering.lt = Ordering.gt
flip Ordering.eq = Ordering.eq
flip Ordering.gt = Ordering.lt

pub record Collation : Type 0 where
  pub locale_compare : String → String → Ordering
  pub same : (a : String) → locale_compare a a ≡ Ordering.eq
  pub swapped : (a b : String) → locale_compare b a ≡ flip (locale_compare a b)
  pub lt_trans :
      (a b c : String)
      → locale_compare a b ≡ Ordering.lt
      → locale_compare b c ≡ Ordering.lt
      → locale_compare a c ≡ Ordering.lt
  pub eq_left :
      (a b c : String) → locale_compare a b ≡ Ordering.eq → locale_compare a c ≡ locale_compare b c

pub record Revision : Type 0 where
  pub counter : ℕ
  pub device_id : String

-- `a || b` on the results of comparisons
abbrev pub then_by : Ordering → Ordering → Ordering
then_by Ordering.eq next = next
then_by o next = o

module _ (c : Collation) where
  unfoldable pub compare_set : Revision → Revision → Ordering
  compare_set left right =
      then_by (compare left.counter right.counter) (c.locale_compare left.device_id right.device_id)

  unfoldable pub compare_revisions : Option Revision → Option Revision → Ordering
  unfolding compare_set
  compare_revisions none none = Ordering.eq
  compare_revisions none (some right) = Ordering.lt
  compare_revisions (some left) none = Ordering.gt
  compare_revisions (some left) (some right) = compare_set left right

  pub compare_revisions_same : (r : Option Revision) → compare_revisions r r ≡ Ordering.eq
  unfolding compare_revisions
  compare_revisions_same none = refl
  compare_revisions_same (some r) = ground (arith, c.same r.device_id)

  pub compare_revisions_swapped :
      (a b : Option Revision) → compare_revisions b a ≡ flip (compare_revisions a b)
  unfolding compare_revisions
  compare_revisions_swapped none none = refl
  compare_revisions_swapped none (some b) = refl
  compare_revisions_swapped (some a) none = refl
  compare_revisions_swapped (some a) (some b) = ground (arith, c.swapped a.device_id b.device_id)

  pub compare_revisions_lt_trans :
      (a b d : Option Revision)
      → compare_revisions a b ≡ Ordering.lt
      → compare_revisions b d ≡ Ordering.lt
      → compare_revisions a d ≡ Ordering.lt
  unfolding compare_revisions
  compare_revisions_lt_trans none none d h k = k
  compare_revisions_lt_trans none (some b) none h k = cc
  compare_revisions_lt_trans none (some b) (some d) h k = refl
  compare_revisions_lt_trans (some a) none d h k = cc
  compare_revisions_lt_trans (some a) (some b) none h k = cc
  compare_revisions_lt_trans (some a) (some b) (some d) h k =
      ground (arith, c.lt_trans a.device_id b.device_id d.device_id)

-- `nextRevision`: one past the counter that is known, zero where there is none.
abbrev counter_or_zero : Option Revision → ℕ
counter_or_zero none = 0
counter_or_zero (some r) = r.counter

unfoldable pub next_revision : Option Revision → String → Revision
next_revision current device = record {
  counter = max 0 (counter_or_zero current) + 1;
  device_id = device;
}

-- The next revision of an object comes after the current one, whatever device makes it.
pub compare_revisions-next_revision :
    (c : Collation) (current : Option Revision) (device : String)
    → compare_revisions c current (some (next_revision current device)) ≡ Ordering.lt
unfolding compare_revisions next_revision
compare_revisions-next_revision c none device = refl
compare_revisions-next_revision c (some r) device = ground arith
