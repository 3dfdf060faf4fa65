-- ===== src/Sync/Collations.antt =====
-- A collation that meets the assumptions on `localeCompare`: the order of code points.
use servidor_drive.Prelude.{ℕ, ◌≡◌, refl, List, [], ◌∷◌, Ordering, arith, codes}
use Prim.Native.Nat.{compare}
use servidor_drive.Sync.Revision.{Collation, then_by, flip}

pub lex : List ℕ → List ℕ → Ordering
lex [] [] = Ordering.eq
lex [] (d ∷ ds) = Ordering.lt
lex (c ∷ cs) [] = Ordering.gt
lex (c ∷ cs) (d ∷ ds) = then_by (compare c d) (lex cs ds)

pub lex_same : (a : List ℕ) → lex a a ≡ Ordering.eq
unfolding lex
lex_same [] = refl
lex_same (c ∷ cs) = ground (arith, lex_same cs)

pub lex_swapped : (a b : List ℕ) → lex b a ≡ flip (lex a b)
unfolding lex
lex_swapped [] [] = refl
lex_swapped [] (d ∷ ds) = refl
lex_swapped (c ∷ cs) [] = refl
lex_swapped (c ∷ cs) (d ∷ ds) = ground (arith, lex_swapped cs ds)

pub lex_lt_trans :
    (a b c : List ℕ) → lex a b ≡ Ordering.lt → lex b c ≡ Ordering.lt → lex a c ≡ Ordering.lt
unfolding lex
lex_lt_trans [] [] c h k = cc
lex_lt_trans [] (y ∷ b) [] h k = cc
lex_lt_trans [] (y ∷ b) (z ∷ c) h k = refl
lex_lt_trans (x ∷ a) [] c h k = cc
lex_lt_trans (x ∷ a) (y ∷ b) [] h k = cc
lex_lt_trans (x ∷ a) (y ∷ b) (z ∷ c) h k = ground (arith, lex_lt_trans a b c)

pub lex_eq_left : (a b c : List ℕ) → lex a b ≡ Ordering.eq → lex a c ≡ lex b c
unfolding lex
lex_eq_left [] [] c h = refl
lex_eq_left [] (y ∷ b) c h = cc
lex_eq_left (x ∷ a) [] c h = cc
lex_eq_left (x ∷ a) (y ∷ b) [] h = refl
lex_eq_left (x ∷ a) (y ∷ b) (z ∷ c) h = ground (arith, lex_eq_left a b c)

unfoldable pub code_point_order : Collation
unfolding lex
code_point_order = record {
  locale_compare = λ a b. lex (codes a) (codes b);
  same = λ a. lex_same (codes a);
  swapped = λ a b. lex_swapped (codes a) (codes b);
  lt_trans = λ a b c. lex_lt_trans (codes a) (codes b) (codes c);
  eq_left = λ a b c. lex_eq_left (codes a) (codes b) (codes c);
}
