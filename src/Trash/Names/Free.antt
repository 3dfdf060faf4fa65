-- ===== src/Trash/Names/Free.antt =====
-- getAvailableRestoreName finds a name that is not taken: its loop ends within one round more than the
-- directory has names.
use servidor_drive.Prelude.{
  ℕ, zero, suc, ◌+◌, ◌^◌, ◌≡◌, ◌≢◌, ◌≤◌, ◌<◌, refl, sym, ap, ◌∙◌, true, false, Option, some, List,
  [], ◌∷◌, ◌++◌, length, ltb, if◌then◌else◌, Text, text_eq, text_in, eq_of_text_eq, codes, arith,
  Bool-cases, inl, inr,
}
use servidor_drive.Prelude.Decimal.{decimal_injective}
use servidor_drive.Trash.Names.{
  safe_name, parse_name, numbered, restored_candidate, exists, target_of, entry, available_from,
  get_available_restore_name,
}

cancel_left : (s t u : Text) → s ++ t ≡ s ++ u → t ≡ u
cancel_left [] t u e = e
cancel_left (c ∷ s) t u e = cancel_left s t u (cc)

length-add : (s t : Text) → length (s ++ t) ≡ length s + length t
length-add [] t = omega arith
length-add (c ∷ s) t = omega (arith, length-add s t)

-- Two texts before the same end are equal.
cancel_right : (s t u : Text) → s ++ u ≡ t ++ u → s ≡ t
cancel_right [] [] u e = refl
cancel_right [] (d ∷ t) u e = absurd (omega (arith, ap length e, length-add t u))
cancel_right (c ∷ s) [] u e = absurd (omega (arith, ap length e, length-add s u))
cancel_right (c ∷ s) (d ∷ t) u e = ground (arith, cancel_right s t u (cc))

le_of_not_ltb : (a b : ℕ) → ltb a b ≡ false → b ≤ a
le_of_not_ltb a b h = ground arith

numbered_injective :
    (i j : ℕ) → 1 ≤ i → 1 ≤ j → i < 10 ^ 16 → j < 10 ^ 16 → numbered i ≡ numbered j → i ≡ j
unfolding numbered
numbered_injective i j li lj hi hj e = elim (Bool-cases (ltb 1 i)) [
  | inl s ↦ elim (Bool-cases (ltb 1 j)) [
    | inl t ↦ decimal_injective i j hi hj (cc (rw (s, t) at e))
    | inr t ↦ absurd (cc (rw (s, t) at e))
  ]
  | inr s ↦ elim (Bool-cases (ltb 1 j)) [
    | inl t ↦ absurd (cc (rw (s, t) at e))
    | inr t ↦ omega (arith, le_of_not_ltb 1 i s, le_of_not_ltb 1 j t)
  ]
]

restored_candidate_injective :
    (name : Text) (i j : ℕ)
    → 1 ≤ i
    → 1 ≤ j
    → i < 10 ^ 16
    → j < 10 ^ 16
    → restored_candidate name i ≡ restored_candidate name j
    → i ≡ j
unfolding restored_candidate
restored_candidate_injective name i j li lj hi hj e =
    let (stem, ext) = parse_name name in
    let tail = cancel_left stem _ _ e in
    let inner = cancel_left (codes " (restored") _ _ tail in
    numbered_injective i j li lj hi hj (cancel_right (numbered i) (numbered j) (b')' ∷ ext) inner)

target_of-long : (t : Text) → 3 ≤ length t → target_of t ≡ entry t
unfolding target_of text_eq
target_of-long [] h = absurd (omega (arith, h))
target_of-long (c ∷ []) h = absurd (omega (arith, h))
target_of-long (c ∷ d ∷ []) h = absurd (omega (arith, h))
target_of-long (c ∷ d ∷ e ∷ t) h = ground arith

restored_candidate-long : (name : Text) (i : ℕ) → 3 ≤ length (restored_candidate name i)
unfolding restored_candidate
restored_candidate-long name i =
    let (stem, ext) = parse_name name in
    let rest = numbered i ++ (b')' ∷ ext) in
    omega
      (arith, length-add stem (codes " (restored" ++ rest), length-add (codes " (restored") rest)

exists-candidate :
    (name : Text) (i : ℕ) (names : List Text)
    → exists (restored_candidate name i) names ≡ text_in (restored_candidate name i) names
unfolding exists
exists-candidate name i names =
    rw (target_of-long (restored_candidate name i) (restored_candidate-long name i), exists)

without : Text → List Text → List Text
without c [] = []
without c (x ∷ xs) = let rest = without c xs in if text_eq x c then rest else x ∷ rest

length-without-le : (c : Text) (l : List Text) → length (without c l) ≤ length l
unfolding without
length-without-le c [] = omega arith
length-without-le c (x ∷ xs) = ground (arith, length-without-le c xs)

length-without : (c : Text) (l : List Text) → text_in c l ≡ true → length (without c l) < length l
unfolding without
length-without c [] h = absurd (cc)
length-without c (x ∷ xs) h = ground (arith, length-without c xs, length-without-le c xs)

text_in-without :
    (c d : Text) (l : List Text) → c ≢ d → text_in d l ≡ true → text_in d (without c l) ≡ true
unfolding without
text_in-without c d [] n h = absurd (cc)
text_in-without c d (x ∷ xs) n h =
    ground (arith, text_in-without c d xs, eq_of_text_eq x c, eq_of_text_eq x d)

-- The numbered names that are taken are among those that are left.
abbrev Covers : Text → ℕ → List Text → List Text → Type 0
Covers name i names left =
    (j : ℕ)
    → i ≤ j
    → j < 10 ^ 16
    → text_in (restored_candidate name j) names ≡ true
    → text_in (restored_candidate name j) left ≡ true

Covers-without :
    (name : Text) (i : ℕ) (names left : List Text)
    → 1 ≤ i
    → i < 10 ^ 16
    → Covers name i names left
    → Covers name (i + 1) names (without (restored_candidate name i) left)
Covers-without name i names left li hi covers j lj hj taken =
    text_in-without (restored_candidate name i) (restored_candidate name j) left
      (λ same. omega (arith, restored_candidate_injective name i j li (omega arith) hi hj same))
      (covers j (omega arith) hj taken)

-- A name that is found and not taken.
abbrev pub Free : List Text → Option Text → Type 0
Free names found = (c : Text) × (found ≡ some c) × (exists c names ≡ false)

available_from-Free :
    (fuel : ℕ) (names left : List Text) (name : Text) (i : ℕ)
    → 1 ≤ i
    → i + length left < 10 ^ 16
    → length left < fuel
    → Covers name i names left
    → Free names (available_from fuel names name (i + 1) (restored_candidate name i))
unfolding available_from
available_from-Free zero names left name i li hi h covers = absurd (omega (arith, h))
available_from-Free (suc fuel) names left name i li hi h covers =
    let c = restored_candidate name i in
    elim (Bool-cases (exists c names)) [
      | inr f ↦ (c, rw f, f)
      | inl t ↦
          let here : text_in c left ≡ true =
            covers i (omega arith) (omega (arith, hi)) (sym (exists-candidate name i names) ∙ t) in
          let shorter = length-without c left here in
          let (d, found, free) =
            available_from-Free fuel names (without c left) name (i + 1) (omega arith)
              (omega (arith, hi, shorter)) (omega (arith, h, shorter))
              (Covers-without name i names left li (omega (arith, hi)) covers) in
          (d, rw t found, free)
    ]

first_round :
    (fuel : ℕ) (names : List Text) (name : Text)
    → length names + 1 < 10 ^ 16
    → length names < fuel
    → Free names (available_from (suc fuel) names name 1 name)
unfolding available_from
first_round fuel names name hi h = elim (Bool-cases (exists name names)) [
  | inr f ↦ (name, rw f, f)
  | inl t ↦
      let (c, found, free) =
        available_from-Free fuel names names name 1 (omega arith) (omega (arith, hi)) h
          (λ j l k taken. taken) in
      (c, rw t found, free)
]

-- For a directory of fewer than 10 ^ 15 names the loop always ends, with a name that no entry has.
pub get_available_restore_name-Free :
    (names : List Text) (original : Text)
    → length names < 10 ^ 15
    → Free names (get_available_restore_name names original)
unfolding get_available_restore_name
get_available_restore_name-Free names original h =
    let rounds : length names + 2 ≡ suc (length names + 1) = omega arith in
    let (c, found, free) =
      first_round (length names + 1) names (safe_name original) (omega (arith, h)) (omega arith) in
    (c, rw rounds found, free)
