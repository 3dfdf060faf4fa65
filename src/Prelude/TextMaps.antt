-- ===== src/Prelude/TextMaps.antt =====
-- JavaScript objects used as dictionaries whose names are texts of code points, where the order of the
-- names does not matter. A name that is not there may still be one that every object inherits.
use mathlib.Core.Path.{◌≡◌}
use mathlib.Core.Bool.{Bool, true}
use mathlib.Core.Option.{Option, none, some}
use mathlib.Core.List.{List, [], ◌∷◌, map}
use native.Mathlib.Omega.{arith}
use servidor_drive.Prelude.Tests.{if◌then◌else◌}
use servidor_drive.Prelude.Texts.{codes}
use servidor_drive.Prelude.Chars.{Text, text_eq, text_eq_refl, eq_of_text_eq, text_in}
use servidor_drive.Prelude.Objects.{inherited_names, Slot, absent, foreign, own}

abbrev pub TextMap {ℓ} : Type ℓ → Type ℓ
TextMap V = List (Text × V)

unfoldable pub is_inherited : Text → Bool
is_inherited k = text_in k (map codes inherited_names)

module _ {ℓ} {V : Type ℓ} where
  unfoldable pub lookup : Text → TextMap V → Option V
  lookup k [] = none
  lookup k ((j, v) ∷ m) = if text_eq j k then some v else lookup k m

  -- `object[key]`
  unfoldable pub read_text : Text → TextMap V → Slot V
  unfolding is_inherited lookup
  read_text k m = elim (lookup k m) [
    | some v ↦ own v
    | none ↦ if is_inherited k then foreign else absent
  ]

  -- `object[key] = value`
  unfoldable pub insert : Text → V → TextMap V → TextMap V
  insert k v [] = (k, v) ∷ []
  insert k v ((j, w) ∷ m) = if text_eq j k then (k, v) ∷ m else (j, w) ∷ insert k v m

  -- `delete object[key]`
  unfoldable pub discard : Text → TextMap V → TextMap V
  discard k [] = []
  discard k ((j, w) ∷ m) = let rest = discard k m in if text_eq j k then rest else (j, w) ∷ rest

module _ {ℓ} {V : Type ℓ} (k j : Text) where
  pub lookup-insert :
      (v : V) (m : TextMap V)
      → lookup j (insert k v m) ≡ (if text_eq k j then some v else lookup j m)
  unfolding lookup insert
  lookup-insert v [] = ground arith
  lookup-insert v ((i, w) ∷ m) = ground (
    arith,
    lookup-insert v m,
    eq_of_text_eq i k,
    eq_of_text_eq i j,
    eq_of_text_eq k j,
    text_eq_refl j,
    text_eq_refl k,
  )

  pub lookup-discard :
      (m : TextMap V) → lookup j (discard k m) ≡ (if text_eq k j then none else lookup j m)
  unfolding lookup discard
  lookup-discard [] = ground arith
  lookup-discard ((i, w) ∷ m) = ground (
    arith,
    lookup-discard m,
    eq_of_text_eq i k,
    eq_of_text_eq i j,
    eq_of_text_eq k j,
    text_eq_refl j,
    text_eq_refl k,
  )

module _ {ℓ} {V : Type ℓ} where
  pub read_text-own :
      (k : Text) (m : TextMap V) (v : V) → read_text k m ≡ own v → lookup k m ≡ some v
  unfolding read_text
  read_text-own k m v h = ground arith

  -- A foreign value is read by an inherited name that the object itself does not have.
  pub read_text-foreign :
      (k : Text) (m : TextMap V)
      → read_text k m ≡ foreign
      → (lookup k m ≡ none) × (is_inherited k ≡ true)
  unfolding read_text
  read_text-foreign k m h = ground arith
