-- ===== src/Prelude/Objects.antt =====
-- JavaScript objects used as dictionaries: own properties in the order of `Object.keys`, where
-- array indices come first and ascend, and the names that every object inherits.
use Prim.Native.Nat.{ℕ, ◌+◌, ◌-◌, ◌*◌, ◌^◌}
use Prim.Native.String.{String}
use mathlib.Core.Path.{◌≡◌}
use mathlib.Core.Logic.{inl, inr}
use mathlib.Core.Bool.{Bool, ◌&&◌}
use mathlib.Core.Option.{Option, none, some}
use mathlib.Core.List.{List, [], ◌∷◌, ◌++◌}
use native.Mathlib.Omega.{arith}
use text.Mathlib.TextEquality.{eq_iff}
use servidor_drive.Prelude.Tests.{ltb, leb, if◌then◌else◌, ◌==◌, Option-cases}
use servidor_drive.Prelude.Texts.{codes, includes, ◌===◌}

-- The value of a run of decimal digits.
digits_value : ℕ → List ℕ → Option ℕ
digits_value n [] = some n
digits_value n (c ∷ cs) =
    let rest = digits_value (n * 10 + (c - 48)) cs in if leb 48 c && leb c 57 then rest else none

-- A property name that is an array index: a canonical decimal below 2 ^ 32 - 1.
canonical : List ℕ → Option ℕ
unfolding digits_value
canonical [] = none
canonical (c ∷ []) = digits_value 0 (c ∷ [])
canonical (c ∷ d ∷ cs) = if c == 48 then none else digits_value 0 (c ∷ d ∷ cs)

unfoldable pub array_index : String → Option ℕ
unfolding canonical
array_index k = elim (canonical (codes k)) [
  | none ↦ none
  | some n ↦ if ltb n (2 ^ 32 - 1) then some n else none
]

-- The names on `Object.prototype`.
abbrev pub inherited_names : List String
inherited_names =
    "__proto__" ∷ "constructor" ∷ "toString" ∷ "toLocaleString" ∷ "valueOf" ∷ "hasOwnProperty"
    ∷ "isPrototypeOf" ∷ "propertyIsEnumerable" ∷ "__defineGetter__" ∷ "__defineSetter__"
    ∷ "__lookupGetter__" ∷ "__lookupSetter__" ∷ []

unfoldable pub inherited : String → Bool
inherited k = includes k inherited_names

-- What `object[key]` reads: nothing, an inherited value, or an own property.
pub data Slot {ℓ} (V : Type ℓ) : Type ℓ where
  absent foreign : Slot V
  own : V → Slot V

abbrev pub Object {ℓ} : Type ℓ → Type ℓ
Object V = List (String × V)

module _ {ℓ} {V : Type ℓ} where
  unfoldable pub get : String → Object V → Option V
  get k [] = none
  get k ((j, v) ∷ o) = if j === k then some v else get k o

  unfoldable pub read : String → Object V → Slot V
  read k o = elim (get k o) [ some v ↦ own v | none ↦ if inherited k then foreign else absent ]

  replace : String → V → Object V → Object V
  replace k v [] = []
  replace k v ((j, w) ∷ o) = if j === k then (k, v) ∷ o else (j, w) ∷ replace k v o

  insert_index : ℕ → String → V → Object V → Object V
  insert_index n k v [] = (k, v) ∷ []
  insert_index n k v ((j, w) ∷ o) =
      let later = (j, w) ∷ insert_index n k v o in
      elim (array_index j) [
        | none ↦ (k, v) ∷ (j, w) ∷ o
        | some m ↦ if ltb m n then later else (k, v) ∷ (j, w) ∷ o
      ]

  insert_new : String → V → Object V → Object V
  unfolding insert_index
  insert_new k v o = elim (array_index k) [
    | none ↦ o ++ (k, v) ∷ []
    | some n ↦ insert_index n k v o
  ]

  -- `object[key] = value`
  unfoldable pub set : String → V → Object V → Object V
  unfolding replace insert_new get
  set k v o = elim (get k o) [ none ↦ insert_new k v o | some w ↦ replace k v o ]

  -- `delete object[key]`
  unfoldable pub remove : String → Object V → Object V
  remove k [] = []
  remove k ((j, w) ∷ o) = let rest = remove k o in if j === k then rest else (j, w) ∷ rest

  abbrev pub keys : Object V → List String
  keys [] = []
  keys ((k, v) ∷ o) = k ∷ keys o

module _ {ℓ} {V : Type ℓ} (k j : String) (v : V) where
  get-replace :
      (o : Object V) (w : V)
      → get k o ≡ some w
      → get j (replace k v o) ≡ (if k === j then some v else get j o)
  unfolding get replace
  get-replace [] w h = ground arith
  get-replace ((i, u) ∷ o) w h = ground (arith, get-replace o w, eq_iff i k, eq_iff i j, eq_iff k j)

  get-append_one :
      (o : Object V)
      → get k o ≡ none
      → get j (o ++ (k, v) ∷ []) ≡ (if k === j then some v else get j o)
  unfolding get
  get-append_one [] h = ground arith
  get-append_one ((i, u) ∷ o) h =
      ground (arith, get-append_one o, eq_iff i k, eq_iff i j, eq_iff k j)

  get-insert_index :
      (n : ℕ) (o : Object V)
      → get k o ≡ none
      → get j (insert_index n k v o) ≡ (if k === j then some v else get j o)
  unfolding get insert_index
  get-insert_index n [] h = ground arith
  get-insert_index n ((i, u) ∷ o) h =
      ground (arith, get-insert_index n o, eq_iff i k, eq_iff i j, eq_iff k j)

  get-insert_new :
      (o : Object V)
      → get k o ≡ none
      → get j (insert_new k v o) ≡ (if k === j then some v else get j o)
  unfolding insert_new
  get-insert_new o h = elim (Option-cases (array_index k)) [
    | inl e ↦ rw (e, insert_new) (get-append_one o h)
    | inr (n, e) ↦ rw (e, insert_new) (get-insert_index n o h)
  ]

  pub get-set : (o : Object V) → get j (set k v o) ≡ (if k === j then some v else get j o)
  unfolding set
  get-set o = elim (Option-cases (get k o)) [
    | inl e ↦ rw (e, set) (get-insert_new o e)
    | inr (w, e) ↦ rw (e, set) (get-replace o w e)
  ]

module _ {ℓ} {V : Type ℓ} (k j : String) where
  pub get-remove : (o : Object V) → get j (remove k o) ≡ (if k === j then none else get j o)
  unfolding get remove
  get-remove [] = ground arith
  get-remove ((i, u) ∷ o) = ground (arith, get-remove o, eq_iff i k, eq_iff i j, eq_iff k j)
