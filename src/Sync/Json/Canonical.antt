-- ===== src/Sync/Json/Canonical.antt =====
-- The canonical form of a value: it is its own, and the order of the fields does not matter.
use servidor_drive.Prelude.{
  ◌≡◌, refl, ap, ◌∙◌, Bool, true, false, not, [], ◌∷◌, Text, text_eq, arith, Bool-cases, inl, inr,
}
use servidor_drive.Sync.Json.{
  Json, null, boolean, number, other_number, text, array, object, Items, nil, item, Fields, end,
  field, text_lt, key_lt, insert_sorted, canonicalize, canonical_items, canonical_fields,
  canonical_json, stringify,
}

-- The order of the names.
text_lt_asym : (s t : Text) → text_lt s t ≡ true → text_lt t s ≡ false
unfolding text_lt
text_lt_asym [] [] h = ground arith
text_lt_asym [] (d ∷ ds) h = refl
text_lt_asym (c ∷ cs) [] h = ground arith
text_lt_asym (c ∷ cs) (d ∷ ds) h = ground (arith, text_lt_asym cs ds)

text_lt_total : (s t : Text) → text_eq s t ≡ false → text_lt s t ≡ false → text_lt t s ≡ true
unfolding text_lt text_eq
text_lt_total [] [] n h = ground arith
text_lt_total [] (d ∷ ds) n h = ground arith
text_lt_total (c ∷ cs) [] n h = refl
text_lt_total (c ∷ cs) (d ∷ ds) n h = ground (arith, text_lt_total cs ds)

text_lt_trans : (s t u : Text) → text_lt s t ≡ true → text_lt t u ≡ true → text_lt s u ≡ true
unfolding text_lt
text_lt_trans [] [] u h k = ground arith
text_lt_trans (c ∷ cs) [] u h k = ground arith
text_lt_trans [] (d ∷ ds) [] h k = k
text_lt_trans [] (d ∷ ds) (e ∷ es) h k = refl
text_lt_trans (c ∷ cs) (d ∷ ds) [] h k = ground arith
text_lt_trans (c ∷ cs) (d ∷ ds) (e ∷ es) h k = ground (arith, text_lt_trans cs ds es)

key_lt_asym : (s t : Text) → key_lt s t ≡ true → key_lt t s ≡ false
unfolding key_lt
key_lt_asym s t h = ground (arith, text_lt_asym s t)

key_lt_total : (s t : Text) → text_eq s t ≡ false → key_lt s t ≡ false → key_lt t s ≡ true
unfolding key_lt
key_lt_total s t n h = ground (arith, text_lt_total s t)

key_lt_trans : (s t u : Text) → key_lt s t ≡ true → key_lt t u ≡ true → key_lt s u ≡ true
unfolding key_lt
key_lt_trans s t u h k = ground (arith, text_lt_trans s t u)

-- Sorted fields, whose values are canonical.
abbrev starts_from : Text → Fields → Bool
starts_from k end = true
starts_from k (field j v fs) = not (key_lt j k)

abbrev IsCanonical : Fields → Type 0
IsCanonical end = Unit
IsCanonical (field k v fs) = (starts_from k fs ≡ true) × (canonicalize v ≡ v) × IsCanonical fs

insert_sorted-starts_from :
    (j k : Text) (v : Json) (fs : Fields)
    → key_lt k j ≡ false
    → starts_from j fs ≡ true
    → starts_from j (insert_sorted k v fs) ≡ true
unfolding insert_sorted
insert_sorted-starts_from j k v end h s = ground arith
insert_sorted-starts_from j k v (field i w fs) h s = ground arith

insert_sorted-IsCanonical :
    (k : Text) (v : Json) (fs : Fields)
    → canonicalize v ≡ v
    → IsCanonical fs
    → IsCanonical (insert_sorted k v fs)
unfolding insert_sorted
insert_sorted-IsCanonical k v end c s = (refl, c, tt)
insert_sorted-IsCanonical k v (field j w fs) c (s, d, rest) = elim (Bool-cases (key_lt j k)) [
  | inl y ↦ rw y (
    insert_sorted-starts_from j k v fs (key_lt_asym j k y) s,
    d,
    insert_sorted-IsCanonical k v fs c rest,
  )
  | inr n ↦ rw n (rw n refl, c, (s, d, rest))
]

-- A sorted object stays as it is, and so do the parts of it.
insert_sorted_first :
    (k : Text) (v : Json) (fs : Fields)
    → starts_from k fs ≡ true
    → insert_sorted k v fs ≡ field k v fs
unfolding insert_sorted
insert_sorted_first k v end h = refl
insert_sorted_first k v (field j w fs) h = ground arith

canonical_fields-same : (fs : Fields) → IsCanonical fs → canonical_fields fs ≡ fs
unfolding canonical_fields
canonical_fields-same end c = refl
canonical_fields-same (field k v fs) (s, c, rest) =
    rw (c, canonical_fields-same fs rest) (insert_sorted_first k v fs s)

mutual
  unfolding canonicalize canonical_items canonical_fields

  canonical_again : (v : Json) → canonicalize (canonicalize v) ≡ canonicalize v
  canonical_again null = refl
  canonical_again (boolean b) = refl
  canonical_again (number n) = refl
  canonical_again (other_number t) = refl
  canonical_again (text t) = refl
  canonical_again (array xs) = ap array (items_again xs)
  canonical_again (object fs) =
      ap object (canonical_fields-same (canonical_fields fs) (canonical_fields-IsCanonical fs))

  items_again : (xs : Items) → canonical_items (canonical_items xs) ≡ canonical_items xs
  items_again nil = refl
  items_again (item x xs) = rw (canonical_again x, items_again xs) refl

  canonical_fields-IsCanonical : (fs : Fields) → IsCanonical (canonical_fields fs)
  canonical_fields-IsCanonical end = tt
  canonical_fields-IsCanonical (field k v fs) =
      insert_sorted-IsCanonical k (canonicalize v) (canonical_fields fs) (canonical_again v)
        (canonical_fields-IsCanonical fs)

-- The canonical form of a value is its own canonical form.
pub canonicalize_idempotent : (v : Json) → canonicalize (canonicalize v) ≡ canonicalize v
canonicalize_idempotent v = canonical_again v

-- Two objects with the same fields in another order.
pub data Reordered : Fields → Fields → Type 0 where
  same : (fs : Fields) → Reordered fs fs
  under :
      {fs gs : Fields} (k : Text) (v : Json)
      → Reordered fs gs
      → Reordered (field k v fs) (field k v gs)
  swapped :
      (j k : Text) (v w : Json) (fs : Fields)
      → text_eq j k ≡ false
      → Reordered (field j v (field k w fs)) (field k w (field j v fs))
  and_then : {fs gs hs : Fields} → Reordered fs gs → Reordered gs hs → Reordered fs hs

insert_sorted-insert_sorted :
    (j k : Text) (v w : Json) (fs : Fields)
    → text_eq j k ≡ false
    → insert_sorted j v (insert_sorted k w fs) ≡ insert_sorted k w (insert_sorted j v fs)
unfolding insert_sorted
insert_sorted-insert_sorted j k v w end n = ground (arith, key_lt_asym j k, key_lt_total j k)
insert_sorted-insert_sorted j k v w (field i u fs) n = ground (
  arith,
  key_lt_asym j k,
  key_lt_total j k,
  key_lt_trans i j k,
  key_lt_trans i k j,
  insert_sorted-insert_sorted j k v w fs,
)

canonical_fields-Reordered :
    (fs gs : Fields) → Reordered fs gs → canonical_fields fs ≡ canonical_fields gs
unfolding canonical_fields
canonical_fields-Reordered _ _ (same fs) = refl
canonical_fields-Reordered _ _ (under k v r) = rw (canonical_fields-Reordered _ _ r) refl
canonical_fields-Reordered _ _ (swapped j k v w fs n) =
    insert_sorted-insert_sorted j k (canonicalize v) (canonicalize w) (canonical_fields fs) n
canonical_fields-Reordered _ _ (and_then r s) =
    canonical_fields-Reordered _ _ r ∙ canonical_fields-Reordered _ _ s

-- The canonical text of an object does not depend on the order of its fields.
pub canonical_json-Reordered :
    (fs gs : Fields) → Reordered fs gs → canonical_json (object fs) ≡ canonical_json (object gs)
unfolding canonical_json canonicalize
canonical_json-Reordered fs gs r =
    ap (λ hs. stringify (object hs)) (canonical_fields-Reordered fs gs r)
