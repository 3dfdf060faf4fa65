-- ===== src/Sync/Json/Lookup.antt =====
-- What a name reads after the changes of an object, and which names an object has.
use servidor_drive.Prelude.{
  ◌≡◌, refl, ◌∙◌, true, false, Option, none, some, List, [], ◌∷◌, if◌then◌else◌, Text, text_eq,
  text_in, text_eq_refl, eq_of_text_eq, arith,
}
use servidor_drive.Sync.Json.{
  Json, Fields, end, field, get, put, has_exact_keys, text_lt, key_lt, insert_sorted, canonicalize,
  canonical_fields,
}

abbrev pub map_json : (Json → Json) → Option Json → Option Json
map_json f none = none
map_json f (some v) = some (f v)

text_lt_irrefl : (t : Text) → text_lt t t ≡ false
unfolding text_lt
text_lt_irrefl [] = refl
text_lt_irrefl (c ∷ cs) = ground (arith, text_lt_irrefl cs)

key_lt_irrefl : (t : Text) → key_lt t t ≡ false
unfolding key_lt
key_lt_irrefl t = ground (arith, text_lt_irrefl t)

module _ (k j : Text) (v : Json) where
  pub get-put : (fs : Fields) → get j (put k v fs) ≡ (if text_eq k j then some v else get j fs)
  unfolding get put
  get-put end = ground arith
  get-put (field i w fs) =
      ground
        (arith, get-put fs, eq_of_text_eq i k, eq_of_text_eq i j, eq_of_text_eq k j, text_eq_refl j)

  pub get-insert_sorted :
      (fs : Fields) → get j (insert_sorted k v fs) ≡ (if text_eq k j then some v else get j fs)
  unfolding get insert_sorted
  get-insert_sorted end = ground arith
  get-insert_sorted (field i w fs) =
      ground (arith, get-insert_sorted fs, key_lt_irrefl k, eq_of_text_eq i j, eq_of_text_eq k j)

pub get-canonical_fields :
    (j : Text) (fs : Fields) → get j (canonical_fields fs) ≡ map_json canonicalize (get j fs)
unfolding get canonical_fields
get-canonical_fields j end = refl
get-canonical_fields j (field k v fs) =
    get-insert_sorted k j (canonicalize v) (canonical_fields fs)
    ∙ ground (arith, get-canonical_fields j fs)

module _ (allowed : List Text) (k : Text) (v : Json) where
  pub has_exact_keys-put :
      (fs : Fields)
      → text_in k allowed ≡ true
      → has_exact_keys allowed fs ≡ true
      → has_exact_keys allowed (put k v fs) ≡ true
  unfolding has_exact_keys put
  has_exact_keys-put end here h = ground arith
  has_exact_keys-put (field i w fs) here h = ground (arith, has_exact_keys-put fs here)

  pub has_exact_keys-insert_sorted :
      (fs : Fields)
      → text_in k allowed ≡ true
      → has_exact_keys allowed fs ≡ true
      → has_exact_keys allowed (insert_sorted k v fs) ≡ true
  unfolding has_exact_keys insert_sorted
  has_exact_keys-insert_sorted end here h = ground arith
  has_exact_keys-insert_sorted (field i w fs) here h =
      ground (arith, has_exact_keys-insert_sorted fs here)

pub has_exact_keys-canonical_fields :
    (allowed : List Text) (fs : Fields)
    → has_exact_keys allowed fs ≡ true
    → has_exact_keys allowed (canonical_fields fs) ≡ true
unfolding has_exact_keys canonical_fields
has_exact_keys-canonical_fields allowed end h = refl
has_exact_keys-canonical_fields allowed (field k v fs) h =
    has_exact_keys-insert_sorted allowed k (canonicalize v) (canonical_fields fs) (ground arith)
      (has_exact_keys-canonical_fields allowed fs (ground arith))
