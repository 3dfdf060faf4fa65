-- ===== src/Sync/Protocol/Settled.antt =====
-- The values that normalizeMetadata gives are given again.
use mathlib.Core.Path.{subst}
use servidor_drive.Prelude.{
  ℕ, ◌≡◌, refl, sym, ap, ◌∙◌, true, false, Option, none, some, [], ◌∷◌, leb, Text, text_eq, text_in,
  codes, Result, ok, err, >>=-eq-ok, ok_injective, arith, Bool-cases, inl, inr,
}
use servidor_drive.Paths.{validate_portable_relative_path}
use servidor_drive.Paths.Safe.{accepted}
use servidor_drive.Sync.Json.{
  Json, null, boolean, number, other_number, text, array, object, canonicalize, text_or_empty,
  string_of, truthy,
}
use servidor_drive.Sync.Json.Lookup.{map_json}
use servidor_drive.Sync.Protocol.{
  is_label, ProtocolError, metadata_value, id, is_id, safe_integer, or_invalid, path_keys,
  label_keys, max_safe_integer,
}
use servidor_drive.Sync.Protocol.Again.{entry, some_value}

-- A text that is accepted is not empty, so it is its own text.
text_or_empty-text : (t : Text) → text_or_empty (text t) ≡ t
unfolding text_or_empty truthy string_of
text_or_empty-text [] = refl
text_or_empty-text (c ∷ cs) = refl

pub id-ok : (v : Json) (t : Text) → id v ≡ ok t → is_id t ≡ true
unfolding id
id-ok v t h = elim (Bool-cases (is_id (text_or_empty v))) [
  | inl y ↦ ap is_id (sym (ok_injective (rw y at h))) ∙ y
  | inr n ↦ absurd (cc (rw n at h))
]

pub id_again : (t : Text) → is_id t ≡ true → id (text t) ≡ ok t
unfolding id
id_again t h = rw (text_or_empty-text t, h) refl

accepted_again :
    (p q : Text)
    → validate_portable_relative_path p ≡ some q
    → validate_portable_relative_path q ≡ some q
accepted_again p q h =
    subst (λ (t : Text). validate_portable_relative_path t ≡ some q) (accepted p q h).0 h

abbrev IsSettled : Text → Json → Type 0
IsSettled k r = (canonicalize r ≡ r) × (entry k (some r) ≡ ok (some r))

safe_integer-bound :
    (v : Json) (n : ℕ) → or_invalid (safe_integer (some v)) ≡ ok n → leb n max_safe_integer ≡ true
safe_integer-bound (number m) n h = ground arith
safe_integer-bound null n h = cc
safe_integer-bound (boolean b) n h = cc
safe_integer-bound (other_number t) n h = cc
safe_integer-bound (text t) n h = cc
safe_integer-bound (array xs) n h = cc
safe_integer-bound (object fs) n h = cc

same-IsSettled :
    (k : Text) (r s : Json)
    → Path (Result ProtocolError Json) (ok s) (ok r)
    → IsSettled k s
    → IsSettled k r
same-IsSettled k r s e h = subst (IsSettled k) (ok_injective e) h

size-IsSettled :
    (k : Text) (v r : Json)
    → text_eq k (codes "size") ≡ true
    → metadata_value k v ≡ ok r
    → IsSettled k r
unfolding metadata_value entry canonicalize
size-IsSettled k v r y h =
    let (n, e, same) = >>=-eq-ok (or_invalid (safe_integer (some v))) _ (rw y at h) in
    same-IsSettled k r (number n) same (refl, rw (y, safe_integer-bound v n e) refl)

or_invalid-some : (o : Option Text) (p : Text) → or_invalid o ≡ ok p → o ≡ some p
or_invalid-some none p h = cc
or_invalid-some (some q) p h = cc

path-IsSettled :
    (k : Text) (v r : Json)
    → text_eq k (codes "size") ≡ false
    → text_in k path_keys ≡ true
    → metadata_value k v ≡ ok r
    → IsSettled k r
unfolding metadata_value entry canonicalize
path-IsSettled k v r n y h =
    let (p, e, same) =
      >>=-eq-ok (or_invalid (validate_portable_relative_path (text_or_empty v))) _
        (rw (n, y) at h) in
    let again = accepted_again _ p (or_invalid-some _ p e) in
    same-IsSettled k r (text p) same (refl, rw (n, y, text_or_empty-text p, again) refl)

label-IsSettled :
    (k : Text) (v r : Json)
    → text_eq k (codes "size") ≡ false
    → text_in k path_keys ≡ false
    → text_in k label_keys ≡ true
    → metadata_value k v ≡ ok r
    → IsSettled k r
unfolding metadata_value entry canonicalize string_of
label-IsSettled k v r n m y h =
    let h2 = rw (n, m, y) at h in
    elim (Bool-cases (is_label (string_of v))) [
      | inl fits ↦
          same-IsSettled k r (text (string_of v)) (rw fits at h2) (refl, rw (n, m, y, fits) refl)
      | inr bad ↦ absurd (cc (rw bad at h2))
    ]

id-IsSettled :
    (k : Text) (v r : Json)
    → text_eq k (codes "size") ≡ false
    → text_in k path_keys ≡ false
    → text_in k label_keys ≡ false
    → metadata_value k v ≡ ok r
    → IsSettled k r
unfolding metadata_value entry canonicalize
id-IsSettled k v r n m l h =
    let (t, e, same) = >>=-eq-ok (id v) _ (rw (n, m, l) at h) in
    same-IsSettled k r (text t) same (refl, rw (n, m, l, id_again t (id-ok v t e)) refl)

value-IsSettled : (k : Text) (v r : Json) → metadata_value k v ≡ ok r → IsSettled k r
value-IsSettled k v r h = elim (Bool-cases (text_eq k (codes "size"))) [
  | inl y ↦ size-IsSettled k v r y h
  | inr n ↦ elim (Bool-cases (text_in k path_keys)) [
    | inl y ↦ path-IsSettled k v r n y h
    | inr m ↦ elim (Bool-cases (text_in k label_keys)) [
      | inl y ↦ label-IsSettled k v r n m y h
      | inr l ↦ id-IsSettled k v r n m l h
    ]
  ]
]

some_value-ok :
    (m : Result ProtocolError Json) (r : Option Json)
    → some_value m ≡ ok r
    → (v : Json) × (m ≡ ok v) × (Path (Option Json) (some v) r)
some_value-ok (err e) r h = absurd (cc)
some_value-ok (ok v) r h = (v, refl, ok_injective h)

abbrev IsAgain : Text → Option Json → Type 0
IsAgain k r = entry k (map_json canonicalize r) ≡ ok r

some_value_again :
    (k : Text) (v : Json) (r : Option Json)
    → some_value (metadata_value k v) ≡ ok r
    → entry k (map_json canonicalize r) ≡ ok r
some_value_again k v r h =
    let (w, e, same) = some_value-ok (metadata_value k v) r h in
    let (c, again) = value-IsSettled k v w e in subst (IsAgain k) same (rw c again)

none-IsAgain :
    (k : Text) (r : Option Json)
    → Path (Result ProtocolError (Option Json)) (ok none) (ok r)
    → IsAgain k r
unfolding entry
none-IsAgain k r h = subst (IsAgain k) (ok_injective h) refl

-- The entry of a key, made canonical, gives itself.
pub entry_again :
    (k : Text) (o r : Option Json) → entry k o ≡ ok r → entry k (map_json canonicalize r) ≡ ok r
unfolding entry
entry_again k none r h = none-IsAgain k r h
entry_again k (some null) r h = none-IsAgain k r h
entry_again k (some (boolean b)) r h = some_value_again k (boolean b) r h
entry_again k (some (number n)) r h = some_value_again k (number n) r h
entry_again k (some (other_number t)) r h = some_value_again k (other_number t) r h
entry_again k (some (text t)) r h = some_value_again k (text t) r h
entry_again k (some (array xs)) r h = some_value_again k (array xs) r h
entry_again k (some (object fs)) r h = some_value_again k (object fs) r h
