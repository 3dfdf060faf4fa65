-- ===== src/Sync/Protocol/Again.antt =====
-- Metadata that is normalized is normalized to itself.
use mathlib.Core.Path.{subst}
use servidor_drive.Prelude.{
  ◌≡◌, refl, sym, ◌∙◌, true, false, Option, none, some, List, [], ◌∷◌, Text, text_eq, text_in,
  text_eq_refl, eq_of_text_eq, Result, ok, err, ◌>>=◌, ok_injective, arith, Bool-cases, inl, inr,
}
use servidor_drive.Sync.Json.{
  Json, null, boolean, number, other_number, text, array, object, Fields, end, field, get,
}
use servidor_drive.Sync.Protocol.{
  ProtocolError, metadata_value, normalize_key, normalize_keys, add_field,
}

-- What one key gives.
abbrev pub some_value : Result ProtocolError Json → Result ProtocolError (Option Json)
some_value (ok v) = ok (some v)
some_value (err e) = err e

unfoldable pub entry : Text → Option Json → Result ProtocolError (Option Json)
entry k none = ok none
entry k (some null) = ok none
entry k (some v) = some_value (metadata_value k v)

-- The loop by its entries.
abbrev pub put_entry : Text → Option Json → Fields → Fields
put_entry k none fs = fs
put_entry k (some v) fs = field k v fs

normalize_entries : List Text → Fields → Result ProtocolError Fields
normalize_entries [] input = ok end
normalize_entries (k ∷ ks) input = do
  v ← entry k (get k input)
  fs ← normalize_entries ks input
  ok (put_entry k v fs)

abbrev pub with_entry :
    Text
    → Result ProtocolError (Option Json)
    → Result ProtocolError Fields
    → Result ProtocolError Fields
with_entry k e rest = e >>= λ v. rest >>= λ fs. ok (put_entry k v fs)

add_field-entry :
    (k : Text) (r : Result ProtocolError Json) (rest : Result ProtocolError Fields)
    → add_field k r rest ≡ with_entry k (some_value r) rest
add_field-entry k (err e) rest = refl
add_field-entry k (ok v) (err e) = refl
add_field-entry k (ok v) (ok fs) = refl

no_entry : (k : Text) (rest : Result ProtocolError Fields) → rest ≡ with_entry k (ok none) rest
no_entry k (ok fs) = refl
no_entry k (err e) = refl

pub normalize_key-entry :
    (k : Text) (o : Option Json) (rest : Result ProtocolError Fields)
    → normalize_key k o rest ≡ with_entry k (entry k o) rest
unfolding normalize_key entry
normalize_key-entry k none rest = no_entry k rest
normalize_key-entry k (some null) rest = no_entry k rest
normalize_key-entry k (some (boolean b)) rest =
    add_field-entry k (metadata_value k (boolean b)) rest
normalize_key-entry k (some (number n)) rest = add_field-entry k (metadata_value k (number n)) rest
normalize_key-entry k (some (other_number t)) rest =
    add_field-entry k (metadata_value k (other_number t)) rest
normalize_key-entry k (some (text t)) rest = add_field-entry k (metadata_value k (text t)) rest
normalize_key-entry k (some (array xs)) rest = add_field-entry k (metadata_value k (array xs)) rest
normalize_key-entry k (some (object fs)) rest =
    add_field-entry k (metadata_value k (object fs)) rest

-- Two objects that agree on the entries of the keys are normalized alike.
abbrev pub SameOn : List Text → Fields → Fields → Type 0
SameOn ks a b = (k : Text) → text_in k ks ≡ true → entry k (get k a) ≡ entry k (get k b)

text_in-head : (k : Text) (ks : List Text) → text_in k (k ∷ ks) ≡ true
text_in-head k ks = rw (text_eq_refl k)

text_in-tail : (j k : Text) (ks : List Text) → text_in j ks ≡ true → text_in j (k ∷ ks) ≡ true
text_in-tail j k ks h = ground arith

pub normalize_keys-same :
    (ks : List Text) (a b : Fields) → SameOn ks a b → normalize_keys ks a ≡ normalize_keys ks b
unfolding normalize_keys
normalize_keys-same [] a b same = refl
normalize_keys-same (k ∷ ks) a b same =
    let rest = normalize_keys-same ks a b (λ j h. same j (text_in-tail j k ks h)) in
    normalize_key-entry k (get k a) (normalize_keys ks a)
    ∙ rw (same k (text_in-head k ks), rest)
        (sym (normalize_key-entry k (get k b) (normalize_keys ks b)))

-- What the keys read in the result.
abbrev pub Reads : List Text → Fields → Fields → Type 0
Reads ks input out =
    (k : Text)
    → (text_in k ks ≡ true → entry k (get k input) ≡ ok (get k out))
      × (text_in k ks ≡ false → get k out ≡ none)

pub with_entry-ok :
    (k : Text) (e : Result ProtocolError (Option Json)) (rest : Result ProtocolError Fields)
    (out : Fields)
    → with_entry k e rest ≡ ok out
    → (v : Option Json) × (fs : Fields) × (e ≡ ok v) × (rest ≡ ok fs) × (out ≡ put_entry k v fs)
with_entry-ok k (err x) rest out h = absurd (cc)
with_entry-ok k (ok v) (err x) out h = absurd (cc)
with_entry-ok k (ok v) (ok fs) out h = (v, fs, refl, refl, sym (ok_injective h))

get-put_entry :
    (k j : Text) (v : Option Json) (fs : Fields)
    → text_eq k j ≡ false
    → get j (put_entry k v fs) ≡ get j fs
unfolding get
get-put_entry k j none fs h = refl
get-put_entry k j (some v) fs h = rw h

get-put_entry_own :
    (k : Text) (v : Option Json) (fs : Fields)
    → (v ≡ none → get k fs ≡ none)
    → get k (put_entry k v fs) ≡ v
unfolding get
get-put_entry_own k none fs h = h refl
get-put_entry_own k (some v) fs h = rw (text_eq_refl k)

abbrev ReadsAt : List Text → Fields → Fields → Text → Type 0
ReadsAt ks input out k =
    (text_in k ks ≡ true → entry k (get k input) ≡ ok (get k out))
    × (text_in k ks ≡ false → get k out ≡ none)

-- The key at the head: a later key of the same name agrees with it.
head_reads :
    (k : Text) (ks : List Text) (input : Fields) (v : Option Json) (fs : Fields)
    → entry k (get k input) ≡ ok v
    → ReadsAt ks input fs k
    → ReadsAt (k ∷ ks) input (put_entry k v fs) k
head_reads k ks input v fs e (inside, outside) =
    let same : get k (put_entry k v fs) ≡ v = get-put_entry_own k v fs (λ nothing.
      elim (Bool-cases (text_in k ks)) [
        | inl y ↦ ok_injective (sym (inside y) ∙ e) ∙ nothing
        | inr n ↦ outside n
      ]) in
    (λ _. rw same e, λ no. absurd (cc (text_in-head k ks)))

tail_reads :
    (k j : Text) (ks : List Text) (input : Fields) (v : Option Json) (fs : Fields)
    → text_eq k j ≡ false
    → ReadsAt ks input fs j
    → ReadsAt (k ∷ ks) input (put_entry k v fs) j
tail_reads k j ks input v fs f (inside, outside) =
    let same = get-put_entry k j v fs f in
    (λ here. rw same (inside (rw f at here)), λ no. same ∙ outside (rw f at no))

pub normalize_keys-Reads :
    (ks : List Text) (input out : Fields) → normalize_keys ks input ≡ ok out → Reads ks input out
unfolding normalize_keys get
normalize_keys-Reads [] input out h k =
    let same : Path Fields end out = ok_injective h in (λ no. absurd (cc), λ _. rw (← same) refl)
normalize_keys-Reads (k ∷ ks) input out h j =
    let (v, fs, e, rest, same) =
      with_entry-ok k (entry k (get k input)) (normalize_keys ks input) out
        (sym (normalize_key-entry k (get k input) (normalize_keys ks input)) ∙ h) in
    rw same (elim (Bool-cases (text_eq k j)) [
      | inl t ↦
          let here : k ≡ j = eq_of_text_eq k j t in
          subst (λ (i : Text). ReadsAt (k ∷ ks) input (put_entry k v fs) i) here
            (head_reads k ks input v fs e (normalize_keys-Reads ks input fs rest k))
      | inr f ↦ tail_reads k j ks input v fs f (normalize_keys-Reads ks input fs rest j)
    ])
