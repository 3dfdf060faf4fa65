-- ===== src/Sync/Header/Metadata.antt =====
-- The metadata of an operation, read again beside the same names.
use mathlib.Core.Path.{subst}
use servidor_drive.Prelude.{
  ◌≡◌, refl, sym, ap, ◌∙◌, ◌⊎◌, true, Option, none, some, List, [], ◌∷◌, length, if◌then◌else◌, ltb,
  every, Text, text_eq, text_in, text_eq_refl, codes, ok, >>=-eq-ok, ok_injective, arith,
  Bool-cases, inl, inr,
}
use servidor_drive.Sync.Operation.{OperationKind, create, update, move, delete}
use servidor_drive.Sync.Json.{
  Json, text, object, Fields, end, field, get, put, has_exact_keys, canonical_fields,
  canonical_json, utf8,
}
use servidor_drive.Sync.Json.Lookup.{
  get-put, get-canonical_fields, has_exact_keys-canonical_fields, has_exact_keys-put,
}
use servidor_drive.Sync.Protocol.{
  normalize_keys, sized_metadata, normalize_metadata, spread, keys_of, max_metadata_bytes,
  canonical_object,
}
use servidor_drive.Sync.Protocol.Again.{
  entry, SameOn, Reads, put_entry, with_entry-ok, normalize_keys-same, normalize_keys-Reads,
  normalize_key-entry,
}
use servidor_drive.Sync.Protocol.Settled.{entry_again}
use servidor_drive.Sync.Header.{with_scope}

module _ (k : Text) (ks : List Text) where
  exact_more : (fs : Fields) → has_exact_keys ks fs ≡ true → has_exact_keys (k ∷ ks) fs ≡ true
  unfolding has_exact_keys
  exact_more end h = refl
  exact_more (field j v fs) h = ground (arith, exact_more fs)

  exact_entry :
      (v : Option Json) (fs : Fields)
      → has_exact_keys ks fs ≡ true
      → has_exact_keys (k ∷ ks) (put_entry k v fs) ≡ true
  unfolding has_exact_keys
  exact_entry none fs h = exact_more fs h
  exact_entry (some v) fs h = rw (text_eq_refl k, exact_more fs h) refl

normalize_keys-exact :
    (ks : List Text) (input out : Fields)
    → normalize_keys ks input ≡ ok out
    → has_exact_keys ks out ≡ true
unfolding normalize_keys has_exact_keys
normalize_keys-exact [] input out h =
    subst (λ (o : Fields). has_exact_keys [] o ≡ true) (ok_injective h) refl
normalize_keys-exact (k ∷ ks) input out h =
    let (v, fs, e, rest, same) =
      with_entry-ok k (entry k (get k input)) (normalize_keys ks input) out
        (sym (normalize_key-entry k (get k input) (normalize_keys ks input)) ∙ h) in
    rw same (exact_entry k ks v fs (normalize_keys-exact ks input fs rest))

-- normalizeMetadata by its steps.
normalize_metadata-parts :
    (input : Fields) (ks : List Text) (out : Json)
    → normalize_metadata input ks ≡ ok out
    → (has_exact_keys ks input ≡ true)
      × ((fs : Fields) × (normalize_keys ks input ≡ ok fs) × (sized_metadata fs ≡ ok out))
unfolding normalize_metadata
normalize_metadata-parts input ks out h = elim (Bool-cases (has_exact_keys ks input)) [
  | inl y ↦ (y, >>=-eq-ok (normalize_keys ks input) _ (rw y at h))
  | inr n ↦ absurd (cc (rw n at h))
]

normalize_metadata-whole :
    (input : Fields) (ks : List Text) (fs : Fields) (out : Json)
    → has_exact_keys ks input ≡ true
    → normalize_keys ks input ≡ ok fs
    → sized_metadata fs ≡ ok out
    → normalize_metadata input ks ≡ ok out
unfolding normalize_metadata
normalize_metadata-whole input ks fs out exact normalized sized = rw (exact, normalized) sized

sized_metadata-canonical :
    (fs : Fields) (out : Json) → sized_metadata fs ≡ ok out → canonical_object fs ≡ out
unfolding sized_metadata
sized_metadata-canonical fs out h =
    elim (Bool-cases (ltb max_metadata_bytes (length (utf8 (canonical_json (object fs)))))) [
      | inl y ↦ absurd (cc (rw y at h))
      | inr n ↦ ok_injective (rw n at h)
    ]

abbrev scope_names : List Text
scope_names =
    codes "deviceId"
    ∷ codes "compartmentId"
    ∷ codes "keyEpoch"
    ∷ codes "versionId"
    ∷ codes "fileId"
    ∷ []

scope_kept : (kind : OperationKind) → every (λ k. text_in k (keys_of kind)) scope_names ≡ true
unfolding keys_of text_eq
scope_kept create = refl
scope_kept update = refl
scope_kept move = refl
scope_kept delete = refl

module _ (file_id version_id key_epoch compartment_id device_id : Text) where
  abbrev scoped : Fields → Fields
  scoped fs = with_scope file_id version_id key_epoch compartment_id device_id fs

  exact_put :
      (ks : List Text) (k : Text) (t : Text) (fs : Fields)
      → text_in k ks ≡ true
      → has_exact_keys ks fs ≡ true
      → has_exact_keys ks (put k (text t) fs) ≡ true
  exact_put ks k t fs = has_exact_keys-put ks k (text t) fs

  scoped_exact_in :
      (ks : List Text) (fs : Fields)
      → every (λ k. text_in k ks) scope_names ≡ true
      → has_exact_keys ks fs ≡ true
      → has_exact_keys ks (scoped fs) ≡ true
  scoped_exact_in ks fs e h = exact_put ks (codes "deviceId") device_id _ (ground arith) (
      exact_put ks (codes "compartmentId") compartment_id _ (ground arith) (
        exact_put ks (codes "keyEpoch") key_epoch _ (ground arith) (
          exact_put ks (codes "versionId") version_id _ (ground arith)
            (exact_put ks (codes "fileId") file_id fs (ground arith) h))))

  scoped_exact :
      (kind : OperationKind) (fs : Fields)
      → has_exact_keys (keys_of kind) fs ≡ true
      → has_exact_keys (keys_of kind) (scoped fs) ≡ true
  scoped_exact kind fs h = scoped_exact_in (keys_of kind) fs (scope_kept kind) h

  abbrev scoped_value : Text → Option Json → Option Json
  scoped_value j o =
      if text_eq (codes "deviceId") j
      then some (text device_id)
      else if text_eq (codes "compartmentId") j
      then some (text compartment_id)
      else if text_eq (codes "keyEpoch") j
      then some (text key_epoch)
      else if text_eq (codes "versionId") j
      then some (text version_id)
      else if text_eq (codes "fileId") j
      then some (text file_id)
      else o

  get-scoped : (j : Text) (fs : Fields) → get j (scoped fs) ≡ scoped_value j (get j fs)
  get-scoped j fs =
      get-put (codes "deviceId") j (text device_id) _
      ∙ ap (λ o. if text_eq (codes "deviceId") j then some (text device_id) else o)
          (get-put (codes "compartmentId") j (text compartment_id) _
            ∙ ap (λ o. if text_eq (codes "compartmentId") j then some (text compartment_id) else o)
                (get-put (codes "keyEpoch") j (text key_epoch) _
                  ∙ ap (λ o. if text_eq (codes "keyEpoch") j then some (text key_epoch) else o)
                      (get-put (codes "versionId") j (text version_id) _
                        ∙ ap
                            (λ o.
                              if text_eq (codes "versionId") j then some (text version_id) else o)
                            (get-put (codes "fileId") j (text file_id) fs))))

  -- What a scoped value reads depends on nothing else, or is what is under it.
  scoped_value-cases :
      (j : Text)
      → ((x : Option Json) × ((o : Option Json) → scoped_value j o ≡ x))
        ⊎ ((o : Option Json) → scoped_value j o ≡ o)
  scoped_value-cases j = elim (Bool-cases (text_eq (codes "deviceId") j)) [
    | inl y ↦ inl (some (text device_id), λ o. rw y refl)
    | inr a ↦ elim (Bool-cases (text_eq (codes "compartmentId") j)) [
      | inl y ↦ inl (some (text compartment_id), λ o. rw (a, y) refl)
      | inr b ↦ elim (Bool-cases (text_eq (codes "keyEpoch") j)) [
        | inl y ↦ inl (some (text key_epoch), λ o. rw (a, b, y) refl)
        | inr c ↦ elim (Bool-cases (text_eq (codes "versionId") j)) [
          | inl y ↦ inl (some (text version_id), λ o. rw (a, b, c, y) refl)
          | inr d ↦ elim (Bool-cases (text_eq (codes "fileId") j)) [
            | inl y ↦ inl (some (text file_id), λ o. rw (a, b, c, d, y) refl)
            | inr e ↦ inr (λ o. rw (a, b, c, d, e) refl)
          ]
        ]
      ]
    ]
  ]

  -- What was read is read again, with what was put over it put over it again.
  again_same :
      (ks : List Text) (m out : Fields)
      → Reads ks (scoped m) out
      → SameOn ks (scoped (canonical_fields out)) (scoped m)
  again_same ks m out reads j here =
      let read = (reads j).0 here in
      let again = get-scoped j (canonical_fields out) in
      elim (scoped_value-cases j) [
        | inl (x, all) ↦ ap (entry j) (again ∙ all _ ∙ sym (all _) ∙ sym (get-scoped j m))
        | inr under ↦
            ap (entry j) (again ∙ under _ ∙ get-canonical_fields j out)
            ∙ entry_again j (get j (scoped m)) (get j out) read
            ∙ sym read
      ]

  normalize_keys_again :
      (ks : List Text) (m out : Fields)
      → normalize_keys ks (scoped m) ≡ ok out
      → normalize_keys ks (scoped (canonical_fields out)) ≡ ok out
  normalize_keys_again ks m out h =
      normalize_keys-same ks (scoped (canonical_fields out)) (scoped m)
        (again_same ks m out (normalize_keys-Reads ks (scoped m) out h))
      ∙ h

  -- Metadata that was accepted is accepted again beside the same names, and gives itself.
  pub normalize_metadata_again :
      (kind : OperationKind) (m : Fields) (out : Json)
      → normalize_metadata (scoped m) (keys_of kind) ≡ ok out
      → normalize_metadata (scoped (spread out)) (keys_of kind) ≡ ok out
  unfolding canonical_fields spread
  normalize_metadata_again kind m out h =
      let (exact, (fs, normalized, sized)) =
        normalize_metadata-parts (scoped m) (keys_of kind) out h in
      let spread_out : spread out ≡ canonical_fields fs =
        ap spread (sym (sized_metadata-canonical fs out sized)) in
      let exact_again = scoped_exact kind (canonical_fields fs) (
        has_exact_keys-canonical_fields (keys_of kind) fs
          (normalize_keys-exact (keys_of kind) (scoped m) fs normalized)) in
      rw spread_out (
        normalize_metadata-whole (scoped (canonical_fields fs)) (keys_of kind) fs out exact_again
          (normalize_keys_again (keys_of kind) m fs normalized) sized)
