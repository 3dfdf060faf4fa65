-- ===== src/Sync/Header/Made.antt =====
-- What createOperation makes of its input, it makes again of the record that it made.
use mathlib.Core.Path.{subst}
use servidor_drive.Prelude.{
  ℕ, ◌≡◌, refl, true, Option, none, some, [], ◌∷◌, leb, Text, text_eq, codes, Result, ok, ◌>>=◌,
  >>=-eq-ok, ok_injective, arith, Bool-cases, inl, inr,
}
use servidor_drive.Sync.Operation.{OperationKind, create, update, move, delete}
use servidor_drive.Sync.Json.{
  Json, null, boolean, number, other_number, text, array, object, Fields, get, truthy,
  text_or_empty, string_of,
}
use servidor_drive.Sync.Protocol.{
  id, id_or, is_id, SyncRevision, revision, revision_of, base_revision_of, safe_integer,
  normalize_metadata, spread, keys_of, get_or_null, max_safe_integer,
}
use servidor_drive.Sync.Protocol.Settled.{id-ok, id_again}
use servidor_drive.Sync.Header.{
  Header, Drawn, operation_kind, kind_text, known_kind, is_delete, with_scope, create_header,
  revision_json, base_json,
}
use servidor_drive.Sync.Header.Metadata.{normalize_metadata_again}

pub then_ok {ℓ} :
    {E A B : Type ℓ} {r : Result E A} {x : A} {y : Result E B} (next : A → Result E B)
    → r ≡ ok x
    → next x ≡ y
    → (r >>= next) ≡ y
then_ok next e h = rw e h

pub known_kind_again :
    (k : OperationKind) → known_kind (operation_kind (text_or_empty (text (kind_text k)))) ≡ ok k
unfolding operation_kind text_or_empty truthy string_of text_eq
known_kind_again create = refl
known_kind_again update = refl
known_kind_again move = refl
known_kind_again delete = refl

id_or-ok : (v : Json) (fallback t : Text) → id_or v fallback ≡ ok t → is_id t ≡ true
unfolding id_or
id_or-ok v fallback t h = elim (Bool-cases (truthy v)) [
  | inl y ↦ id-ok v t (rw y at h)
  | inr n ↦ id-ok (text fallback) t (rw n at h)
]

pub id_or_again : (t fallback : Text) → is_id t ≡ true → id_or (text t) fallback ≡ ok t
unfolding id_or truthy is_id
id_or_again [] fallback h = absurd (cc)
id_or_again (c ∷ cs) fallback h = id_again (c ∷ cs) h

abbrev IsAgain : SyncRevision → Type 0
IsAgain r = revision (revision_json r) ≡ ok r

safe_integer-bound :
    (o : Option Json) (n : ℕ) → safe_integer o ≡ some n → leb n max_safe_integer ≡ true
safe_integer-bound (some (number m)) n h = ground arith
safe_integer-bound none n h = cc
safe_integer-bound (some null) n h = cc
safe_integer-bound (some (boolean b)) n h = cc
safe_integer-bound (some (other_number t)) n h = cc
safe_integer-bound (some (text t)) n h = cc
safe_integer-bound (some (array xs)) n h = cc
safe_integer-bound (some (object fs)) n h = cc

checked-IsAgain :
    (n : ℕ) (d : Text)
    → leb n max_safe_integer ≡ true
    → is_id d ≡ true
    → IsAgain (record { counter = n; device_id = d })
unfolding revision revision_of get text_eq
checked-IsAgain n d bound h = rw bound (then_ok _ (id_again d h) refl)

revision_of-IsAgain :
    (o : Option ℕ) (v : Json) (r : SyncRevision)
    → ((n : ℕ) → o ≡ some n → leb n max_safe_integer ≡ true)
    → revision_of o v ≡ ok r
    → IsAgain r
unfolding revision_of
revision_of-IsAgain none v r bound h = absurd (cc)
revision_of-IsAgain (some n) v r bound h =
    let (d, e, same) = >>=-eq-ok (id v) _ h in
    subst IsAgain (ok_injective same) (checked-IsAgain n d (bound n refl) (id-ok v d e))

revision-IsAgain : (v : Json) (r : SyncRevision) → revision v ≡ ok r → IsAgain r
unfolding revision
revision-IsAgain (object fs) r h =
    revision_of-IsAgain _ _ r (safe_integer-bound (get (codes "counter") fs)) h
revision-IsAgain null r h = absurd (cc)
revision-IsAgain (boolean b) r h = absurd (cc)
revision-IsAgain (number n) r h = absurd (cc)
revision-IsAgain (other_number t) r h = absurd (cc)
revision-IsAgain (text t) r h = absurd (cc)
revision-IsAgain (array xs) r h = absurd (cc)

abbrev IsBaseAgain : Option SyncRevision → Type 0
IsBaseAgain base = base_revision_of (base_json base) ≡ ok base

base_set-IsBaseAgain :
    (v : Json) (base : Option SyncRevision)
    → (revision v >>= λ r. ok (some r)) ≡ ok base
    → IsBaseAgain base
unfolding base_revision_of
base_set-IsBaseAgain v base h =
    let (r, e, same) = >>=-eq-ok (revision v) _ h in
    subst IsBaseAgain (ok_injective same) (then_ok _ (revision-IsAgain v r e) refl)

base_revision_of-IsBaseAgain :
    (v : Json) (base : Option SyncRevision) → base_revision_of v ≡ ok base → IsBaseAgain base
unfolding base_revision_of
base_revision_of-IsBaseAgain null base h = subst IsBaseAgain (ok_injective h) refl
base_revision_of-IsBaseAgain (boolean b) base h = base_set-IsBaseAgain (boolean b) base h
base_revision_of-IsBaseAgain (number n) base h = base_set-IsBaseAgain (number n) base h
base_revision_of-IsBaseAgain (other_number t) base h = base_set-IsBaseAgain (other_number t) base h
base_revision_of-IsBaseAgain (text t) base h = base_set-IsBaseAgain (text t) base h
base_revision_of-IsBaseAgain (array xs) base h = base_set-IsBaseAgain (array xs) base h
base_revision_of-IsBaseAgain (object fs) base h = base_set-IsBaseAgain (object fs) base h

-- The metadata of an operation, read again beside its names.
abbrev scoped_metadata : Header → Fields
scoped_metadata h =
    with_scope h.file_id h.version_id h.key_epoch h.compartment_id h.device_id (spread h.metadata)

-- A header that createOperation made.
pub record IsMade (h : Header) : Type 0 where
  pub object_id : is_id h.object_id ≡ true
  pub file_id : is_id h.file_id ≡ true
  pub version_id : is_id h.version_id ≡ true
  pub device_id : is_id h.device_id ≡ true
  pub key_epoch : is_id h.key_epoch ≡ true
  pub compartment_id : is_id h.compartment_id ≡ true
  pub operation_id : is_id h.operation_id ≡ true
  pub base : IsBaseAgain h.base_revision
  pub current : IsAgain h.revision
  pub metadata : normalize_metadata (scoped_metadata h) (keys_of h.operation) ≡ ok h.metadata
  pub tombstone : is_delete h.operation ≡ h.tombstone

pub create_header-IsMade :
    (drawn : Drawn) (input : Fields) (h : Header) → create_header drawn input ≡ ok h → IsMade h
unfolding create_header
create_header-IsMade drawn input h made =
    let (kind, k, r1) =
      >>=-eq-ok
        (known_kind (operation_kind (text_or_empty (get_or_null (codes "operation") input)))) _
        made in
    let (object_id, o, r2) =
      >>=-eq-ok (id_or (get_or_null (codes "objectId") input) drawn.object_id) _ r1 in
    let (file_id, f, r3) = >>=-eq-ok (id_or (get_or_null (codes "fileId") input) object_id) _ r2 in
    let (version_id, v, r4) =
      >>=-eq-ok (id_or (get_or_null (codes "versionId") input) drawn.version_id) _ r3 in
    let (device_id, d, r5) = >>=-eq-ok (id (get_or_null (codes "deviceId") input)) _ r4 in
    let (key_epoch, e, r6) = >>=-eq-ok (id (get_or_null (codes "keyEpoch") input)) _ r5 in
    let (compartment_id, c, r7) = >>=-eq-ok (id (get_or_null (codes "compartmentId") input)) _ r6 in
    let (base, b, r8) =
      >>=-eq-ok (base_revision_of (get_or_null (codes "baseRevision") input)) _ r7 in
    let (operation_id, i, r9) =
      >>=-eq-ok (id_or (get_or_null (codes "operationId") input) drawn.operation_id) _ r8 in
    let (current, u, r10) = >>=-eq-ok (revision (get_or_null (codes "revision") input)) _ r9 in
    let (metadata, m, r11) =
      >>=-eq-ok
        (normalize_metadata
          (with_scope file_id version_id key_epoch compartment_id device_id
            (spread (get_or_null (codes "metadata") input)))
          (keys_of kind))
        _ r10 in
    subst IsMade (ok_injective r11) (record {
      object_id = id_or-ok _ _ object_id o;
      file_id = id_or-ok _ _ file_id f;
      version_id = id_or-ok _ _ version_id v;
      device_id = id-ok _ device_id d;
      key_epoch = id-ok _ key_epoch e;
      compartment_id = id-ok _ compartment_id c;
      operation_id = id_or-ok _ _ operation_id i;
      base = base_revision_of-IsBaseAgain _ base b;
      current = revision-IsAgain _ current u;
      metadata =
          normalize_metadata_again file_id version_id key_epoch compartment_id device_id kind
            (spread (get_or_null (codes "metadata") input)) metadata m;
      tombstone = refl;
    })
