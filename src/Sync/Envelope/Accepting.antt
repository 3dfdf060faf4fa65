-- ===== src/Sync/Envelope/Accepting.antt =====
-- When validateOperation accepts the object of an operation.
use servidor_drive.Prelude.{
  ℕ, ◌≡◌, refl, ap, ◌∙◌, Bool, true, false, not, ◌||◌, Option, none, some, [], ◌∷◌, every, Text,
  text_eq, is_nonempty, codes, ok,
}
use servidor_drive.Sync.Json.{Json, boolean, text, object, get, is_some, has_exact_keys}
use servidor_drive.Sync.Protocol.{protocol_version, operation_fields, required_fields}
use servidor_drive.Sync.Header.{Drawn, create_header}
use servidor_drive.Sync.Header.Made.{IsMade, then_ok, known_kind_again, id_or_again}
use servidor_drive.Sync.Protocol.Settled.{id_again}
use servidor_drive.Sync.Envelope.Authorization.{guard-true}
use servidor_drive.Sync.Envelope.{
  SyncOperation, operation_record, authorization_end, authorization_of, is_number, metadata_has,
  needs_source, is_tombstone, sealed_text, envelope_of, Opened, open_envelope, validate_fields,
  validate_operation,
}

-- createOperation makes of the object of an operation the header that it has.
create_header-operation_record :
    (drawn : Drawn) (op : SyncOperation)
    → IsMade op.header
    → create_header drawn (operation_record op) ≡ ok op.header
unfolding create_header operation_record get text_eq
create_header-operation_record drawn op m = then_ok _ (known_kind_again op.header.operation) (
    then_ok _ (id_or_again op.header.object_id drawn.object_id m.object_id) (
      then_ok _ (id_or_again op.header.file_id op.header.object_id m.file_id) (
        then_ok _ (id_or_again op.header.version_id drawn.version_id m.version_id) (
          then_ok _ (id_again op.header.device_id m.device_id) (
            then_ok _ (id_again op.header.key_epoch m.key_epoch) (
              then_ok _ (id_again op.header.compartment_id m.compartment_id) (
                then_ok _ m.base (
                  then_ok _ (id_or_again op.header.operation_id drawn.operation_id m.operation_id)
                    (then_ok _ m.current (then_ok _ m.metadata (rw m.tombstone refl)))))))))))

-- What validateOperation asks of an operation.
pub record IsAcceptable (now : ℕ) (op : SyncOperation) : Type 0 where
  pub made : IsMade op.header
  pub authorized : authorization_of now op.authorization ≡ ok op.authorization
  pub path : metadata_has (codes "path") op.header.metadata ≡ true
  pub source :
      (not (needs_source op.header.operation)
        || metadata_has (codes "sourcePath") op.header.metadata)
      ≡ true
  pub nonce : is_nonempty op.envelope.nonce ≡ true
  pub tag : is_nonempty op.envelope.tag ≡ true
  pub aad : is_nonempty op.envelope.aad ≡ true
  pub opened : Opened
  pub opens : open_envelope op.header op.envelope ≡ ok opened

end_exact : (o : Option Json) → has_exact_keys operation_fields (authorization_end o) ≡ true
unfolding has_exact_keys text_eq
end_exact none = refl
end_exact (some a) = refl

get-end : (o : Option Json) → get (codes "authorization") (authorization_end o) ≡ o
unfolding get text_eq
get-end none = refl
get-end (some a) = refl

record_exact : (op : SyncOperation) → has_exact_keys operation_fields (operation_record op) ≡ true
unfolding has_exact_keys operation_record text_eq
record_exact op = end_exact op.authorization

record_complete :
    (op : SyncOperation) → every (λ k. is_some (get k (operation_record op))) required_fields ≡ true
unfolding get operation_record text_eq
record_complete op = refl

is_tombstone_same : (b : Bool) → is_tombstone b (some (boolean b)) ≡ true
is_tombstone_same true = refl
is_tombstone_same false = refl

record_version :
    (op : SyncOperation)
    → is_number protocol_version (get (codes "protocolVersion") (operation_record op)) ≡ true
unfolding get operation_record text_eq
record_version op = refl

record_tombstone :
    (op : SyncOperation)
    → is_tombstone op.header.tombstone (get (codes "tombstone") (operation_record op)) ≡ true
unfolding get operation_record text_eq
record_tombstone op = is_tombstone_same op.header.tombstone

record_authorization :
    (op : SyncOperation) → get (codes "authorization") (operation_record op) ≡ op.authorization
unfolding get operation_record text_eq
record_authorization op = get-end op.authorization

sealed_text_any : (t : Text) → sealed_text true (some (text t)) ≡ ok t
unfolding sealed_text
sealed_text_any [] = refl
sealed_text_any (c ∷ cs) = refl

sealed_text_full : (t : Text) → is_nonempty t ≡ true → sealed_text false (some (text t)) ≡ ok t
unfolding sealed_text
sealed_text_full [] h = absurd (cc)
sealed_text_full (c ∷ cs) h = refl

envelope_of-record :
    (op : SyncOperation)
    → is_nonempty op.envelope.nonce ≡ true
    → is_nonempty op.envelope.tag ≡ true
    → is_nonempty op.envelope.aad ≡ true
    → envelope_of (operation_record op) ≡ ok op.envelope
unfolding envelope_of sealed_text get operation_record text_eq
envelope_of-record op n t a = then_ok _ (sealed_text_any op.envelope.ciphertext) (
    then_ok _ (sealed_text_full op.envelope.nonce n) (
      then_ok _ (sealed_text_full op.envelope.tag t)
        (then_ok _ (sealed_text_full op.envelope.aad a) refl)))

pub validate_operation-operation_record :
    (now : ℕ) (drawn : Drawn) (op : SyncOperation)
    → IsAcceptable now op
    → validate_operation now drawn (object (operation_record op)) ≡ ok op
unfolding validate_operation validate_fields
validate_operation-operation_record now drawn op a =
    then_ok _ (guard-true _ _ (record_version op)) (
      then_ok _ (guard-true _ _ (record_exact op)) (
        then_ok _ (guard-true _ _ (record_complete op)) (
          then_ok _ (create_header-operation_record drawn op a.made) (
            then_ok _ (ap (authorization_of now) (record_authorization op) ∙ a.authorized) (
              then_ok _ (guard-true _ _ (record_tombstone op)) (
                then_ok _ (guard-true _ _ a.path) (
                  then_ok _ (guard-true _ _ a.source) (
                    then_ok _ (envelope_of-record op a.nonce a.tag a.aad)
                      (then_ok _ a.opens refl)))))))))
