-- ===== src/Sync/Sealing/Accepted.antt =====
-- What createOperation makes, validateOperation accepts.
use mathlib.Core.Path.{subst}
use servidor_drive.Prelude.{
  ℕ, ◌≡◌, sym, true, not, ◌&&◌, ◌||◌, List, is_nonempty, codes, ok, >>=-eq-ok, ok_injective, arith,
}
use servidor_drive.Sync.Json.{object, Fields, get}
use servidor_drive.Sync.Header.{Header, Drawn, create_header}
use servidor_drive.Sync.Header.Made.{IsMade, create_header-IsMade}
use servidor_drive.Sync.Envelope.{
  Envelope, SyncOperation, operation_record, authorization_of, metadata_has, needs_source, Opened,
  open_envelope, validate_operation,
}
use servidor_drive.Sync.Envelope.Authorization.{authorization_of_again}
use servidor_drive.Sync.Envelope.Accepting.{IsAcceptable, validate_operation-operation_record}
use servidor_drive.Sync.Sealing.{Aead, is_complete, encrypt_payload, create_operation}
use servidor_drive.Sync.Sealing.Decrypting.{
  IsSealable, sealed_envelope, open_envelope-sealed, is_complete-sealed, create_operation-parts,
}

-- The metadata that validateOperation asks of an operation.
pub record IsPlaced (h : Header) : Type 0 where
  pub path : metadata_has (codes "path") h.metadata ≡ true
  pub source :
      (not (needs_source h.operation) || metadata_has (codes "sourcePath") h.metadata) ≡ true

-- An envelope that opens, with its fields.
record Opens (h : Header) (e : Envelope) : Type 0 where
  complete : is_complete e ≡ true
  opened : Opened
  opens : open_envelope h e ≡ ok opened

acceptable :
    (now : ℕ) (op : SyncOperation)
    → IsMade op.header
    → authorization_of now op.authorization ≡ ok op.authorization
    → IsPlaced op.header
    → Opens op.header op.envelope
    → IsAcceptable now op
acceptable now op made authorized placed o =
    let complete : (is_nonempty op.envelope.nonce
          && is_nonempty op.envelope.tag
          && is_nonempty op.envelope.aad)
        ≡ true =
      o.complete in
    record {
      made = made;
      authorized = authorized;
      path = placed.path;
      source = placed.source;
      nonce = ground arith;
      tag = ground arith;
      aad = ground arith;
      opened = o.opened;
      opens = o.opens;
    }

module _ (aead : Aead) where
  create_operation-made :
      (now : ℕ) (drawn : Drawn) (nonce : List ℕ) (input : Fields) (plaintext key : List ℕ)
      (op : SyncOperation)
      → create_operation aead now drawn nonce input plaintext key ≡ ok op
      → IsMade op.header × (authorization_of now op.authorization ≡ ok op.authorization)
  unfolding create_operation
  create_operation-made now drawn nonce input plaintext key op e =
      let (h, made, e1) = >>=-eq-ok (create_header drawn input) _ e in
      let (env, sealed, e2) = >>=-eq-ok (encrypt_payload aead nonce h plaintext key) _ e1 in
      let (auth, authorized, e3) =
        >>=-eq-ok (authorization_of now (get (codes "authorization") input)) _ e2 in
      subst
        (λ (o : SyncOperation).
          IsMade o.header × (authorization_of now o.authorization ≡ ok o.authorization))
        (ok_injective e3)
        (create_header-IsMade drawn input h made, authorization_of_again now _ auth authorized)

  sealed-Opens :
      (nonce : List ℕ) (h : Header) (plaintext key : List ℕ)
      → IsSealable nonce h
      → Opens h (sealed_envelope aead nonce h plaintext key)
  sealed-Opens nonce h plaintext key s = record {
    complete = is_complete-sealed aead nonce h plaintext key s;
    opened = _;
    opens = open_envelope-sealed aead nonce h plaintext key s;
  }

  -- With a sound cipher, a nonce of twelve bytes, texts made of code points, a path and, for a move, a source:
  -- whatever createOperation makes, sent as its object, is accepted by validateOperation at the same time
  -- and gives the same operation, whatever is drawn there.
  pub validate_operation-create_operation :
      (now : ℕ) (drawn again : Drawn) (nonce : List ℕ) (input : Fields) (plaintext key : List ℕ)
      (op : SyncOperation)
      → create_operation aead now drawn nonce input plaintext key ≡ ok op
      → IsSealable nonce op.header
      → IsPlaced op.header
      → validate_operation now again (object (operation_record op)) ≡ ok op
  validate_operation-create_operation now drawn again nonce input plaintext key op e s placed =
      let (made, authorized) = create_operation-made now drawn nonce input plaintext key op e in
      let (size, sealed) = create_operation-parts aead now drawn nonce input plaintext key op e in
      let opens =
        subst (Opens op.header) (sym sealed) (sealed-Opens nonce op.header plaintext key s) in
      validate_operation-operation_record now again op
        (acceptable now op made authorized placed opens)
