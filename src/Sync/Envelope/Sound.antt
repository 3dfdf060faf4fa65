-- ===== src/Sync/Envelope/Sound.antt =====
-- What holds of an operation that validateOperation accepts.
use mathlib.Core.Path.{subst}
use servidor_drive.Prelude.{
  ℕ, ◌≡◌, refl, ap, ◌∙◌, Bool, true, false, not, ◌&&◌, ◌||◌, ◌%◌, ◌==◌, Option, none, some, List,
  length, if◌then◌else◌, every, Text, text_eq, eq_of_text_eq, is_nonempty, codes, ok, err,
  >>=-eq-ok, ok_injective, arith, Bool-cases, inl, inr,
}
use servidor_drive.Prelude.Base64.{base64url, from_base64url, is_base64_character}
use servidor_drive.Sync.Json.{
  Json, null, boolean, number, other_number, array, text, object, Fields, get, has_exact_keys,
  has_own, utf8,
}
use servidor_drive.Sync.Protocol.{
  ProtocolError, operation_fields, required_fields, protocol_version, invalid_operation,
  invalid_protocol_version, invalid_envelope, aad_mismatch,
}
use servidor_drive.Sync.Header.{Header, Drawn, create_header, operation_aad}
use servidor_drive.Sync.Header.Made.{create_header-IsMade}
use servidor_drive.Sync.Envelope.{
  Envelope, SyncOperation, operation_record, authorization_of, guard, is_number, metadata_has,
  needs_source, is_tombstone, sealed_text, envelope_of, Opened, open_envelope, decode_base64_url,
  validate_fields, validate_operation,
}
use servidor_drive.Sync.Envelope.Authorization.{guard-ok, authorization_of_again}
use servidor_drive.Sync.Envelope.Accepting.{IsAcceptable, validate_operation-operation_record}

-- The texts of an envelope are those of the object.
pub record IsEnvelopeOf (fs : Fields) (e : Envelope) : Type 0 where
  pub ciphertext : get (codes "ciphertext") fs ≡ some (text e.ciphertext)
  pub nonce : get (codes "nonce") fs ≡ some (text e.nonce)
  pub tag : get (codes "tag") fs ≡ some (text e.tag)
  pub aad : get (codes "aad") fs ≡ some (text e.aad)
  pub nonce_full : is_nonempty e.nonce ≡ true
  pub tag_full : is_nonempty e.tag ≡ true
  pub aad_full : is_nonempty e.aad ≡ true

sealed_text-ok :
    (may : Bool) (o : Option Json) (t : Text)
    → sealed_text may o ≡ ok t
    → (o ≡ some (text t)) × ((is_nonempty t || may) ≡ true)
unfolding sealed_text
sealed_text-ok may (some (text u)) t h = elim (Bool-cases (is_nonempty u || may)) [
  | inl y ↦
      subst (λ (w : Text). (some (text u) ≡ some (text w)) × ((is_nonempty w || may) ≡ true))
        (ok_injective (rw y at h)) (refl, y)
  | inr n ↦ absurd (cc (rw n at h))
]
sealed_text-ok may none t h = absurd (cc)
sealed_text-ok may (some null) t h = absurd (cc)
sealed_text-ok may (some (boolean b)) t h = absurd (cc)
sealed_text-ok may (some (number n)) t h = absurd (cc)
sealed_text-ok may (some (other_number n)) t h = absurd (cc)
sealed_text-ok may (some (array xs)) t h = absurd (cc)
sealed_text-ok may (some (object fs)) t h = absurd (cc)

full_text :
    (o : Option Json) (t : Text)
    → sealed_text false o ≡ ok t
    → (o ≡ some (text t)) × (is_nonempty t ≡ true)
full_text o t h = let (same, full) = sealed_text-ok false o t h in (same, ground arith)

envelope_of-IsEnvelopeOf : (fs : Fields) (e : Envelope) → envelope_of fs ≡ ok e → IsEnvelopeOf fs e
unfolding envelope_of
envelope_of-IsEnvelopeOf fs e h =
    let (ciphertext, c, r1) = >>=-eq-ok (sealed_text true (get (codes "ciphertext") fs)) _ h in
    let (nonce, n, r2) = >>=-eq-ok (sealed_text false (get (codes "nonce") fs)) _ r1 in
    let (tag, t, r3) = >>=-eq-ok (sealed_text false (get (codes "tag") fs)) _ r2 in
    let (aad, a, r4) = >>=-eq-ok (sealed_text false (get (codes "aad") fs)) _ r3 in
    let (nonce_same, nonce_full) = full_text _ nonce n in
    let (tag_same, tag_full) = full_text _ tag t in
    let (aad_same, aad_full) = full_text _ aad a in
    subst (IsEnvelopeOf fs) (ok_injective r4) (record {
      ciphertext = (sealed_text-ok true _ ciphertext c).0;
      nonce = nonce_same;
      tag = tag_same;
      aad = aad_same;
      nonce_full = nonce_full;
      tag_full = tag_full;
      aad_full = aad_full;
    })

-- The envelope is bound to the operation: the AAD that it carries is that of the operation, its nonce has
-- twelve bytes and its tag sixteen.
pub record IsBound (h : Header) (e : Envelope) : Type 0 where
  pub aad : from_base64url e.aad ≡ utf8 (operation_aad h)
  pub nonce_size : length (from_base64url e.nonce) ≡ 12
  pub tag_size : length (from_base64url e.tag) ≡ 16
  pub ciphertext_exact : base64url (from_base64url e.ciphertext) ≡ e.ciphertext

abbrev sized : Option ℕ → List ℕ → Bool
sized none bs = true
sized (some n) bs = length bs == n

tested :
    (a b c d e : Bool) (x y : List ℕ) (e1 : ProtocolError)
    → (if a && b && c && d && e then ok x else err e1) ≡ ok y
    → (d ≡ true) × (e ≡ true) × (x ≡ y)
tested a b c d e x y e1 h = elim (Bool-cases (a && b && c && d && e)) [
  | inl y1 ↦ (ground arith, ground arith, ok_injective (rw y1 at h))
  | inr bad ↦ absurd (cc (rw bad at h))
]

decode_base64_url-ok :
    (may : Bool) (size : Option ℕ) (t : Text) (bs : List ℕ)
    → decode_base64_url may size t ≡ ok bs
    → (from_base64url t ≡ bs) × (base64url bs ≡ t) × (sized size bs ≡ true)
unfolding decode_base64_url
decode_base64_url-ok may none t bs h =
    let (exact, size, same) =
      tested (is_nonempty t || may) (every is_base64_character t) (not (length t % 4 == 1))
        (text_eq (base64url (from_base64url t)) t) true (from_base64url t) bs invalid_envelope h in
    (same, rw (← same) (eq_of_text_eq _ t exact), refl)
decode_base64_url-ok may (some n) t bs h =
    let (exact, size, same) =
      tested (is_nonempty t || may) (every is_base64_character t) (not (length t % 4 == 1))
        (text_eq (base64url (from_base64url t)) t) (length (from_base64url t) == n)
        (from_base64url t) bs invalid_envelope h in
    (same, rw (← same) (eq_of_text_eq _ t exact), rw (← same) size)

open_envelope-IsBound :
    (h : Header) (e : Envelope) (o : Opened) → open_envelope h e ≡ ok o → IsBound h e
unfolding open_envelope
open_envelope-IsBound h e o opens =
    let (ciphertext, c, r1) = >>=-eq-ok (decode_base64_url true none e.ciphertext) _ opens in
    let (nonce, n, r2) = >>=-eq-ok (decode_base64_url false (some 12) e.nonce) _ r1 in
    let (tag, t, r3) = >>=-eq-ok (decode_base64_url false (some 16) e.tag) _ r2 in
    let (aad, a, r4) = >>=-eq-ok (decode_base64_url false none e.aad) _ r3 in
    let (u, g, r5) = >>=-eq-ok (guard (text_eq aad (utf8 (operation_aad h))) aad_mismatch) _ r4 in
    let (c_same, c_exact, _) = decode_base64_url-ok true none e.ciphertext ciphertext c in
    let (n_same, _, n_size) = decode_base64_url-ok false (some 12) e.nonce nonce n in
    let (t_same, _, t_size) = decode_base64_url-ok false (some 16) e.tag tag t in
    let (a_same, _, _) = decode_base64_url-ok false none e.aad aad a in
    record {
      aad = a_same ∙ eq_of_text_eq aad _ (guard-ok _ _ u g);
      nonce_size = ap length n_same ∙ ground arith;
      tag_size = ap length t_same ∙ ground arith;
      ciphertext_exact = ap base64url c_same ∙ c_exact;
    }

-- What validateOperation accepts of an object.
pub record IsAccepted (now : ℕ) (drawn : Drawn) (fs : Fields) (op : SyncOperation) : Type 0 where
  pub acceptable : IsAcceptable now op
  pub header : create_header drawn fs ≡ ok op.header
  pub envelope : IsEnvelopeOf fs op.envelope
  pub bound : IsBound op.header op.envelope
  pub tombstone : is_tombstone op.header.tombstone (get (codes "tombstone") fs) ≡ true
  pub exact : has_exact_keys operation_fields fs ≡ true

fields_sound :
    (now : ℕ) (drawn : Drawn) (fs : Fields) (op : SyncOperation)
    → validate_fields now drawn fs ≡ ok op
    → IsAccepted now drawn fs op
unfolding validate_fields
fields_sound now drawn fs op h =
    let (u1, version, r1) =
      >>=-eq-ok
        (guard (is_number protocol_version (get (codes "protocolVersion") fs))
          invalid_protocol_version)
        _ h in
    let (u2, exact, r2) =
      >>=-eq-ok (guard (has_exact_keys operation_fields fs) invalid_operation) _ r1 in
    let (u3, complete, r3) =
      >>=-eq-ok (guard (every (λ k. has_own k fs) required_fields) invalid_operation) _ r2 in
    let (header, made, r4) = >>=-eq-ok (create_header drawn fs) _ r3 in
    let (authorization, authorized, r5) =
      >>=-eq-ok (authorization_of now (get (codes "authorization") fs)) _ r4 in
    let (u6, tombstone, r6) =
      >>=-eq-ok
        (guard (is_tombstone header.tombstone (get (codes "tombstone") fs)) invalid_operation) _
        r5 in
    let (u7, path, r7) =
      >>=-eq-ok (guard (metadata_has (codes "path") header.metadata) invalid_operation) _ r6 in
    let (u8, source, r8) =
      >>=-eq-ok
        (guard
          (not (needs_source header.operation) || metadata_has (codes "sourcePath") header.metadata)
          invalid_operation)
        _ r7 in
    let (envelope, taken, r9) = >>=-eq-ok (envelope_of fs) _ r8 in
    let (opened, opens, r10) = >>=-eq-ok (open_envelope header envelope) _ r9 in
    let texts = envelope_of-IsEnvelopeOf fs envelope taken in
    subst (IsAccepted now drawn fs) (ok_injective r10) (record {
      acceptable = record {
        made = create_header-IsMade drawn fs header made;
        authorized = authorization_of_again now _ authorization authorized;
        path = guard-ok _ _ u7 path;
        source = guard-ok _ _ u8 source;
        nonce = texts.nonce_full;
        tag = texts.tag_full;
        aad = texts.aad_full;
        opened = opened;
        opens = opens;
      };
      header = made;
      envelope = texts;
      bound = open_envelope-IsBound header envelope opened opens;
      tombstone = guard-ok _ _ u6 tombstone;
      exact = guard-ok _ _ u2 exact;
    })

-- An operation that is accepted: its header is what createOperation makes of the object, its envelope has the
-- texts of the object, the AAD that they carry is that of the header, the nonce has twelve bytes and the
-- tag sixteen, the object has no other field, its tombstone is that of the operation, it has a path and a
-- move a source, and every name and revision of it is one that is accepted again.
pub validate_operation_sound :
    (now : ℕ) (drawn : Drawn) (fs : Fields) (op : SyncOperation)
    → validate_operation now drawn (object fs) ≡ ok op
    → IsAccepted now drawn fs op
unfolding validate_operation
validate_operation_sound now drawn fs op h = fields_sound now drawn fs op h

-- An operation that is accepted, sent on as the object that validateOperation gives, is accepted again at
-- the same time and unchanged, whatever is drawn there.
pub validate_operation_again :
    (now : ℕ) (drawn again : Drawn) (fs : Fields) (op : SyncOperation)
    → validate_operation now drawn (object fs) ≡ ok op
    → validate_operation now again (object (operation_record op)) ≡ ok op
validate_operation_again now drawn again fs op h =
    validate_operation-operation_record now again op
      (validate_operation_sound now drawn fs op h).acceptable
