-- ===== src/Sync/ProtocolTests.antt =====
-- A cipher that only numbers its bytes, an operation, and what the protocol makes of it.
use servidor_drive.Prelude.{
  ℕ, zero, suc, ◌+◌, ◌<◌, ◌≡◌, refl, ap, ◌∙◌, true, false, none, some, List, [], ◌∷◌, ◌++◌, ltb,
  every, All, codes, text_eq, is_digit, decimal, ok, arith,
}
use servidor_drive.Sync.Json.{
  Json, null, number, text, object, Fields, end, field, canonical_json, text_or_empty, truthy,
  string_of, get, has_exact_keys, put, canonicalize, canonical_fields, insert_sorted, text_lt,
  key_lt, is_index, stringify, escaped_all, escaped, hex_digit, utf8, utf8_character,
}
use servidor_drive.Sync.Protocol.{
  id_or, id, is_id, is_id_character, base_revision_of, revision, revision_of, normalize_metadata,
  spread, keys_of, normalize_keys, normalize_key, metadata_value, sized_metadata,
}
use servidor_drive.Paths.{validate_portable_relative_path}
use servidor_drive.Sync.Operation.{create}
use servidor_drive.Sync.Header.{
  Header, Drawn, create_header, operation_kind, aad_fields, operation_aad,
}
use servidor_drive.Sync.Header.Made.{then_ok}
use servidor_drive.Sync.Json.Canonical.{swapped, canonical_json-Reordered}
use servidor_drive.Sync.Envelope.Sound.{
  IsAccepted, validate_operation_sound, validate_operation_again,
}
use servidor_drive.Sync.Sealing.Decrypting.{
  IsSealable, sealed_envelope, decrypt_payload-create_operation,
}
use servidor_drive.Sync.Sealing.Accepted.{IsPlaced, validate_operation-create_operation}
use servidor_drive.Sync.Envelope.{
  SyncOperation, operation_record, authorization_of, validate_operation,
}
use servidor_drive.Sync.Sealing.{Aead, encrypt_payload, file_key, create_operation, decrypt_payload}

-- Each number as so many ones and a zero.
abbrev pub ones : ℕ → List ℕ → List ℕ
ones zero rest = 0 ∷ rest
ones (suc n) rest = 1 ∷ ones n rest

abbrev pub spelled : List ℕ → List ℕ
spelled [] = []
spelled (n ∷ ns) = ones n (spelled ns)

abbrev pub read_from : ℕ → List ℕ → List ℕ
read_from n [] = []
read_from n (zero ∷ bs) = n ∷ read_from 0 bs
read_from n (suc b ∷ bs) = read_from (n + 1) bs

read_from-ones : (m n : ℕ) (rest : List ℕ) → read_from m (ones n rest) ≡ (m + n) ∷ read_from 0 rest
read_from-ones m zero rest = let e : m ≡ m + 0 = omega arith in rw (← e) refl
read_from-ones m (suc n) rest =
    read_from-ones (m + 1) n rest ∙ (let e : (m + 1) + n ≡ m + suc n = omega arith in rw e refl)

pub read_from-spelled : (ns : List ℕ) → read_from 0 (spelled ns) ≡ ns
read_from-spelled [] = refl
read_from-spelled (n ∷ ns) =
    read_from-ones 0 n (spelled ns)
    ∙ (let e : 0 + n ≡ n = omega arith in rw (e, read_from-spelled ns) refl)

ones-bytes : (n : ℕ) (rest : List ℕ) → All (λ b. b < 256) rest → All (λ b. b < 256) (ones n rest)
ones-bytes zero rest h = (omega arith, h)
ones-bytes (suc n) rest h = (omega arith, ones-bytes n rest h)

pub spelled-bytes : (ns : List ℕ) → All (λ b. b < 256) (spelled ns)
spelled-bytes [] = tt
spelled-bytes (n ∷ ns) = ones-bytes n (spelled ns) (spelled-bytes ns)

-- Bounds of a concrete list.
pub below : (n : ℕ) (cs : List ℕ) → every (λ c. ltb c n) cs ≡ true → All (λ c. c < n) cs
below n [] h = tt
below n (c ∷ cs) h = (ground arith, below n cs (ground arith))

abbrev pub zeros : List ℕ
zeros = 0 ∷ 0 ∷ 0 ∷ 0 ∷ 0 ∷ 0 ∷ 0 ∷ 0 ∷ 0 ∷ 0 ∷ 0 ∷ 0 ∷ 0 ∷ 0 ∷ 0 ∷ 0 ∷ []

abbrev pub spelling : Aead
spelling = record {
  seal = λ key nonce aad plaintext. (spelled plaintext, zeros);
  open_sealed = λ key nonce aad ciphertext tag. some (read_from 0 ciphertext);
  tag_size = λ key nonce aad plaintext. refl;
  ciphertext_bytes = λ key nonce aad plaintext. spelled-bytes plaintext;
  tag_bytes = λ key nonce aad plaintext. below 256 zeros refl;
  open_seal = λ key nonce aad plaintext. ap some (read_from-spelled plaintext);
}

abbrev pub nonce_zeros : List ℕ
nonce_zeros = 0 ∷ 0 ∷ 0 ∷ 0 ∷ 0 ∷ 0 ∷ 0 ∷ 0 ∷ 0 ∷ 0 ∷ 0 ∷ 0 ∷ []

abbrev pub key_zeros : List ℕ
key_zeros = zeros ++ zeros

abbrev drawn_ids : Drawn
drawn_ids = record { object_id = codes "u1"; version_id = codes "u2"; operation_id = codes "u3" }

abbrev other_ids : Drawn
other_ids = record { object_id = codes "v1"; version_id = codes "v2"; operation_id = codes "v3" }

abbrev counter_one : Json
counter_one =
    object (field (codes "counter") (number 1) (field (codes "deviceId") (text (codes "d1")) end))

abbrev request : Fields
request = field (codes "operation") (text (codes "create")) (
    field (codes "objectId") (text (codes "o1")) (
      field (codes "deviceId") (text (codes "d1")) (
        field (codes "keyEpoch") (number 1) (
          field (codes "compartmentId") (text (codes "c1")) (
            field (codes "revision") counter_one (
              field (codes "metadata")
                (object (
                  field (codes "path") (text (codes "a/b.txt"))
                    (field (codes "size") (number 3) end)))
                end))))))

abbrev pub request_header : Header
request_header = record {
  operation_id = codes "u3";
  object_id = codes "o1";
  file_id = codes "o1";
  version_id = codes "u2";
  operation = create;
  revision = record { counter = 1; device_id = codes "d1" };
  base_revision = none;
  key_epoch = codes "1";
  compartment_id = codes "c1";
  device_id = codes "d1";
  metadata = object (
      field (codes "compartmentId") (text (codes "c1")) (
        field (codes "deviceId") (text (codes "d1")) (
          field (codes "fileId") (text (codes "o1")) (
            field (codes "keyEpoch") (text (codes "1")) (
              field (codes "path") (text (codes "a/b.txt")) (
                field (codes "size") (number 3)
                  (field (codes "versionId") (text (codes "u2")) end)))))));
  tombstone = false;
}

create_header-request : create_header drawn_ids request ≡ ok request_header
unfolding create_header operation_kind text_eq text_or_empty truthy string_of get id_or id is_id
    is_id_character is_digit decimal base_revision_of revision revision_of normalize_metadata
    has_exact_keys put spread keys_of normalize_keys normalize_key metadata_value sized_metadata
    canonicalize canonical_fields insert_sorted key_lt is_index text_lt canonical_json stringify
    escaped_all escaped hex_digit utf8 utf8_character validate_portable_relative_path
create_header-request = refl

abbrev pub plaintext_two : List ℕ
plaintext_two = 7 ∷ 300 ∷ []

abbrev sealed_operation : SyncOperation
sealed_operation = record {
  header = request_header;
  envelope = sealed_envelope spelling nonce_zeros request_header plaintext_two key_zeros;
  authorization = none;
}

create_operation-request :
    create_operation spelling 0 drawn_ids nonce_zeros request plaintext_two key_zeros
    ≡ ok sealed_operation
unfolding create_operation encrypt_payload file_key authorization_of get text_eq
create_operation-request = then_ok _ create_header-request refl

request_header-IsSealable : IsSealable nonce_zeros request_header
unfolding operation_aad aad_fields canonical_json canonicalize canonical_fields insert_sorted key_lt
    is_index text_lt stringify escaped_all escaped hex_digit decimal
request_header-IsSealable = record {
  nonce_size = refl;
  nonce_bytes = below 256 nonce_zeros refl;
  code_points = below 0x110000 (operation_aad request_header) refl;
}

request_header-IsPlaced : IsPlaced request_header
unfolding get text_eq
request_header-IsPlaced = record { path = refl; source = refl }

decrypt_payload-create_operation_example :
    decrypt_payload spelling sealed_operation key_zeros ≡ ok plaintext_two
decrypt_payload-create_operation_example =
    decrypt_payload-create_operation spelling 0 drawn_ids nonce_zeros request plaintext_two
      key_zeros sealed_operation create_operation-request request_header-IsSealable

validate_operation-create_operation_example :
    validate_operation 0 other_ids (object (operation_record sealed_operation))
    ≡ ok sealed_operation
validate_operation-create_operation_example =
    validate_operation-create_operation spelling 0 drawn_ids other_ids nonce_zeros request
      plaintext_two key_zeros sealed_operation create_operation-request request_header-IsSealable
      request_header-IsPlaced

accepted_operation :
    validate_operation 0 other_ids (object (operation_record sealed_operation))
    ≡ ok sealed_operation
accepted_operation =
    validate_operation-create_operation spelling 0 drawn_ids other_ids nonce_zeros request
      plaintext_two key_zeros sealed_operation create_operation-request request_header-IsSealable
      request_header-IsPlaced

validate_operation_sound_example :
    IsAccepted 0 other_ids (operation_record sealed_operation) sealed_operation
validate_operation_sound_example =
    validate_operation_sound 0 other_ids (operation_record sealed_operation) sealed_operation
      accepted_operation

validate_operation_again_example :
    validate_operation 0 drawn_ids (object (operation_record sealed_operation))
    ≡ ok sealed_operation
validate_operation_again_example =
    validate_operation_again 0 other_ids drawn_ids (operation_record sealed_operation)
      sealed_operation accepted_operation

canonical_json-Reordered_example :
    canonical_json (object (field (codes "b") null (field (codes "a") (number 1) end)))
    ≡ canonical_json (object (field (codes "a") (number 1) (field (codes "b") null end)))
unfolding text_eq
canonical_json-Reordered_example =
    canonical_json-Reordered (field (codes "b") null (field (codes "a") (number 1) end))
      (field (codes "a") (number 1) (field (codes "b") null end))
      (swapped (codes "b") (codes "a") null (number 1) end refl)

-- A name that is an index comes first, by its number.
indices_first :
    canonical_json (
      object (
        field
          (codes "b")
          null
          (field (codes "10") null (field (codes "9") null (field (codes "09") null end)))))
    ≡ codes "{\"9\":null,\"10\":null,\"09\":null,\"b\":null}"
unfolding canonical_json canonicalize canonical_fields insert_sorted key_lt is_index text_lt
    stringify escaped_all escaped hex_digit text_eq
indices_first = refl
