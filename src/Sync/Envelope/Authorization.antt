-- ===== src/Sync/Envelope/Authorization.antt =====
-- A device authorization that is accepted is accepted again in its canonical form.
use mathlib.Core.Path.{subst}
use servidor_drive.Prelude.{
  ℕ, ◌≡◌, refl, sym, ap, ◌∙◌, Bool, true, false, Option, none, some, List, [], ◌∷◌, every, Text,
  codes, ok, >>=-eq-ok, ok_injective, arith,
}
use servidor_drive.Sync.Json.{
  Json, null, boolean, number, other_number, array, text, object, Fields, get, is_some, has_own,
  has_exact_keys, canonicalize, canonical_fields,
}
use servidor_drive.Sync.Json.Lookup.{
  map_json, get-canonical_fields, has_exact_keys-canonical_fields,
}
use servidor_drive.Sync.Json.Canonical.{canonicalize_idempotent}
use servidor_drive.Sync.Protocol.{
  ProtocolError, invalid_operation, authorization_expired, protocol_version,
}
use servidor_drive.Sync.Header.Made.{then_ok}
use servidor_drive.Sync.Envelope.{
  authorization_of, authorization_fields, digest_fields, normalize_authorization, guard, is_number,
  is_text, is_base64_text, after_now,
}

pub guard-ok : (b : Bool) (e : ProtocolError) (x : Unit {0}) → guard b e ≡ ok x → b ≡ true
guard-ok true e x h = refl
guard-ok false e x h = absurd (cc)

pub guard-true : (b : Bool) (e : ProtocolError) → b ≡ true → guard b e ≡ ok tt
guard-true b e h = rw h refl

every_same :
    (f g : Text → Bool) (ks : List Text)
    → ((k : Text) → f k ≡ g k)
    → every f ks ≡ true
    → every g ks ≡ true
every_same f g [] same h = refl
every_same f g (k ∷ ks) same h = ground (arith, same k, every_same f g ks same)

-- A test of a field that its canonical form passes alike.
abbrev IsCanonicalTest : (Option Json → Bool) → Type 0
IsCanonicalTest f = (o : Option Json) → f (map_json canonicalize o) ≡ f o

is_number_alike : (n : ℕ) → IsCanonicalTest (is_number n)
unfolding canonicalize
is_number_alike n none = refl
is_number_alike n (some null) = refl
is_number_alike n (some (boolean b)) = refl
is_number_alike n (some (number m)) = refl
is_number_alike n (some (other_number t)) = refl
is_number_alike n (some (text t)) = refl
is_number_alike n (some (array xs)) = refl
is_number_alike n (some (object fs)) = refl

is_text_alike : (t : Text) → IsCanonicalTest (is_text t)
unfolding canonicalize
is_text_alike t none = refl
is_text_alike t (some null) = refl
is_text_alike t (some (boolean b)) = refl
is_text_alike t (some (number m)) = refl
is_text_alike t (some (other_number u)) = refl
is_text_alike t (some (text u)) = refl
is_text_alike t (some (array xs)) = refl
is_text_alike t (some (object fs)) = refl

after_now_alike : (now : ℕ) → IsCanonicalTest (after_now now)
unfolding canonicalize
after_now_alike now none = refl
after_now_alike now (some null) = refl
after_now_alike now (some (boolean b)) = refl
after_now_alike now (some (number m)) = refl
after_now_alike now (some (other_number t)) = refl
after_now_alike now (some (text t)) = refl
after_now_alike now (some (array xs)) = refl
after_now_alike now (some (object fs)) = refl

is_base64_text_alike : IsCanonicalTest is_base64_text
unfolding canonicalize is_base64_text
is_base64_text_alike none = refl
is_base64_text_alike (some null) = refl
is_base64_text_alike (some (boolean b)) = refl
is_base64_text_alike (some (number m)) = refl
is_base64_text_alike (some (other_number t)) = refl
is_base64_text_alike (some (text t)) = refl
is_base64_text_alike (some (array xs)) = refl
is_base64_text_alike (some (object fs)) = refl

is_some_alike : IsCanonicalTest is_some
is_some_alike none = refl
is_some_alike (some v) = refl

field_alike :
    (f : Option Json → Bool) (k : Text) (fs : Fields)
    → IsCanonicalTest f
    → f (get k (canonical_fields fs)) ≡ f (get k fs)
field_alike f k fs alike = ap f (get-canonical_fields k fs) ∙ alike (get k fs)

every_alike :
    (f : Option Json → Bool) (ks : List Text) (fs : Fields)
    → IsCanonicalTest f
    → every (λ k. f (get k fs)) ks ≡ true
    → every (λ k. f (get k (canonical_fields fs))) ks ≡ true
every_alike f ks fs alike = every_same _ _ ks (λ k. sym (field_alike f k fs alike))

object_again :
    (now : ℕ) (fs : Fields) (a : Json)
    → normalize_authorization now (object fs) ≡ ok a
    → normalize_authorization now a ≡ ok a
unfolding normalize_authorization canonicalize
object_again now fs a h =
    let (u1, exact, r1) =
      >>=-eq-ok (guard (has_exact_keys authorization_fields fs) invalid_operation) _ h in
    let (u2, complete, r2) =
      >>=-eq-ok (guard (every (λ k. has_own k fs) authorization_fields) invalid_operation) _ r1 in
    let (u3, schema, r3) =
      >>=-eq-ok (guard (is_number 1 (get (codes "schemaVersion") fs)) invalid_operation) _ r2 in
    let (u4, kind, r4) =
      >>=-eq-ok
        (guard (is_text (codes "rootark-sync-device-authorization-v1") (get (codes "type") fs))
          invalid_operation)
        _ r3 in
    let (u5, suite, r5) =
      >>=-eq-ok (guard (is_text (codes "rootark-zk-1") (get (codes "suite") fs)) invalid_operation)
        _ r4 in
    let (u6, version, r6) =
      >>=-eq-ok
        (guard (is_number protocol_version (get (codes "protocolVersion") fs)) invalid_operation) _
        r5 in
    let (u7, fresh, r7) =
      >>=-eq-ok (guard (after_now now (get (codes "expiresAt") fs)) authorization_expired) _ r6 in
    let (u8, digests, r8) =
      >>=-eq-ok (guard (every (λ k. is_base64_text (get k fs)) digest_fields) invalid_operation) _
        r7 in
    subst (λ (b : Json). normalize_authorization now b ≡ ok b) (ok_injective r8)
      (then_ok _
        (guard-true _ _
          (has_exact_keys-canonical_fields authorization_fields fs (guard-ok _ _ u1 exact)))
        (then_ok _
          (guard-true _ _
            (every_alike is_some authorization_fields fs is_some_alike (guard-ok _ _ u2 complete)))
          (then_ok _
            (guard-true _ _
              (field_alike (is_number 1) _ fs (is_number_alike 1) ∙ guard-ok _ _ u3 schema))
            (then_ok _
              (guard-true _ _
                (field_alike (is_text _) _ fs (is_text_alike _) ∙ guard-ok _ _ u4 kind))
              (then_ok _
                (guard-true _ _
                  (field_alike (is_text _) _ fs (is_text_alike _) ∙ guard-ok _ _ u5 suite))
                (then_ok _
                  (guard-true _ _
                    (field_alike (is_number 2) _ fs (is_number_alike 2) ∙ guard-ok _ _ u6 version))
                  (then_ok _
                    (guard-true _ _ (
                      field_alike (after_now now) _ fs (after_now_alike now)
                      ∙ guard-ok _ _ u7 fresh))
                    (then_ok _
                      (guard-true _ _ (
                        every_alike is_base64_text digest_fields fs is_base64_text_alike
                          (guard-ok _ _ u8 digests)))
                      (ap ok (canonicalize_idempotent (object fs)))))))))))

pub normalize_authorization_again :
    (now : ℕ) (v a : Json)
    → normalize_authorization now v ≡ ok a
    → normalize_authorization now a ≡ ok a
unfolding normalize_authorization
normalize_authorization_again now (object fs) a h = object_again now fs a h
normalize_authorization_again now null a h = absurd (cc)
normalize_authorization_again now (boolean b) a h = absurd (cc)
normalize_authorization_again now (number n) a h = absurd (cc)
normalize_authorization_again now (other_number t) a h = absurd (cc)
normalize_authorization_again now (text t) a h = absurd (cc)
normalize_authorization_again now (array xs) a h = absurd (cc)

pub authorization_of_again :
    (now : ℕ) (o a : Option Json) → authorization_of now o ≡ ok a → authorization_of now a ≡ ok a
unfolding authorization_of
authorization_of_again now none a h =
    subst (λ (b : Option Json). authorization_of now b ≡ ok b) (ok_injective h) refl
authorization_of_again now (some v) a h =
    let (w, e, same) = >>=-eq-ok (normalize_authorization now v) _ h in
    subst (λ (b : Option Json). authorization_of now b ≡ ok b) (ok_injective same)
      (then_ok _ (normalize_authorization_again now v w e) refl)
