-- ===== src/GroupKeys/Sharing/Stale.antt =====
-- Old wraps after a change of who may read.
use servidor_drive.Prelude.{
  ℕ, ◌+◌, ◌≤◌, ◌≡◌, refl, Option, none, some, text_eq, List, [], ◌∷◌, if◌then◌else◌, ◌==◌, Text, ok,
  err, >>=-eq-ok, ok_injective, Result-cases, Bool-cases, inl, inr, arith, is_nonempty,
}
use mathlib.Core.Path.{subst}
use servidor_drive.GroupKeys.Names.{scope_mismatch, stale_epoch, text}
use servidor_drive.GroupKeys.Wrap.{WrapInput, Wrap, Hpke, Zk, aad_for}
use servidor_drive.GroupKeys.Validate.{
  Opener, validate_opaque_wrap, check_names, bytes, check_hpke, scope_of, same_scope,
  unwrap_opaque_wrap,
}
use servidor_drive.GroupKeys.Sharing.{
  Sharing, active, register_device, set_device, rotate, add_member, remove_member, revoke_device,
  begin_wrap, finish_wrap, wrap_for, without, unwrap,
}
use servidor_drive.GroupKeys.Sharing.Current.{
  Call, register_call, add_call, remove_call, revoke_call, rotate_call, wrap_call, call, calls,
  begin_wrap_sound,
}

module _ (zk : Zk) where
  register-epoch :
      (s t : Sharing) (recipient device key : Text)
      → register_device s recipient device key ≡ ok t
      → t.epoch ≡ s.epoch
  unfolding register_device
  register-epoch s t recipient device key h =
      let (u, e1, h1) = >>=-eq-ok (text recipient) _ h in
      let (v, e2, h2) = >>=-eq-ok (text device) _ h1 in
      elim (Bool-cases (is_nonempty key)) [
        | inl n ↦
            let p : record s {
              devices = set_device v (record { recipient_id = u; public_key = key }) s.devices;
            }
                ≡ t =
              ok_injective (rw n at h2) in
            subst (λ (x : Sharing). x.epoch ≡ s.epoch) p refl
        | inr n ↦ absurd (cc (rw n at h2))
      ]

  wrap-epoch : (s t : Sharing) (i : WrapInput) → wrap_for zk s i ≡ ok t → t.epoch ≡ s.epoch
  unfolding wrap_for finish_wrap
  wrap-epoch s t i h =
      let (made, e1, h1) = >>=-eq-ok (begin_wrap zk s i) _ h in
      let p : finish_wrap made s ≡ t = ok_injective h1 in
      subst (λ (x : Sharing). x.epoch ≡ s.epoch) p refl

  call-epoch : (s : Sharing) (c : Call zk) → s.epoch ≤ (call zk s c).epoch
  unfolding call add_member remove_member revoke_device rotate
  call-epoch s (register_call recipient device key) =
      elim (Result-cases (register_device s recipient device key)) [
        | inl (e, bad) ↦ rw bad (omega arith)
        | inr (t, good) ↦ rw good (omega (arith, register-epoch s t recipient device key good))
      ]
  call-epoch s (add_call recipient) = elim (Result-cases (text recipient)) [
    | inl (e, bad) ↦ rw bad (omega arith)
    | inr (t, good) ↦ rw good (omega arith)
  ]
  call-epoch s (remove_call recipient) = elim (Result-cases (text recipient)) [
    | inl (e, bad) ↦ rw bad (omega arith)
    | inr (t, good) ↦ rw good (omega arith)
  ]
  call-epoch s (revoke_call device) = elim (Result-cases (text device)) [
    | inl (e, bad) ↦ rw bad (omega arith)
    | inr (t, good) ↦ rw good (omega arith)
  ]
  call-epoch s rotate_call = omega arith
  call-epoch s (wrap_call i) = elim (Result-cases (wrap_for zk s i)) [
    | inl (e, bad) ↦ rw bad (omega arith)
    | inr (t, good) ↦ rw good (omega (arith, wrap-epoch s t i good))
  ]

  calls-epoch : (cs : List (Call zk)) (s : Sharing) → s.epoch ≤ (calls zk s cs).epoch
  unfolding calls
  calls-epoch [] s = omega arith
  calls-epoch (c ∷ cs) s = omega (arith, call-epoch s c, calls-epoch cs (call zk s c))

check_hpke-same : (w v : Wrap) (h : Option Hpke) → check_hpke w h ≡ ok v → w ≡ v
unfolding check_hpke
check_hpke-same w v none e = ok_injective e
check_hpke-same w v (some h) e =
    let (_, _, e1) = >>=-eq-ok (bytes h.hpke_enc (some 32)) _ e in
    let (_, _, e2) = >>=-eq-ok (bytes h.hpke_ciphertext (some 48)) _ e1 in
    let (_, _, e3) = >>=-eq-ok (bytes h.hpke_info none) _ e2 in
    let (_, _, e4) = >>=-eq-ok (bytes h.hpke_aad none) _ e3 in
    elim (Bool-cases (text_eq h.hpke_aad w.aad)) [
      | inl y ↦ ok_injective (rw y at e4)
      | inr n ↦ absurd (cc (rw n at e4))
    ]

validate_opaque_wrap-same : (w v : Wrap) → validate_opaque_wrap w ≡ ok v → w ≡ v
unfolding validate_opaque_wrap
validate_opaque_wrap-same w v h =
    let (_, _, h1) = >>=-eq-ok (check_names w) _ h in
    let (wrap_id, _, h2) = >>=-eq-ok (bytes w.wrap_id (some 16)) _ h1 in
    let (_, _, h3) = >>=-eq-ok (bytes w.wrapped (some 60)) _ h2 in
    let (aad, _, h4) = >>=-eq-ok (bytes w.aad none) _ h3 in
    let (expected, _, h5) = >>=-eq-ok (aad_for (scope_of w wrap_id)) _ h4 in
    elim (Bool-cases (text_eq aad expected)) [
      | inl y ↦ check_hpke-same w v w.hpke (rw y at h5)
      | inr n ↦ absurd (cc (rw n at h5))
    ]

module _ (opener : Opener) where
  unwrap_opaque_wrap-epoch :
      (w : Wrap) (i : WrapInput) (cer : List ℕ) (key : Option Text) (cek : List ℕ)
      → unwrap_opaque_wrap opener w i cer key ≡ ok cek
      → w.epoch ≡ i.epoch
  unfolding unwrap_opaque_wrap
  unwrap_opaque_wrap-epoch w i cer key cek h =
      let (v, valid, h1) = >>=-eq-ok (validate_opaque_wrap w) _ h in
      let (_, _, h2) = >>=-eq-ok (if same_scope v i then ok v else err scope_mismatch) _ h1 in
      let (_, current, h3) =
        >>=-eq-ok (if v.epoch == i.epoch then ok v else err stale_epoch) _ h2 in
      let p : w ≡ v = validate_opaque_wrap-same w v valid in rw p (ground arith)

  unwrap-epoch :
      (s : Sharing) (w : Wrap) (i : WrapInput) (cer : List ℕ) (key : Option Text) (cek : List ℕ)
      → unwrap opener s w i cer key ≡ ok cek
      → w.epoch ≡ s.epoch
  unfolding unwrap
  unwrap-epoch s w i cer key cek h =
      let (is_active, checked, h1) = >>=-eq-ok (active s i.recipient_id i.device_id) _ h in
      elim (Bool-cases is_active) [
        | inl y ↦ unwrap_opaque_wrap-epoch w (record i { epoch = s.epoch }) cer key cek (rw y at h1)
        | inr n ↦ absurd (cc (rw n at h1))
      ]

  remove_member-epoch :
      (s t : Sharing) (r : Text) → remove_member s r ≡ ok t → t.epoch ≡ s.epoch + 1
  unfolding remove_member rotate
  remove_member-epoch s t r h =
      let (x, e1, h1) = >>=-eq-ok (text r) _ h in
      let p : rotate (record s { members = without x s.members }) ≡ t = ok_injective h1 in
      subst (λ (u : Sharing). u.epoch ≡ s.epoch + 1) p refl

  -- A wrap that was made before a member was removed is opened for nobody afterwards, whatever is
  -- called before and after the removal.
  pub stale_refused :
      (zk : Zk) (s t : Sharing) (before after : List (Call zk)) (i j : WrapInput) (w : Wrap)
      (removed : Text) (cer cek : List ℕ) (key : Option Text)
      → begin_wrap zk s i ≡ ok w
      → remove_member (calls zk s before) removed ≡ ok t
      → ¬ (unwrap opener (calls zk t after) w j cer key ≡ ok cek)
  stale_refused zk s t before after i j w removed cer cek key made gone opened =
      let ((same_epoch, _, _), _, _) = begin_wrap_sound zk s i w made in
      let same : w.epoch ≡ s.epoch = same_epoch in
      omega (
        arith,
        same,
        calls-epoch zk before s,
        remove_member-epoch (calls zk s before) t removed gone,
        calls-epoch zk after t,
        unwrap-epoch (calls zk t after) w j cer key cek opened,
      )
