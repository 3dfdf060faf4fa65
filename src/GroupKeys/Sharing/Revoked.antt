-- ===== src/GroupKeys/Sharing/Revoked.antt =====
-- What a revocation stops, and what it does not.
use servidor_drive.Prelude.{
  ◌+◌, ◌≡◌, refl, true, List, [], ◌∷◌, ◌++◌, Text, text_in, text_eq_refl, is_nonempty, ok,
  >>=-eq-ok, ok_injective, Result-cases, Bool-cases, inl, inr, arith,
}
use mathlib.Core.Path.{subst, ◌∙◌, sym}
use servidor_drive.GroupKeys.Names.{text}
use servidor_drive.GroupKeys.Wrap.{WrapInput, Wrap, Zk}
use servidor_drive.GroupKeys.Sharing.{
  Sharing, add, register_device, set_device, rotate, add_member, remove_member, revoke_device,
  begin_wrap, finish_wrap, wrap_for,
}
use servidor_drive.GroupKeys.Sharing.Current.{
  Call, register_call, add_call, remove_call, revoke_call, rotate_call, wrap_call, call, calls,
  begin_wrap_sound, text-same,
}

abbrev pub IsRevoked : Text → Sharing → Type 0
IsRevoked d s = text_in d s.revoked_devices ≡ true

text_in-append :
    (d x : Text) (xs : List Text) → text_in d xs ≡ true → text_in d (xs ++ x ∷ []) ≡ true
text_in-append d x [] h = absurd cc
text_in-append d x (y ∷ xs) h = ground (arith, text_in-append d x xs)

text_in-appended : (d : Text) (xs : List Text) → text_in d (xs ++ d ∷ []) ≡ true
text_in-appended d [] = rw (text_eq_refl d) refl
text_in-appended d (y ∷ xs) = ground (arith, text_in-appended d xs)

text_in-add : (d x : Text) (xs : List Text) → text_in d xs ≡ true → text_in d (add x xs) ≡ true
text_in-add d x xs h = ground (arith, text_in-append d x xs)

text_in-added : (d : Text) (xs : List Text) → text_in d (add d xs) ≡ true
text_in-added d xs = ground (arith, text_in-appended d xs)

module _ (zk : Zk) (d : Text) where
  register-IsRevoked :
      (s t : Sharing) (recipient device key : Text)
      → register_device s recipient device key ≡ ok t
      → IsRevoked d s
      → IsRevoked d t
  unfolding register_device
  register-IsRevoked s t recipient device key h w =
      let (u, e1, h1) = >>=-eq-ok (text recipient) _ h in
      let (v, e2, h2) = >>=-eq-ok (text device) _ h1 in
      elim (Bool-cases (is_nonempty key)) [
        | inl n ↦
            let p : record s {
              devices = set_device v (record { recipient_id = u; public_key = key }) s.devices;
            }
                ≡ t =
              ok_injective (rw n at h2) in
            subst (IsRevoked d) p w
        | inr n ↦ absurd (cc (rw n at h2))
      ]

  wrap-IsRevoked :
      (s t : Sharing) (i : WrapInput) → wrap_for zk s i ≡ ok t → IsRevoked d s → IsRevoked d t
  unfolding wrap_for finish_wrap
  wrap-IsRevoked s t i h w =
      let (made, e1, h1) = >>=-eq-ok (begin_wrap zk s i) _ h in
      let p : finish_wrap made s ≡ t = ok_injective h1 in subst (IsRevoked d) p w

  call-IsRevoked : (s : Sharing) (c : Call zk) → IsRevoked d s → IsRevoked d (call zk s c)
  unfolding call add_member remove_member revoke_device rotate
  call-IsRevoked s (register_call recipient device key) w =
      elim (Result-cases (register_device s recipient device key)) [
        | inl (e, bad) ↦ rw bad w
        | inr (t, good) ↦ rw good (register-IsRevoked s t recipient device key good w)
      ]
  call-IsRevoked s (add_call recipient) w = elim (Result-cases (text recipient)) [
    | inl (e, bad) ↦ rw bad w
    | inr (t, good) ↦ rw good w
  ]
  call-IsRevoked s (remove_call recipient) w = elim (Result-cases (text recipient)) [
    | inl (e, bad) ↦ rw bad w
    | inr (t, good) ↦ rw good w
  ]
  call-IsRevoked s (revoke_call device) w = elim (Result-cases (text device)) [
    | inl (e, bad) ↦ rw bad w
    | inr (t, good) ↦ rw good (text_in-add d t s.revoked_devices w)
  ]
  call-IsRevoked s rotate_call w = w
  call-IsRevoked s (wrap_call i) w = elim (Result-cases (wrap_for zk s i)) [
    | inl (e, bad) ↦ rw bad w
    | inr (t, good) ↦ rw good (wrap-IsRevoked s t i good w)
  ]

  calls-IsRevoked :
      (cs : List (Call zk)) (s : Sharing) → IsRevoked d s → IsRevoked d (calls zk s cs)
  unfolding calls
  calls-IsRevoked [] s w = w
  calls-IsRevoked (c ∷ cs) s w = calls-IsRevoked cs (call zk s c) (call-IsRevoked s c w)

  revoke_device-IsRevoked : (s t : Sharing) → revoke_device s d ≡ ok t → IsRevoked d t
  unfolding revoke_device rotate
  revoke_device-IsRevoked s t h =
      let (x, e1, h1) = >>=-eq-ok (text d) _ h in
      let p : rotate (record s { revoked_devices = add x s.revoked_devices }) ≡ t =
        ok_injective h1 in
      subst (IsRevoked d) p (rw (← text-same d x e1) (text_in-added d s.revoked_devices))

  -- No wrap is made for a device after it is revoked, whatever is called in between: not even
  -- registering it again for another member brings it back.
  pub revoked_refused :
      (s t : Sharing) (cs : List (Call zk)) (i : WrapInput) (w : Wrap)
      → revoke_device s d ≡ ok t
      → i.device_id ≡ d
      → ¬ (begin_wrap zk (calls zk t cs) i ≡ ok w)
  revoked_refused s t cs i w h same made =
      let (_, _, kept) = begin_wrap_sound zk (calls zk t cs) i w made in
      let gone : IsRevoked d (calls zk t cs) =
        calls-IsRevoked cs t (revoke_device-IsRevoked s t h) in
      cc (rw (← same) at gone)

module _ (zk : Zk) where
  revoke_device-eq :
      (s t : Sharing) (d : Text)
      → revoke_device s d ≡ ok t
      → t ≡ rotate (record s { revoked_devices = add d s.revoked_devices })
  unfolding revoke_device
  revoke_device-eq s t d h =
      let (x, e1, h1) = >>=-eq-ok (text d) _ h in
      let p : rotate (record s { revoked_devices = add x s.revoked_devices }) ≡ t =
        ok_injective h1 in
      sym p ∙ rw (text-same d x e1)

  revoked_wrap :
      (s : Sharing) (i : WrapInput) (w : Wrap)
      → begin_wrap zk s i ≡ ok w
      → let u : Sharing =
          finish_wrap w
            (rotate (record s { revoked_devices = add i.device_id s.revoked_devices })) in
        (u.wraps ≡ w ∷ [])
        × (u.epoch ≡ w.epoch + 1)
        × (text_in w.device_id u.revoked_devices ≡ true)
  unfolding finish_wrap rotate
  revoked_wrap s i w h =
      let ((same_epoch, same_recipient, same_device), _, _) = begin_wrap_sound zk s i w h in
      (refl, rw same_epoch, rw same_device (text_in-added i.device_id s.revoked_devices))

  -- A wrap that is waiting for the cryptography when its device is revoked still enters the group's
  -- wraps: it is then the only one, it has the epoch before the revocation, and its device is revoked.
  pub revoked_while_waiting :
      (s t : Sharing) (i : WrapInput) (w : Wrap)
      → begin_wrap zk s i ≡ ok w
      → revoke_device s i.device_id ≡ ok t
      → ((finish_wrap w t).wraps ≡ w ∷ [])
        × ((finish_wrap w t).epoch ≡ w.epoch + 1)
        × (text_in w.device_id (finish_wrap w t).revoked_devices ≡ true)
  revoked_while_waiting s t i w h k = rw (revoke_device-eq s t i.device_id k) (revoked_wrap s i w h)
