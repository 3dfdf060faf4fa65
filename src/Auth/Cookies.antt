-- ===== src/Auth/Cookies.antt =====
-- `parseCookies` of src/middlewares/auth.js.
use servidor_drive.Prelude.{
  ◌≡◌, refl, ◌∙◌, Bool, true, false, not, ◌||◌, Option, none, some, List, [], ◌∷◌, map,
  if◌then◌else◌, ◌==◌, arith, Text, trim, split, text_eq, text_eq_refl, eq_of_text_eq, is_nonempty,
  Bool-cases, inl, inr,
}

-- `part.split(/=(.*)/s, 2)`: what stands before the first `=`, and what stands after it.
unfoldable pub split_pair : Text → Text × Option Text
split_pair [] = ([], none)
split_pair (c ∷ cs) =
    let (key, value) = split_pair cs in if c == b'=' then ([], some cs) else (c ∷ key, value)

-- A cookie object: the names that are there, each with its value or `undefined`.
abbrev pub Cookies : Type 0
Cookies = List (Text × Option Text)

unfoldable pub has : Text → Cookies → Bool
has k [] = false
has k ((j, v) ∷ cs) = text_eq j k || has k cs

unfoldable pub value_of : Text → Cookies → Option Text
value_of k [] = none
value_of k ((j, v) ∷ cs) = if text_eq j k then v else value_of k cs

unfoldable pub assign : Text → Option Text → Cookies → Cookies
assign k v [] = (k, v) ∷ []
assign k v ((j, w) ∷ cs) = if text_eq j k then (j, v) ∷ cs else (j, w) ∷ assign k v cs

-- One round of the loop: an empty name, or one that is there already, is set to `undefined`.
unfoldable pub add_cookie : Text × Option Text → Cookies → Cookies
unfolding has assign
add_cookie (key, value) cookies =
    assign key (if not (is_nonempty key) || has key cookies then none else value) cookies

unfoldable pub add_cookies : List (Text × Option Text) → Cookies → Cookies
unfolding add_cookie
add_cookies [] cookies = cookies
add_cookies (pair ∷ pairs) cookies = add_cookies pairs (add_cookie pair cookies)

unfoldable pub parse_cookies : Text → Cookies
unfolding add_cookies split_pair split trim
parse_cookies header = add_cookies (map (λ part. split_pair (trim part)) (split b';' header)) []

-- The independent description: the value of a name is that of its one pair, if it has just one.
abbrev pub values_for : Text → List (Text × Option Text) → List (Option Text)
values_for k [] = []
values_for k ((j, v) ∷ pairs) =
    let rest = values_for k pairs in if text_eq j k then v ∷ rest else rest

abbrev pub only : List (Option Text) → Option Text
only [] = none
only (v ∷ []) = v
only (v ∷ w ∷ vs) = none

module _ (k : Text) (named : is_nonempty k ≡ true) where
  value_of-assign :
      (j : Text) (v : Option Text) (cs : Cookies)
      → value_of k (assign j v cs) ≡ (if text_eq j k then v else value_of k cs)
  unfolding value_of assign
  value_of-assign j v [] = refl
  value_of-assign j v ((i, w) ∷ cs) = ground (
    arith,
    value_of-assign j v cs,
    eq_of_text_eq i j,
    eq_of_text_eq i k,
    eq_of_text_eq j k,
    text_eq_refl j,
  )

  has-assign :
      (j : Text) (v : Option Text) (cs : Cookies)
      → has k (assign j v cs) ≡ (text_eq j k || has k cs)
  unfolding has assign
  has-assign j v [] = refl
  has-assign j v ((i, w) ∷ cs) = ground (
    arith,
    has-assign j v cs,
    eq_of_text_eq i j,
    eq_of_text_eq i k,
    eq_of_text_eq j k,
    text_eq_refl j,
  )

  abbrev shown : Option Text → List (Option Text) → Option Text
  shown v [] = v
  shown v (_ ∷ _) = none

  shown_lem : (v : Option Text) (vs : List (Option Text)) → shown v vs ≡ only (v ∷ vs)
  shown_lem v [] = refl
  shown_lem v (w ∷ vs) = refl

  value_of-add_cookie :
      (j : Text) (v : Option Text) (cs : Cookies)
      → value_of k (add_cookie (j, v) cs)
        ≡ (if text_eq j k then (if has k cs then none else v) else value_of k cs)
  unfolding add_cookie
  value_of-add_cookie j v cs = rw (value_of-assign j _ cs) (ground (arith, eq_of_text_eq j k))

  has-add_cookie :
      (j : Text) (v : Option Text) (cs : Cookies)
      → has k (add_cookie (j, v) cs) ≡ (text_eq j k || has k cs)
  unfolding add_cookie
  has-add_cookie j v cs = has-assign j _ cs

  -- Once the name is there, each further pair for it leaves `undefined`.
  value_of-add_cookies_seen :
      (pairs : List (Text × Option Text)) (cs : Cookies)
      → has k cs ≡ true
      → value_of k (add_cookies pairs cs) ≡ shown (value_of k cs) (values_for k pairs)
  unfolding add_cookies
  value_of-add_cookies_seen [] cs h = refl
  value_of-add_cookies_seen ((j, v) ∷ pairs) cs h =
      value_of-add_cookies_seen pairs (add_cookie (j, v) cs)
        (rw (has-add_cookie j v cs) (ground arith))
      ∙ ground (arith, value_of-add_cookie j v cs)

  value_of-add_cookies :
      (pairs : List (Text × Option Text)) (cs : Cookies)
      → has k cs ≡ false
      → value_of k cs ≡ none
      → value_of k (add_cookies pairs cs) ≡ only (values_for k pairs)
  unfolding add_cookies
  value_of-add_cookies [] cs h e = e
  value_of-add_cookies ((j, v) ∷ pairs) cs h e = elim (Bool-cases (text_eq j k)) [
    | inl t ↦
        value_of-add_cookies_seen pairs (add_cookie (j, v) cs)
          (rw (has-add_cookie j v cs) (ground arith))
        ∙ rw (value_of-add_cookie j v cs) (rw (t, h) (shown_lem v (values_for k pairs)))
    | inr f ↦
        value_of-add_cookies pairs (add_cookie (j, v) cs)
          (rw (has-add_cookie j v cs) (ground arith)) (rw (value_of-add_cookie j v cs) (rw f e))
        ∙ rw f
  ]

-- A cookie has a value only if the header names it once: a name that is sent twice reads as absent,
-- so that no second pair can replace the first.
pub parse_cookies-only :
    (header k : Text)
    → is_nonempty k ≡ true
    → value_of k (parse_cookies header)
      ≡ only (values_for k (map (λ part. split_pair (trim part)) (split b';' header)))
unfolding parse_cookies
parse_cookies-only header k named =
    value_of-add_cookies k named (map (λ part. split_pair (trim part)) (split b';' header)) []
      (unfold has in refl) (unfold value_of in refl)
