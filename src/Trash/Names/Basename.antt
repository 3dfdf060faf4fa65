-- ===== src/Trash/Names/Basename.antt =====
-- A name that `safe_name` gives has no slash, and `safe_name` keeps such a name.
use servidor_drive.Prelude.{
  ℕ, ◌≡◌, refl, ap, ◌∙◌, Bool, true, not, [], ◌∷◌, reverse, every, ◌==◌, Text, arith,
}
use mathlib.Core.List.{reverse_aux, reverse-reverse}
use servidor_drive.Trash.Names.{safe_name, strip_slashes, until_slash, target_of, entry}

abbrev is_plain : ℕ → Bool
is_plain c = not (c == b'/')

abbrev pub NoSlash : Text → Type 0
NoSlash t = every is_plain t ≡ true

every-reverse_aux : (s t : Text) → NoSlash s → NoSlash t → NoSlash (reverse_aux s t)
every-reverse_aux [] t hs ht = ht
every-reverse_aux (c ∷ s) t hs ht = every-reverse_aux s (c ∷ t) (ground arith) (ground arith)

until_slash-NoSlash : (s : Text) → NoSlash (until_slash s)
unfolding until_slash
until_slash-NoSlash [] = refl
until_slash-NoSlash (c ∷ s) = ground (arith, until_slash-NoSlash s)

until_slash-plain : (s : Text) → NoSlash s → until_slash s ≡ s
unfolding until_slash
until_slash-plain [] h = refl
until_slash-plain (c ∷ s) h = ground (arith, until_slash-plain s)

strip_slashes-plain : (s : Text) → NoSlash s → strip_slashes s ≡ s
unfolding strip_slashes
strip_slashes-plain [] h = refl
strip_slashes-plain (c ∷ s) h = ground arith

pub safe_name-NoSlash : (s : Text) → NoSlash (safe_name s)
unfolding safe_name
safe_name-NoSlash s =
    every-reverse_aux (until_slash (strip_slashes (reverse s))) []
      (until_slash-NoSlash (strip_slashes (reverse s))) refl

pub safe_name-plain : (s : Text) → NoSlash s → safe_name s ≡ s
unfolding safe_name
safe_name-plain s h =
    let back = every-reverse_aux s [] h refl in
    ap (λ (t : Text). reverse (until_slash t)) (strip_slashes-plain (reverse s) back)
    ∙ ap reverse (until_slash-plain (reverse s) back)
    ∙ reverse-reverse s

pub safe_name_twice : (s : Text) → safe_name (safe_name s) ≡ safe_name s
safe_name_twice s = safe_name-plain (safe_name s) (safe_name-NoSlash s)

pub target_of-entry : (t n : Text) → target_of t ≡ entry n → n ≡ t
unfolding target_of
target_of-entry [] n h = absurd (cc)
target_of-entry (c ∷ cs) n h = ground arith
