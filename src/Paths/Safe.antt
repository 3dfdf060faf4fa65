-- ===== src/Paths/Safe.antt =====
-- Where an accepted path leads.
use servidor_drive.Prelude.{
  ◌≡◌, refl, ◌∙◌, false, not, ◌||◌, some, List, [], ◌∷◌, ◌++◌, if◌then◌else◌, codes, any,
  is_nonempty, Text, text_eq, split, arith, Option-cases, inl, inr,
}
use servidor_drive.Paths.{
  is_internal, is_bad_segment, validate_portable_relative_path, is_internal_relative_path,
}

-- How a system follows a path from a folder, given by the names from the top: an empty name and `.`
-- stay, `..` goes up, and any other name goes down.
abbrev pub parent : List Text → List Text
parent [] = []
parent (d ∷ []) = []
parent (d ∷ e ∷ ds) = d ∷ parent (e ∷ ds)

abbrev pub follow : List Text → List Text → List Text
follow folder [] = folder
follow folder (s ∷ ss) =
    let stay = follow folder ss in
    let up = follow (parent folder) ss in
    let down = follow (folder ++ s ∷ []) ss in
    if not (is_nonempty s) || text_eq s (codes ".")
    then stay
    else if text_eq s (codes "..")
    then up
    else down

append_assoc : (xs ys zs : List Text) → (xs ++ ys) ++ zs ≡ xs ++ (ys ++ zs)
append_assoc [] ys zs = refl
append_assoc (x ∷ xs) ys zs = rw (append_assoc xs ys zs)

append_nil : (xs : List Text) → xs ++ [] ≡ xs
append_nil [] = refl
append_nil (x ∷ xs) = rw (append_nil xs)

follow_good :
    (folder ss : List Text) → any is_bad_segment ss ≡ false → follow folder ss ≡ folder ++ ss
unfolding is_bad_segment
follow_good folder [] h = rw (append_nil folder)
follow_good folder (s ∷ ss) h =
    let no_stay : (not (is_nonempty s) || text_eq s (codes ".")) ≡ false = ground arith in
    let no_up : text_eq s (codes "..") ≡ false = ground arith in
    rw no_stay (
      rw no_up (follow_good (folder ++ s ∷ []) ss (ground arith) ∙ append_assoc folder (s ∷ []) ss))

pub accepted :
    (text t : Text)
    → validate_portable_relative_path text ≡ some t
    → (text ≡ t) × (any is_bad_segment (split b'/' text) ≡ false)
unfolding validate_portable_relative_path
accepted text t h = ground arith

-- An accepted path is taken as it stands, and leads from any folder to the place below it that its names
-- spell, one level for each: it cannot lead out of the folder.
pub validate_portable_relative_path-follow :
    (folder : List Text) (text t : Text)
    → validate_portable_relative_path text ≡ some t
    → (text ≡ t) × (follow folder (split b'/' t) ≡ folder ++ split b'/' t)
validate_portable_relative_path-follow folder text t h =
    let (same, good) = accepted text t h in
    (same, follow_good folder (split b'/' t) (rw (← same) good))

no_internal : (ss : List Text) → any is_bad_segment ss ≡ false → any is_internal ss ≡ false
unfolding is_bad_segment
no_internal [] h = refl
no_internal (s ∷ ss) h = ground (arith, no_internal ss)

-- The test for a client's own files is false of every path: it asks it of an accepted path, and no path
-- with such a name is accepted.
pub is_internal_relative_path-never : (value : Text) → is_internal_relative_path value ≡ false
unfolding is_internal_relative_path
is_internal_relative_path-never value =
    elim (Option-cases (validate_portable_relative_path value)) [
      | inl refused ↦ rw (refused, is_internal_relative_path) refl
      | inr (t, h) ↦
          let (same, good) = accepted value t h in
          rw (h, is_internal_relative_path) (no_internal (split b'/' t) (rw (← same) good))
    ]
