-- ===== src/Trash/Names.antt =====
-- File names: `safeName` of services/trashService.js, which is `path.basename` on POSIX systems, and
-- the parts of a name that `path.parse` gives.
pub mod Free
pub mod Basename
use servidor_drive.Prelude.{
  ℕ, zero, suc, ◌+◌, Bool, true, Option, none, some, List, [], ◌∷◌, ◌++◌, reverse, ◌==◌, ltb,
  length, if◌then◌else◌, Text, text_eq, text_in, is_nonempty, codes, decimal,
}

strip_slashes : Text → Text
strip_slashes [] = []
strip_slashes (c ∷ cs) = let rest = strip_slashes cs in if c == b'/' then rest else c ∷ cs

until_slash : Text → Text
until_slash [] = []
until_slash (c ∷ cs) = let rest = until_slash cs in if c == b'/' then [] else c ∷ rest

unfoldable pub safe_name : Text → Text
unfolding strip_slashes until_slash
safe_name name = reverse (until_slash (strip_slashes (reverse name)))

-- A reversed name that is cut at its last dot: the extension with its dot, and what precedes it. The
-- extension is empty where there is no dot or nothing precedes it.
unfoldable pub cut_at_dot : Text → Text → Text × Text
cut_at_dot ext [] = ([], [])
cut_at_dot ext (c ∷ cs) =
    let rest = cut_at_dot (c ∷ ext) cs in
    if c == b'.' then if is_nonempty cs then (cs, c ∷ ext) else ([], []) else rest

-- `path.parse(name)` of a name without a slash: its name and its extension.
unfoldable pub parse_name : Text → Text × Text
unfolding cut_at_dot
parse_name name =
    let (stem, ext) = cut_at_dot [] (reverse name) in
    if text_eq name (b'.' ∷ b'.' ∷ [])
    then (name, [])
    else if is_nonempty ext
    then (reverse stem, ext)
    else (name, [])

abbrev dot : Text
dot = b'.' ∷ []

-- What a name stands for below a directory: the directory itself, its parent, or an entry.
pub data Target : Type 0 where
  itself parent : Target
  entry : Text → Target

unfoldable pub target_of : Text → Target
target_of [] = itself
target_of (c ∷ cs) =
    if text_eq (c ∷ cs) dot
    then itself
    else if text_eq (c ∷ cs) (b'.' ∷ b'.' ∷ [])
    then parent
    else entry (c ∷ cs)

unfoldable pub numbered : ℕ → Text
unfolding decimal
numbered index = if ltb 1 index then b' ' ∷ decimal index else []

-- `${parsed.name} (restored${index > 1 ? ` ${index}` : ""})${parsed.ext}`
unfoldable pub restored_candidate : Text → ℕ → Text
unfolding parse_name numbered
restored_candidate name index =
    let (stem, ext) = parse_name name in
    stem ++ (codes " (restored" ++ (numbered index ++ (b')' ∷ ext)))

-- `fs.existsSync(path.join(dir, name))` for a directory that exists
unfoldable pub exists : Text → List Text → Bool
unfolding target_of
exists name names = elim (target_of name) [ entry n ↦ text_in n names | _ ↦ true ]

-- The loop of getAvailableRestoreName, on fuel.
unfoldable pub available_from : ℕ → List Text → Text → (index : ℕ) (candidate : Text) → Option Text
available_from zero names name index candidate = none
available_from (suc fuel) names name index candidate =
    let rest = available_from fuel names name (index + 1) (restored_candidate name index) in
    if exists candidate names then rest else some candidate

unfoldable pub get_available_restore_name : List Text → Text → Option Text
unfolding available_from safe_name
get_available_restore_name names original =
    available_from (length names + 2) names (safe_name original) 1 (safe_name original)
