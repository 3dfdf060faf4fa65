-- ===== src/Paths.antt =====
-- sync-client/rootark-sync-paths.js: the relative paths that a client accepts from the server.
pub mod Safe
pub mod Tests
use servidor_drive.Prelude.{
  ℕ, ◌+◌, Bool, true, false, not, ◌&&◌, ◌||◌, Option, none, some, List, [], ◌∷◌, ltb, leb, ◌==◌,
  if◌then◌else◌, codes, any, every, is_nonempty, utf16_length, Text, text_eq, text_in,
  to_lower_case, split, split_first,
}

abbrev pub max_path_length : ℕ
max_path_length = 512

abbrev pub internal : List Text
internal =
    codes ".rootark-trash"
    ∷ codes ".rootark-sync"
    ∷ codes ".rootark-sync-state.json"
    ∷ codes ".rootark-sync.json"
    ∷ codes ".rootark-sync-journal.json"
    ∷ codes ".rootark-sync-index.json"
    ∷ []

abbrev dos_names : List Text
dos_names =
    codes "con"
    ∷ codes "prn"
    ∷ codes "aux"
    ∷ codes "nul"
    ∷ codes "clock$"
    ∷ codes "com1"
    ∷ codes "com2"
    ∷ codes "com3"
    ∷ codes "com4"
    ∷ codes "com5"
    ∷ codes "com6"
    ∷ codes "com7"
    ∷ codes "com8"
    ∷ codes "com9"
    ∷ codes "lpt1"
    ∷ codes "lpt2"
    ∷ codes "lpt3"
    ∷ codes "lpt4"
    ∷ codes "lpt5"
    ∷ codes "lpt6"
    ∷ codes "lpt7"
    ∷ codes "lpt8"
    ∷ codes "lpt9"
    ∷ []

-- The flag `i` without `u` joins no letter of ASCII with another character than its other case.
unfoldable pub ascii_lower : Text → Text
ascii_lower [] = []
ascii_lower (c ∷ cs) = (if leb b'A' c && leb c b'Z' then c + 32 else c) ∷ ascii_lower cs

-- What `.` does not match.
abbrev is_line_end : ℕ → Bool
is_line_end c = c == 10 || c == 13 || c == 0x2028 || c == 0x2029

abbrev has_line_end : List Text → Bool
has_line_end pieces = any (λ piece. any is_line_end piece) pieces

-- DOS_RESERVED: a device's name, alone or before a dot.
unfoldable pub is_dos_reserved : Text → Bool
unfolding ascii_lower split_first
is_dos_reserved segment =
    let (base, rest) = split_first b'.' segment in
    text_in (ascii_lower base) dos_names && not (has_line_end rest)

unfoldable pub is_internal : Text → Bool
unfolding to_lower_case
is_internal segment = text_in (to_lower_case segment) internal

-- `/[. ]$/`
unfoldable pub ends_badly : Text → Bool
ends_badly [] = false
ends_badly (c ∷ []) = c == b'.' || c == b' '
ends_badly (c ∷ d ∷ cs) = ends_badly (d ∷ cs)

abbrev is_control : ℕ → Bool
is_control c = leb c 31 || c == 127

abbrev starts_with_slash : Text → Bool
starts_with_slash [] = false
starts_with_slash (c ∷ cs) = c == b'/'

unfoldable pub is_bad_segment : Text → Bool
unfolding is_internal is_dos_reserved ends_badly
is_bad_segment segment =
    not (is_nonempty segment)
    || text_eq segment (codes ".")
    || text_eq segment (codes "..")
    || is_internal segment
    || is_dos_reserved segment
    || ends_badly segment

-- `none` where it throws; 0x5c is the backslash. A drive letter is followed by a colon, which is refused wherever it stands.
unfoldable pub validate_portable_relative_path : Text → Option Text
unfolding is_bad_segment split
validate_portable_relative_path text =
    if not (is_nonempty text)
      || ltb max_path_length (utf16_length text)
      || any (λ c. c == b'%') text
      || any (λ c. c == 0x5c) text
      || any (λ c. c == b':') text
      || starts_with_slash text
    then none
    else if any is_control text
    then none
    else if any is_bad_segment (split b'/' text)
    then none
    else some text

unfoldable pub is_internal_relative_path : Text → Bool
unfolding validate_portable_relative_path
is_internal_relative_path value = elim (validate_portable_relative_path value) [
  | none ↦ false
  | some text ↦ any is_internal (split b'/' text)
]
