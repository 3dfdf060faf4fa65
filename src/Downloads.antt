-- ===== src/Downloads.antt =====
-- Of server.js: the range of bytes that a download answers, and the limits of a shared link.
pub mod Ranges
pub mod Tests
use servidor_drive.Prelude.Decimal.{spelled}
use servidor_drive.Prelude.{
  ℕ, zero, suc, ◌+◌, ◌-◌, ◌*◌, min, Bool, true, false, not, ◌&&◌, ◌||◌, Option, none, some, List,
  [], ◌∷◌, every, leb, ltb, ◌==◌, if◌then◌else◌, codes, drop, take, is_digit, is_nonempty,
  split_first, trim, Text, text_eq,
}

-- `Number(text)`, as far as the range looks at it: a whole number from 0 on, or not one. Digits spell
-- their number and nothing is 0; the other forms of the language (an exponent, a fraction, another base)
-- are left to `other`.
pub record Numbers : Type 0 where
  pub other : Text → Option ℕ

unfoldable pub number : Numbers → Text → Option ℕ
number numbers s =
    let t = trim s in
    if not (is_nonempty t)
    then some 0
    else if every is_digit t
    then some (spelled 0 t)
    else numbers.other t

pub data ByteRange : Type 0 where
  ignored invalid : ByteRange
  range : ℕ → ℕ → ByteRange

abbrev pub bytes_prefix : Text
bytes_prefix = codes "bytes="

-- `split("-")` with its first two parts.
unfoldable pub two_parts : Text → Text × Text
unfolding split_first
two_parts s =
    let (first, rest) = split_first b'-' s in
    elim rest [ [] ↦ (first, []) | second ∷ more ↦ (first, second) ]

-- The tests on both ends, and the cut to the size.
unfoldable pub within : ℕ → ℕ → ℕ → ByteRange
within size start end =
    if ltb end start || leb size start then invalid else range start (min end (size - 1))

module _ (numbers : Numbers) (size : ℕ) where
  -- `bytes=-n`: the last n bytes. With no bytes at all the end is before the start.
  unfoldable pub suffix_range : Option ℕ → ByteRange
  unfolding within
  suffix_range none = ignored
  suffix_range (some zero) = ignored
  suffix_range (some (suc n)) = if size == 0 then invalid else within size (size - suc n) (size - 1)

  abbrev pub end_of : Text → Option ℕ
  end_of [] = if size == 0 then none else some (size - 1)
  end_of (c ∷ cs) = number numbers (c ∷ cs)

  unfoldable pub plain_range : Option ℕ → Option ℕ → ByteRange
  unfolding within
  plain_range none end = invalid
  plain_range (some start) none = invalid
  plain_range (some start) (some end) = within size start end

  unfoldable pub parse_range_header : Option Text → ByteRange
  unfolding suffix_range plain_range two_parts split_first number
  parse_range_header none = ignored
  parse_range_header (some header) =
      if text_eq (take 6 header) bytes_prefix
      then (let (raw_start, raw_end) = two_parts (trim (split_first b',' (drop 6 header)).0) in
          if is_nonempty raw_start
          then plain_range (number numbers raw_start) (end_of raw_end)
          else suffix_range (number numbers raw_end))
      else ignored

-- The limits of a stored link; a count that is missing or no number is 0.
pub record Link : Type 0 where
  pub max_views : ℕ
  pub views : ℕ
  pub max_downloads : ℕ
  pub downloads : ℕ

pub record LimitState : Type 0 where
  pub max_views : ℕ
  pub views : ℕ
  pub max_downloads : ℕ
  pub downloads : ℕ
  pub remaining_views : Option ℕ
  pub remaining_downloads : Option ℕ

abbrev remaining : ℕ → ℕ → Option ℕ
remaining zero used = none
remaining (suc n) used = some (suc n - used)

unfoldable pub get_share_limit_state : Link → LimitState
get_share_limit_state link = record {
  max_views = link.max_views;
  views = link.views;
  max_downloads = link.max_downloads;
  downloads = link.downloads;
  remaining_views = remaining link.max_views link.views;
  remaining_downloads = remaining link.max_downloads link.downloads;
}
