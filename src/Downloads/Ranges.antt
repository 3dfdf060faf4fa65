-- ===== src/Downloads/Ranges.antt =====
-- Which bytes a range may name.
use servidor_drive.Prelude.{
  ℕ, zero, suc, ◌-◌, ◌≤◌, ◌<◌, ◌||◌, Option, none, some, leb, ltb, ◌==◌, Text, text_eq, is_nonempty,
  take, drop, trim, split_first, arith, Bool-cases, inl, inr,
}
use servidor_drive.Downloads.{
  Numbers, ByteRange, ignored, invalid, range, within, suffix_range, plain_range,
  parse_range_header, end_of, two_parts, bytes_prefix, number,
}

abbrev pub IsInside : ℕ → ByteRange → Type 0
IsInside size ignored = Unit {0}
IsInside size invalid = Unit {0}
IsInside size (range start end) = (start ≤ end) × (end < size)

within-IsInside : (size start end : ℕ) → IsInside size (within size start end)
unfolding within
within-IsInside size start end = elim (Bool-cases (ltb end start || leb size start)) [
  | inl t ↦ rw t tt
  | inr f ↦ rw f (ground arith, ground arith)
]

module _ (numbers : Numbers) (size : ℕ) where
  suffix_range-IsInside : (n : Option ℕ) → IsInside size (suffix_range numbers size n)
  unfolding suffix_range
  suffix_range-IsInside none = tt
  suffix_range-IsInside (some zero) = tt
  suffix_range-IsInside (some (suc n)) = elim (Bool-cases (size == 0)) [
    | inl t ↦ rw t tt
    | inr f ↦ rw f (within-IsInside size (size - suc n) (size - 1))
  ]

  plain_range-IsInside : (start end : Option ℕ) → IsInside size (plain_range numbers size start end)
  unfolding plain_range
  plain_range-IsInside none end = tt
  plain_range-IsInside (some start) none = tt
  plain_range-IsInside (some start) (some end) = within-IsInside size start end

  -- A range that is answered is not empty and lies within the file, whatever the header says.
  pub parse_range_header-IsInside :
      (header : Option Text) → IsInside size (parse_range_header numbers size header)
  unfolding parse_range_header
  parse_range_header-IsInside none = tt
  parse_range_header-IsInside (some header) =
      let (raw_start, raw_end) = two_parts (trim (split_first b',' (drop 6 header)).0) in
      elim (Bool-cases (text_eq (take 6 header) bytes_prefix)) [
        | inr f ↦ rw f tt
        | inl t ↦ elim (Bool-cases (is_nonempty raw_start)) [
          | inl y ↦
              rw t (
                rw y
                  (plain_range-IsInside (number numbers raw_start) (end_of numbers size raw_end)))
          | inr n ↦ rw t (rw n (suffix_range-IsInside (number numbers raw_end)))
        ]
      ]
