-- ===== src/Downloads/Tests.antt =====
-- Runs of the ranges and the limits, and the theorem at a concrete header.
use servidor_drive.Prelude.{◌≡◌, refl, none, some, codes, is_digit, text_eq, trim}
use servidor_drive.Downloads.{
  Numbers, ignored, invalid, range, parse_range_header, get_share_limit_state,
}
use servidor_drive.Downloads.Ranges.{IsInside, parse_range_header-IsInside}

abbrev numbers : Numbers
numbers = record { other = λ t. none }

range_tests :
    (parse_range_header numbers 100 (some (codes "bytes=10-19")) ≡ range 10 19)
    × (parse_range_header numbers 100 (some (codes "bytes=90-")) ≡ range 90 99)
    × (parse_range_header numbers 100 (some (codes "bytes=-30, 5-6")) ≡ range 70 99)
    × (parse_range_header numbers 100 (some (codes "bytes=50-500")) ≡ range 50 99)
    × (parse_range_header numbers 100 (some (codes "bytes=100-")) ≡ invalid)
    × (parse_range_header numbers 0 (some (codes "bytes=-5")) ≡ invalid)
    × (parse_range_header numbers 100 (some (codes "bytes=-0")) ≡ ignored)
    × (parse_range_header numbers 100 (some (codes "items=1-2")) ≡ ignored)
unfolding parse_range_header text_eq trim is_digit
range_tests = (refl, refl, refl, refl, refl, refl, refl, refl)

parse_range_header-IsInside_example :
    IsInside 100 (parse_range_header numbers 100 (some (codes "bytes=50-500")))
parse_range_header-IsInside_example =
    parse_range_header-IsInside numbers 100 (some (codes "bytes=50-500"))

limit_tests :
    (get_share_limit_state
      (record { max_views = 3; views = 5; max_downloads = 0; downloads = 2 })).remaining_views
    ≡ some 0
unfolding get_share_limit_state
limit_tests = refl
