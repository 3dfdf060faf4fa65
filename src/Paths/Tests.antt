-- ===== src/Paths/Tests.antt =====
-- Runs of the path checks, and the theorems at concrete inputs.
use servidor_drive.Prelude.{◌≡◌, refl, false, none, some, [], ◌∷◌, codes, split, text_eq}
use servidor_drive.Paths.{validate_portable_relative_path, is_internal_relative_path}
use servidor_drive.Paths.Safe.{
  follow, validate_portable_relative_path-follow, is_internal_relative_path-never,
}

path_tests :
    (validate_portable_relative_path (codes "docs/a.txt") ≡ some (codes "docs/a.txt"))
    × (validate_portable_relative_path (codes "docs/../a.txt") ≡ none)
    × (validate_portable_relative_path (codes "/docs") ≡ none)
    × (validate_portable_relative_path (codes "C:x") ≡ none)
    × (validate_portable_relative_path (codes "a/Con.txt") ≡ none)
    × (validate_portable_relative_path (codes "a/.RootArk-Sync") ≡ none)
    × (validate_portable_relative_path (codes "a/b. ") ≡ none)
unfolding validate_portable_relative_path text_eq
path_tests = (refl, refl, refl, refl, refl, refl, refl)

validate_portable_relative_path-follow_example :
    (codes "docs/a.txt" ≡ codes "docs/a.txt")
    × (follow (codes "home" ∷ []) (split b'/' (codes "docs/a.txt"))
        ≡ codes "home" ∷ split b'/' (codes "docs/a.txt"))
validate_portable_relative_path-follow_example =
    validate_portable_relative_path-follow (codes "home" ∷ []) (codes "docs/a.txt")
      (codes "docs/a.txt") path_tests.0

is_internal_relative_path-never_example : is_internal_relative_path (codes ".rootark-sync") ≡ false
is_internal_relative_path-never_example = is_internal_relative_path-never (codes ".rootark-sync")
