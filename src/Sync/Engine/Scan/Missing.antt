-- ===== src/Sync/Engine/Scan/Missing.antt =====
-- When reconcileLocal takes a path of the snapshot for deleted.
use servidor_drive.Prelude.{
  ℕ, ◌≡◌, refl, ap, ◌∙◌, Bool, true, false, ◌||◌, Option, none, some, List, [], ◌∷◌, if◌then◌else◌,
  Text, text_eq, text_in, text_eq_refl, eq_of_text_eq, arith, Bool-cases, inl, inr,
}
use servidor_drive.Prelude.TextMaps.{TextMap, lookup, read_text, is_inherited}
use servidor_drive.Sync.Engine.{Indexed, is_below, rest_below, exists}
use servidor_drive.Sync.Engine.Scan.{missing_paths, scan_files, is_there, is_scanned}

some_injective : {a b : Indexed} → Path (Option Indexed) (some a) (some b) → a ≡ b
some_injective h = cc

text_in-if :
    (target path : Text) (paths : List Text) (skipped : Bool)
    → text_in target paths ≡ true
    → text_in target (if skipped then paths else path ∷ paths) ≡ true
text_in-if target path paths true h = h
text_in-if target path paths false h = ground arith

pub missing_paths-lookup :
    (target : Text) (protected : List Text) (current : TextMap Text) (index : TextMap Indexed)
    (prior : Indexed)
    → lookup target index ≡ some prior
    → prior.deleted ≡ false
    → text_in target protected ≡ false
    → is_there (read_text target current) ≡ false
    → text_in target (missing_paths protected current index) ≡ true
unfolding missing_paths lookup
missing_paths-lookup target protected current [] prior found present free gone = absurd (cc)
missing_paths-lookup target protected current ((path, entry) ∷ index) prior found present free
      gone =
    elim (Bool-cases (text_eq path target)) [
      | inl y ↦
          let here : path ≡ target = eq_of_text_eq path target y in
          let same : entry ≡ prior = some_injective (rw y at found) in
          let kept : entry.deleted ≡ false = ap (λ (i : Indexed). i.deleted) same ∙ present in
          rw here (rw free (rw kept (rw gone (rw (text_eq_refl target) refl))))
      | inr n ↦
          text_in-if target path _
            (text_in path protected || entry.deleted || is_there (read_text path current))
            (missing_paths-lookup target protected current index prior (rw n at found) present free
              gone)
    ]

is_below_self : (t : Text) → is_below t t ≡ true
unfolding is_below rest_below
is_below_self [] = refl
is_below_self (c ∷ cs) = ground (arith, is_below_self cs)

text_eq-is_below : (t path : Text) → is_below t path ≡ false → text_eq path t ≡ false
text_eq-is_below t path h = elim (Bool-cases (text_eq path t)) [
  | inr n ↦ n
  | inl y ↦ absurd (cc (h, is_below_self t, eq_of_text_eq path t y))
]

lookup-if :
    (target path hash : Text) (current : TextMap Text) (scanned : Bool)
    → text_eq path target ≡ false
    → lookup target current ≡ none
    → lookup target (if scanned then (path, hash) ∷ current else current) ≡ none
unfolding lookup
lookup-if target path hash current true n h = rw n h
lookup-if target path hash current false n h = h

exists-tail :
    (target path : Text) (c : List ℕ) (files : TextMap (List ℕ))
    → exists target ((path, c) ∷ files) ≡ false
    → (is_below target path ≡ false) × (exists target files ≡ false)
unfolding exists
exists-tail target path c files h = ground arith

pub scan_files-absent :
    (digest : List ℕ → Text) (target : Text) (files : TextMap (List ℕ))
    → exists target files ≡ false
    → lookup target (scan_files digest files) ≡ none
unfolding scan_files lookup
scan_files-absent digest target [] h = refl
scan_files-absent digest target ((path, c) ∷ files) h =
    let (n, rest) = exists-tail target path c files h in
    lookup-if target path (digest c) (scan_files digest files) (is_scanned path)
      (text_eq-is_below target path n) (scan_files-absent digest target files rest)

pub read_text-absent :
    (target : Text) (current : TextMap Text)
    → lookup target current ≡ none
    → is_inherited target ≡ false
    → is_there (read_text target current) ≡ false
unfolding read_text
read_text-absent target current h n = ground arith
