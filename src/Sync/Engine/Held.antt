-- ===== src/Sync/Engine/Held.antt =====
-- The contents of the files of the sync client's folder and of its trash, over a staging and a rename.
use servidor_drive.Prelude.{
  ℕ, ◌≡◌, refl, true, false, arith, ◌⊎◌, not, ◌||◌, List, [], ◌∷◌, ◌++◌, keep, map, Text,
  Bool-cases, inl, inr,
}
use servidor_drive.Prelude.TextMaps.{TextMap}
use servidor_drive.Sync.Engine.{replaced, Folder, is_below, exists, stage_existing, rename, renamed}

-- A content is that of a file.
abbrev pub IsIn : List ℕ → TextMap (List ℕ) → Type 0
IsIn content [] = ⊥
IsIn content ((path, c) ∷ files) = (content ≡ c) ⊎ IsIn content files

abbrev pub IsHeld : List ℕ → Folder → Type 0
IsHeld content folder = IsIn content folder.files ⊎ IsIn content folder.trash

abbrev pub IsKept : Folder → Folder → Type 0
IsKept before after = (content : List ℕ) → IsHeld content before → IsHeld content after

append-IsIn_left : (c : List ℕ) (fs gs : TextMap (List ℕ)) → IsIn c fs → IsIn c (fs ++ gs)
append-IsIn_left c [] gs h = elim h [ ]
append-IsIn_left c (f ∷ fs) gs (inl here) = inl here
append-IsIn_left c (f ∷ fs) gs (inr there) = inr (append-IsIn_left c fs gs there)

append-IsIn_right : (c : List ℕ) (fs gs : TextMap (List ℕ)) → IsIn c gs → IsIn c (fs ++ gs)
append-IsIn_right c [] gs h = h
append-IsIn_right c (f ∷ fs) gs h = inr (append-IsIn_right c fs gs h)

map-IsIn :
    (c : List ℕ) (source target : Text) (fs : TextMap (List ℕ))
    → IsIn c fs
    → IsIn c (map (renamed source target) fs)
map-IsIn c source target [] h = elim h [ ]
map-IsIn c source target ((path, d) ∷ fs) (inl here) = inl here
map-IsIn c source target (f ∷ fs) (inr there) = inr (map-IsIn c source target fs there)

abbrev IsSplit : List ℕ → TextMap (List ℕ) → TextMap (List ℕ) → Type 0
IsSplit c kept taken = IsIn c kept ⊎ IsIn c taken

taken_more :
    (c d : List ℕ) (path : Text) (kept taken : TextMap (List ℕ))
    → IsSplit c kept taken
    → IsSplit c kept ((path, d) ∷ taken)
taken_more c d path kept taken (inl k) = inl k
taken_more c d path kept taken (inr t) = inr (inr t)

kept_more :
    (c d : List ℕ) (path : Text) (kept taken : TextMap (List ℕ))
    → IsSplit c kept taken
    → IsSplit c ((path, d) ∷ kept) taken
kept_more c d path kept taken (inl k) = inl (inr k)
kept_more c d path kept taken (inr t) = inr t

keep-IsIn :
    (c : List ℕ) (t : Text) (fs : TextMap (List ℕ))
    → IsIn c fs
    → IsSplit c (keep (λ f. not (is_below t f.0)) fs) (keep (λ f. is_below t f.0) fs)
keep-IsIn c t [] h = elim h [ ]
keep-IsIn c t ((path, d) ∷ fs) (inl here) = elim (Bool-cases (is_below t path)) [
  | inl y ↦ rw (y, keep) (inr (inl here))
  | inr n ↦ rw (n, keep) (inl (inl here))
]
keep-IsIn c t ((path, d) ∷ fs) (inr there) =
    let split = keep-IsIn c t fs there in
    elim (Bool-cases (is_below t path)) [
      | inl y ↦ rw (y, keep) (taken_more c d path _ _ split)
      | inr n ↦ rw (n, keep) (kept_more c d path _ _ split)
    ]

pub stage_existing-IsKept :
    (target : Text) (folder : Folder) → IsKept folder (stage_existing target folder)
unfolding stage_existing
stage_existing-IsKept target folder c (inl file) = elim (keep-IsIn c target folder.files file) [
  | inl kept ↦ inl kept
  | inr taken ↦ inr (append-IsIn_right c folder.trash _ taken)
]
stage_existing-IsKept target folder c (inr old) = inr (append-IsIn_left c folder.trash _ old)

-- Once it is staged, nothing stands at the target.
pub exists-replaced :
    (target : Text) (files : TextMap (List ℕ))
    → exists target (keep (λ f. not (is_below target f.0)) files) ≡ false
unfolding exists
exists-replaced target [] = refl
exists-replaced target ((path, c) ∷ files) = ground (arith, exists-replaced target files)

-- Where nothing stands at the target, nothing is replaced.
rest_free :
    (target path : Text) (d : List ℕ) (fs : TextMap (List ℕ))
    → exists target ((path, d) ∷ fs) ≡ false
    → (is_below target path ≡ false) × (exists target fs ≡ false)
unfolding exists
rest_free target path d fs free = ground arith

replaced-IsIn :
    (c : List ℕ) (target : Text) (fs : TextMap (List ℕ))
    → exists target fs ≡ false
    → IsIn c fs
    → IsIn c (replaced target fs)
unfolding replaced
replaced-IsIn c target [] free h = elim h [ ]
replaced-IsIn c target ((path, d) ∷ fs) free (inl here) =
    rw ((rest_free target path d fs free).0, keep) (inl here)
replaced-IsIn c target ((path, d) ∷ fs) free (inr there) =
    let (other, rest) = rest_free target path d fs free in
    rw (other, keep) (inr (replaced-IsIn c target fs rest there))

moved_over-IsIn :
    (c : List ℕ) (source target : Text) (fs : TextMap (List ℕ))
    → exists target fs ≡ false
    → IsIn c fs
    → IsIn c (keep (λ f. is_below source f.0 || not (is_below target f.0)) fs)
moved_over-IsIn c source target [] free h = elim h [ ]
moved_over-IsIn c source target ((path, d) ∷ fs) free h =
    let (other, rest) = rest_free target path d fs free in
    let stays : (is_below source path || not (is_below target path)) ≡ true = ground arith in
    rw (stays, keep)
      (elim h [
        | inl here ↦ inl here
        | inr there ↦ inr (moved_over-IsIn c source target fs rest there)
      ])

pub rename-IsKept :
    (source target : Text) (folder : Folder)
    → exists target folder.files ≡ false
    → IsKept folder (record folder { files = rename source target folder.files })
unfolding rename
rename-IsKept source target folder free c (inl file) =
    inl (map-IsIn c source target _ (moved_over-IsIn c source target folder.files free file))
rename-IsKept source target folder free c (inr old) = inr old

pub added_file :
    (target : Text) (plaintext : List ℕ) (folder : Folder)
    → exists target folder.files ≡ false
    → IsKept folder (record folder { files = (target, plaintext) ∷ replaced target folder.files })
added_file target plaintext folder free c (inl file) =
    inl (inr (replaced-IsIn c target folder.files free file))
added_file target plaintext folder free c (inr old) = inr old
