-- ===== src/Sync/Engine/Kept.antt =====
-- What was in the folder before apply is in it or in its trash afterwards.
use servidor_drive.Prelude.{
  ℕ, ◌≡◌, refl, ap, false, ◌||◌, List, Text, Result, ok, err, Bool-cases, inl, inr,
}
use mathlib.Core.Path.{subst}
use servidor_drive.Sync.Operation.{OperationKind, create, update, move, delete}
use servidor_drive.Sync.Header.{is_delete}
use servidor_drive.Sync.Envelope.{SyncOperation}
use servidor_drive.Sync.Sealing.{Aead}
use servidor_drive.Sync.Engine.{
  Folder, Engine, EngineError, EngineOptions, DiskAnswers, exists, stage_existing,
}
use servidor_drive.Sync.Engine.Held.{
  IsKept, stage_existing-IsKept, exists-replaced, rename-IsKept, added_file,
}
use servidor_drive.Sync.Engine.Apply.{
  Step, then_step, staged, made, saved, put_source, put_file, write_file, is_directory, placed,
  changed, apply_delete, apply_move, apply_file, apply_kind, moved_from, move_source, apply_opened,
  opened_for_apply, apply,
}

-- Each step keeps what is held.
abbrev IsKeptBy : Engine → Step → Type 0
IsKeptBy e step = IsKept e.folder step.1.folder

same_folder : (folder : Folder) → IsKept folder folder
same_folder folder c h = h

then_step-IsKeptBy :
    (e : Engine) (step : Step) (next : Engine → Step)
    → IsKeptBy e step
    → ((f : Engine) → step ≡ (ok tt, f) → IsKeptBy f (next f))
    → IsKeptBy e (then_step step next)
then_step-IsKeptBy e (ok u, f) next h k c held = k f refl c (h c held)
then_step-IsKeptBy e (err x, f) next h k c held = h c held

staged-IsKeptBy :
    (disk : DiskAnswers) (target : Text) (e : Engine) → IsKeptBy e (staged disk target e)
staged-IsKeptBy disk target e = elim (Bool-cases (exists target e.folder.files)) [
  | inr n ↦ rw n (same_folder e.folder)
  | inl y ↦ rw y (elim (Bool-cases disk.is_staged) [
    | inl s ↦ rw s (stage_existing-IsKept target e.folder)
    | inr f ↦ rw f (same_folder e.folder)
  ])
]

-- Once staged, nothing stands at the target.
staged-free :
    (disk : DiskAnswers) (target : Text) (e mid : Engine)
    → staged disk target e ≡ (ok tt, mid)
    → exists target mid.folder.files ≡ false
unfolding stage_existing
staged-free disk target e mid h = elim (Bool-cases (exists target e.folder.files)) [
  | inr n ↦
      subst (λ (f : Engine). exists target f.folder.files ≡ false)
        (ap (λ (s : Step). s.1) (rw n at h)) n
  | inl y ↦ elim (Bool-cases disk.is_staged) [
    | inr f ↦ absurd (cc (rw (y, f) at h))
    | inl s ↦
        let same : Path Engine (record e { folder = stage_existing target e.folder }) mid =
          ap (λ (t : Step). t.1) (rw (y, s) at h) in
        subst (λ (f : Engine). exists target f.folder.files ≡ false) same
          (exists-replaced target e.folder.files)
  ]
]

made-IsKeptBy : (disk : DiskAnswers) (target : Text) (e : Engine) → IsKeptBy e (made disk target e)
made-IsKeptBy disk target e = elim (Bool-cases (disk.is_made target)) [
  | inl y ↦ rw y (same_folder e.folder)
  | inr n ↦ rw n (same_folder e.folder)
]

saved-IsKeptBy : (disk : DiskAnswers) (e : Engine) → IsKeptBy e (saved disk e)
saved-IsKeptBy disk e = elim (Bool-cases disk.is_snapshot_written) [
  | inl y ↦ rw y (same_folder e.folder)
  | inr n ↦ rw n (same_folder e.folder)
]

put_source-IsKeptBy :
    (disk : DiskAnswers) (source target : Text) (e : Engine)
    → exists target e.folder.files ≡ false
    → IsKeptBy e (put_source disk source target e)
put_source-IsKeptBy disk source target e free = elim (Bool-cases (exists source e.folder.files)) [
  | inr n ↦ rw n (same_folder e.folder)
  | inl y ↦ rw y (elim (Bool-cases disk.is_placed) [
    | inl s ↦ rw s (rename-IsKept source target e.folder free)
    | inr f ↦ rw f (same_folder e.folder)
  ])
]

put_file-IsKeptBy :
    (disk : DiskAnswers) (target : Text) (plaintext : List ℕ) (e : Engine)
    → exists target e.folder.files ≡ false
    → IsKeptBy e (put_file disk target plaintext e)
put_file-IsKeptBy disk target plaintext e free = elim (Bool-cases disk.is_placed) [
  | inl s ↦ rw s (added_file target plaintext e.folder free)
  | inr f ↦ rw f (same_folder e.folder)
]

write_file-IsKeptBy :
    (disk : DiskAnswers) (target : Text) (plaintext : List ℕ) (e : Engine)
    → IsKeptBy e (write_file disk target plaintext e)
unfolding write_file
write_file-IsKeptBy disk target plaintext e = elim (Bool-cases disk.is_temporary_written) [
  | inl s ↦ rw s (
      then_step-IsKeptBy e (staged disk target e) (put_file disk target plaintext)
        (staged-IsKeptBy disk target e)
        (λ f done. put_file-IsKeptBy disk target plaintext f (staged-free disk target e f done)))
  | inr f ↦ rw f (same_folder e.folder)
]

apply_delete-IsKeptBy :
    (disk : DiskAnswers) (op : SyncOperation) (target : Text) (e : Engine)
    → IsKeptBy e (apply_delete disk op target e)
unfolding apply_delete
apply_delete-IsKeptBy disk op target e =
    then_step-IsKeptBy e (staged disk target e) _ (staged-IsKeptBy disk target e)
      (λ f done. same_folder f.folder)

apply_move-IsKeptBy :
    (disk : DiskAnswers) (op : SyncOperation) (source target : Text) (e : Engine)
    → IsKeptBy e (apply_move disk op source target e)
unfolding apply_move
apply_move-IsKeptBy disk op source target e =
    then_step-IsKeptBy e (made disk target e) _ (made-IsKeptBy disk target e) (λ e1 _.
      then_step-IsKeptBy e1 (staged disk target e1) _ (staged-IsKeptBy disk target e1) (λ e2 done.
        then_step-IsKeptBy e2 (put_source disk source target e2) _
          (put_source-IsKeptBy disk source target e2 (staged-free disk target e1 e2 done))
          (λ e3 _. same_folder e3.folder)))

moved_from-IsKeptBy :
    (disk : DiskAnswers) (op : SyncOperation) (target : Text) (e : Engine)
    (r : Result EngineError Text)
    → IsKeptBy e (moved_from disk op target e r)
moved_from-IsKeptBy disk op target e (err x) = same_folder e.folder
moved_from-IsKeptBy disk op target e (ok source) = apply_move-IsKeptBy disk op source target e

placed-IsKeptBy :
    (disk : DiskAnswers) (op : SyncOperation) (plaintext : List ℕ) (target : Text) (e : Engine)
    → IsKeptBy e (placed disk op plaintext target e)
placed-IsKeptBy disk op plaintext target e = elim (Bool-cases (is_directory op)) [
  | inl y ↦ rw y (elim (Bool-cases disk.is_placed) [
    | inl s ↦ rw s (same_folder e.folder)
    | inr f ↦ rw f (same_folder e.folder)
  ])
  | inr n ↦ rw n (write_file-IsKeptBy disk target plaintext e)
]

module _ (options : EngineOptions) (aead : Aead) (digest : List ℕ → Text) where
  apply_file-IsKeptBy :
      (disk : DiskAnswers) (op : SyncOperation) (plaintext : List ℕ) (target : Text) (e : Engine)
      → IsKeptBy e (apply_file options aead digest disk op plaintext target e)
  unfolding apply_file
  apply_file-IsKeptBy disk op plaintext target e =
      then_step-IsKeptBy e (made disk target e) _ (made-IsKeptBy disk target e) (λ e1 _.
        then_step-IsKeptBy e1 (placed disk op plaintext target e1) _
          (placed-IsKeptBy disk op plaintext target e1) (λ e2 _. same_folder e2.folder))

  apply_kind-IsKeptBy :
      (disk : DiskAnswers) (op : SyncOperation) (plaintext : List ℕ) (target : Text)
      (kind : OperationKind) (e : Engine)
      → IsKeptBy e (apply_kind options aead digest disk op plaintext target kind e)
  unfolding apply_kind
  apply_kind-IsKeptBy disk op plaintext target move e =
      moved_from-IsKeptBy disk op target e (move_source disk op)
  apply_kind-IsKeptBy disk op plaintext target create e =
      apply_file-IsKeptBy disk op plaintext target e
  apply_kind-IsKeptBy disk op plaintext target update e =
      apply_file-IsKeptBy disk op plaintext target e
  apply_kind-IsKeptBy disk op plaintext target delete e =
      apply_file-IsKeptBy disk op plaintext target e

  apply_opened-IsKeptBy :
      (disk : DiskAnswers) (op : SyncOperation) (r : Result EngineError (List ℕ × Text))
      (e : Engine)
      → IsKeptBy e (apply_opened options aead digest disk op r e)
  unfolding apply_opened
  apply_opened-IsKeptBy disk op (err x) e = same_folder e.folder
  apply_opened-IsKeptBy disk op (ok (plaintext, target)) e =
      then_step-IsKeptBy e (changed options aead digest disk op plaintext target e) (saved disk)
        (elim (Bool-cases (is_delete op.header.operation || op.header.tombstone)) [
          | inl y ↦ rw y (apply_delete-IsKeptBy disk op target e)
          | inr n ↦ rw n (apply_kind-IsKeptBy disk op plaintext target op.header.operation e)
        ])
        (λ f _. saved-IsKeptBy disk f)

  -- Whatever operation is applied, whether it succeeds or what fails on the way: the content of each file of
  -- the folder and of its trash is afterwards that of a file of the folder or of the trash, although the
  -- renames of the code replace what stands at their target.
  pub apply-IsKept :
      (disk : DiskAnswers) (op : SyncOperation) (e : Engine)
      → IsKept e.folder (apply options aead digest disk op e).1.folder
  unfolding apply
  apply-IsKept disk op e =
      apply_opened-IsKeptBy disk op (opened_for_apply options aead digest disk op) e
