-- ===== src/Sync/Engine/Apply.antt =====
-- SyncEngine.keyFor and SyncEngine.apply, on every branch.
use servidor_drive.Prelude.{
  ℕ, Bool, true, false, not, ◌||◌, Option, none, some, List, ◌∷◌, if◌then◌else◌, Text, text_eq,
  codes, Result, ok, err, is_nonempty, ◌>>=◌, ◌>>◌,
}
use servidor_drive.Prelude.TextMaps.{lookup, insert, discard}
use servidor_drive.Sync.Operation.{OperationKind, move}
use servidor_drive.Sync.Header.{is_delete}
use servidor_drive.Sync.Envelope.{SyncOperation}
use servidor_drive.Sync.Sealing.{Aead, decrypt_payload}
use servidor_drive.Sync.Engine.{
  replaced, Indexed, Engine, EngineError, EngineOptions, DiskAnswers, exists, stage_existing,
  rename, text_field, path_of, source_of, indexed_as, known_hash, remember_operation, required,
  require, decrypted, contained, remote_authorization_rejected, authorization_rejected,
  stale_key_epoch, key_unavailable, unsafe_path, not_written,
}

-- Each step gives what it threw, if anything, and the engine as it is then.
abbrev pub Step : Type 0
Step = Result EngineError (Unit {0}) × Engine

abbrev pub staged : DiskAnswers → Text → Engine → Step
staged disk target e =
    if not (exists target e.folder.files)
    then (ok tt, e)
    else if disk.is_staged
    then (ok tt, record e { folder = stage_existing target e.folder })
    else (err not_written, e)

abbrev pub then_step : Step → (Engine → Step) → Step
then_step (ok u, e) next = next e
then_step (err x, e) next = (err x, e)

-- durableJson of the snapshot.
abbrev pub saved : DiskAnswers → Engine → Step
saved disk e =
    if disk.is_snapshot_written
    then (ok tt, record e { stored = e.index })
    else (err not_written, e)

abbrev pub made : DiskAnswers → Text → Engine → Step
made disk target e = if disk.is_made target then (ok tt, e) else (err unsafe_path, e)

unfoldable pub apply_delete : DiskAnswers → SyncOperation → Text → Engine → Step
unfolding stage_existing
apply_delete disk op target e =
    then_step (staged disk target e)
      (λ e. (ok tt, record e { index = insert target (indexed_as op none true) e.index }))

abbrev pub moved_entry : SyncOperation → Option Indexed → Indexed
moved_entry op prior = indexed_as op (known_hash prior) false

abbrev pub put_source : DiskAnswers → Text → Text → Engine → Step
put_source disk source target e =
    if not (exists source e.folder.files)
    then (ok tt, e)
    else if disk.is_placed
    then (
      ok tt,
      record e { folder = record (e.folder) { files = rename source target e.folder.files } },
    )
    else (err not_written, e)

unfoldable pub apply_move : DiskAnswers → SyncOperation → Text → Text → Engine → Step
unfolding rename
apply_move disk op source target e = then_step (made disk target e) (λ e.
    then_step (staged disk target e) (λ e. then_step (put_source disk source target e) (λ e. (
      ok tt,
      record e {
        index = insert target (moved_entry op (lookup source e.index)) (discard source e.index);
      },
    ))))

-- The rename of the temporary file over what stands at the target.
abbrev pub put_file : DiskAnswers → Text → List ℕ → Engine → Step
put_file disk target plaintext e =
    if disk.is_placed
    then (
      ok tt,
      record e {
        folder = record (e.folder) { files = (target, plaintext) ∷ replaced target e.folder.files };
      },
    )
    else (err not_written, e)

abbrev pub is_directory : SyncOperation → Bool
is_directory op = elim (text_field (codes "contentType") op.header.metadata) [
  | none ↦ false
  | some t ↦ text_eq t (codes "inode/directory")
]

unfoldable pub write_file : DiskAnswers → Text → List ℕ → Engine → Step
write_file disk target plaintext e =
    if disk.is_temporary_written
    then then_step (staged disk target e) (put_file disk target plaintext)
    else (err not_written, e)

abbrev pub placed : DiskAnswers → SyncOperation → List ℕ → Text → Engine → Step
placed disk op plaintext target e =
    if is_directory op
    then (if disk.is_placed then (ok tt, e) else (err not_written, e))
    else write_file disk target plaintext e

abbrev pub move_source : DiskAnswers → SyncOperation → Result EngineError Text
move_source disk op = required unsafe_path (source_of op) >>= contained disk

abbrev pub moved_from : DiskAnswers → SyncOperation → Text → Engine → Result EngineError Text → Step
moved_from disk op target e (err x) = (err x, e)
moved_from disk op target e (ok source) = apply_move disk op source target e

module _ (options : EngineOptions) (aead : Aead) (digest : List ℕ → Text) where
  -- keyFor
  unfoldable pub key_for : SyncOperation → Result EngineError (List ℕ)
  key_for op = do
    require authorization_rejected (options.is_authorized op)
    require stale_key_epoch
        (text_eq op.header.key_epoch options.key_epoch || not (is_nonempty options.key_epoch))
    required key_unavailable (options.file_key op)

  -- apply up to its first change: the plaintext, the path and its target.
  unfoldable pub opened_for_apply : DiskAnswers → SyncOperation → Result EngineError (List ℕ × Text)
  opened_for_apply disk op = do
    require remote_authorization_rejected (options.is_verified op)
    key ← key_for op
    plaintext ← decrypted (decrypt_payload aead op key)
    path ← required unsafe_path (path_of op)
    target ← contained disk path
    ok (plaintext, target)

  unfoldable pub apply_file : DiskAnswers → SyncOperation → List ℕ → Text → Engine → Step
  unfolding remember_operation
  apply_file disk op plaintext target e = then_step (made disk target e) (λ e.
      then_step (placed disk op plaintext target e) (λ e.
        (ok tt, record e { index = remember_operation op (some (digest plaintext)) e.index })))

  unfoldable pub apply_kind :
      DiskAnswers → SyncOperation → List ℕ → Text → OperationKind → Engine → Step
  apply_kind disk op plaintext target move e = moved_from disk op target e (move_source disk op)
  apply_kind disk op plaintext target _ e = apply_file disk op plaintext target e

  abbrev pub changed : DiskAnswers → SyncOperation → List ℕ → Text → Engine → Step
  changed disk op plaintext target e =
      if is_delete op.header.operation || op.header.tombstone
      then apply_delete disk op target e
      else apply_kind disk op plaintext target op.header.operation e

  unfoldable pub apply_opened :
      DiskAnswers → SyncOperation → Result EngineError (List ℕ × Text) → Engine → Step
  apply_opened disk op (err x) e = (err x, e)
  apply_opened disk op (ok (plaintext, target)) e =
      then_step (changed disk op plaintext target e) (saved disk)

  unfoldable pub apply : DiskAnswers → SyncOperation → Engine → Step
  apply disk op e = apply_opened disk op (opened_for_apply disk op) e
