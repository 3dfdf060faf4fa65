-- ===== src/Sync/Engine/Moves.antt =====
-- A move whose source is not there.
use servidor_drive.Prelude.{
  ℕ, ◌≡◌, refl, ap, ◌∙◌, true, false, Bool, if◌then◌else◌, ◌||◌, is_nonempty, text_eq, not, Option,
  some, List, [], ◌∷◌, keep, Text, text_in, text_eq_refl, ok, arith, Bool-cases, inl, inr,
}
use servidor_drive.Prelude.TextMaps.{TextMap, lookup, insert, discard, is_inherited, lookup-insert}
use servidor_drive.Paths.{validate_portable_relative_path}
use servidor_drive.Sync.Operation.{move}
use servidor_drive.Sync.Envelope.{SyncOperation}
use servidor_drive.Sync.Sealing.{Aead, decrypt_payload}
use servidor_drive.Sync.Engine.{
  Folder, Engine, EngineError, EngineOptions, DiskAnswers, is_below, exists, stage_existing,
  unsafe_path, invalid_path, remote_authorization_rejected, authorization_rejected, stale_key_epoch,
  key_unavailable, required, require, decrypted, contained, path_of, source_of,
}
use servidor_drive.Sync.Header.Made.{then_ok}
use servidor_drive.Sync.Engine.Held.{exists-replaced}
use servidor_drive.Sync.Engine.Scan.{missing_paths, scan_files}
use servidor_drive.Sync.Engine.Apply.{
  Step, then_step, staged, made, key_for, saved, put_source, moved_entry, changed, apply_move,
  apply_kind, moved_from, move_source, apply_opened, opened_for_apply, apply,
}
use servidor_drive.Sync.Engine.Scan.Missing.{
  missing_paths-lookup, scan_files-absent, read_text-absent,
}

exists-keep :
    (source target : Text) (files : TextMap (List ℕ))
    → exists source files ≡ false
    → exists source (keep (λ f. not (is_below target f.0)) files) ≡ false
unfolding exists
exists-keep source target [] h = refl
exists-keep source target ((path, c) ∷ files) h = ground (arith, exists-keep source target files)

require-true : (x : EngineError) (b : Bool) → b ≡ true → require x b ≡ ok tt
require-true x b h = rw h refl

required-found :
    {A : Type 0} (x : EngineError) (o : Option A) (a : A) → o ≡ some a → required x o ≡ ok a
required-found x o a h = ap (required x) h

contained-reached :
    (disk : DiskAnswers) (path : Text)
    → validate_portable_relative_path path ≡ some path
    → disk.is_contained path ≡ true
    → contained disk path ≡ ok path
unfolding contained
contained-reached disk path valid reached =
    then_ok _ (required-found invalid_path _ path valid)
      (then_ok _ (require-true unsafe_path _ reached) refl)

then_step-next :
    (step : Step) (next : Engine → Step) (mid : Engine) (last : Step)
    → step ≡ (ok tt, mid)
    → next mid ≡ last
    → then_step step next ≡ last
then_step-next step next mid last h k = ap (λ s. then_step s next) h ∙ k

-- The folder once the target is staged.
abbrev pub folder_staged : Text → Folder → Folder
folder_staged target folder =
    if exists target folder.files then stage_existing target folder else folder

staged-done :
    (disk : DiskAnswers) (target : Text) (e : Engine)
    → disk.is_staged ≡ true
    → staged disk target e ≡ (ok tt, record e { folder = folder_staged target e.folder })
staged-done disk target e h = elim (Bool-cases (exists target e.folder.files)) [
  | inl y ↦ rw (y, h) refl
  | inr n ↦ rw n refl
]

exists-folder_staged :
    (target : Text) (folder : Folder) → exists target (folder_staged target folder).files ≡ false
unfolding stage_existing exists
exists-folder_staged target folder = elim (Bool-cases (exists target folder.files)) [
  | inl y ↦ rw y (exists-replaced target folder.files)
  | inr n ↦ rw n n
]

unseen-folder_staged :
    (source target : Text) (folder : Folder)
    → exists source folder.files ≡ false
    → exists source (folder_staged target folder).files ≡ false
unfolding stage_existing exists
unseen-folder_staged source target folder unseen = elim (Bool-cases (exists target folder.files)) [
  | inl y ↦ rw y (exists-keep source target folder.files unseen)
  | inr n ↦ rw n unseen
]

put_source-unseen :
    (disk : DiskAnswers) (source target : Text) (e : Engine)
    → exists source e.folder.files ≡ false
    → put_source disk source target e ≡ (ok tt, e)
put_source-unseen disk source target e unseen = rw unseen refl

-- The engine after a move whose source is not there.
abbrev lost : (op : SyncOperation) (source target : Text) → Engine → Engine
lost op source target e =
    let index = insert target (moved_entry op (lookup source e.index)) (discard source e.index) in
    record { folder = folder_staged target e.folder; index = index; stored = index }

module _ (disk : DiskAnswers) (op : SyncOperation) (source target : Text) (e : Engine) where
  apply_move-unseen :
      disk.is_made target ≡ true
      → disk.is_staged ≡ true
      → exists source e.folder.files ≡ false
      → apply_move disk op source target e
        ≡ (ok tt, record (lost op source target e) { stored = e.stored })
  unfolding apply_move
  apply_move-unseen made_there goes unseen =
      let free = unseen-folder_staged source target e.folder unseen in
      then_step-next (made disk target e) _ e _ (rw made_there refl) (
        then_step-next (staged disk target e) _ _ _ (staged-done disk target e goes) (
          then_step-next
            (put_source disk source target (record e { folder = folder_staged target e.folder })) _
            _ _
            (put_source-unseen disk source target
              (record e { folder = folder_staged target e.folder }) free)
            refl))

module _ (options : EngineOptions) (aead : Aead) (digest : List ℕ → Text) where
  -- A move that the engine may apply: it is verified and authorized, its key is there and decrypts it, its
  -- two paths are accepted ones that are reached, and the disk does what it is asked.
  pub record IsReady (disk : DiskAnswers) (op : SyncOperation) (source target : Text) : Type 0 where
    pub verified : options.is_verified op ≡ true
    pub authorized : options.is_authorized op ≡ true
    pub current_epoch :
        (text_eq op.header.key_epoch options.key_epoch || not (is_nonempty options.key_epoch))
        ≡ true
    pub key : List ℕ
    pub keyed : options.file_key op ≡ some key
    pub plaintext : List ℕ
    pub decrypts : decrypt_payload aead op key ≡ ok plaintext
    pub moves : op.header.operation ≡ move
    pub alive : op.header.tombstone ≡ false
    pub source_named : source_of op ≡ some source
    pub source_valid : validate_portable_relative_path source ≡ some source
    pub source_reached : disk.is_contained source ≡ true
    pub target_named : path_of op ≡ some target
    pub target_valid : validate_portable_relative_path target ≡ some target
    pub target_reached : disk.is_contained target ≡ true
    pub made_there : disk.is_made target ≡ true
    pub stages : disk.is_staged ≡ true
    pub writes : disk.is_snapshot_written ≡ true

  module _ (disk : DiskAnswers) (op : SyncOperation) (source target : Text)
      (r : IsReady disk op source target) where
    key_for-found : key_for options aead digest op ≡ ok r.key
    unfolding key_for
    key_for-found = then_ok _ (require-true authorization_rejected _ r.authorized) (
        then_ok _ (require-true stale_key_epoch _ r.current_epoch)
          (required-found key_unavailable _ r.key r.keyed))

    opened_for_apply-ready : opened_for_apply options aead digest disk op ≡ ok (r.plaintext, target)
    unfolding opened_for_apply
    opened_for_apply-ready = then_ok _ (require-true remote_authorization_rejected _ r.verified) (
        then_ok _ key_for-found (
          then_ok _ (ap decrypted r.decrypts) (
            then_ok _ (required-found unsafe_path _ target r.target_named)
              (then_ok _ (contained-reached disk target r.target_valid r.target_reached) refl))))

    move_source-ready : move_source disk op ≡ ok source
    move_source-ready =
        then_ok _ (required-found unsafe_path _ source r.source_named)
          (contained-reached disk source r.source_valid r.source_reached)

    changed-kind :
        (e : Engine)
        → changed options aead digest disk op r.plaintext target e
          ≡ moved_from disk op target e (move_source disk op)
    unfolding apply_kind
    changed-kind e = rw (r.moves, r.alive) refl

    changed-move :
        (e : Engine)
        → changed options aead digest disk op r.plaintext target e
          ≡ moved_from disk op target e (ok source)
    unfolding apply_kind
    changed-move e = changed-kind e ∙ ap (moved_from disk op target e) move_source-ready

    apply-lost :
        (e : Engine)
        → exists source e.folder.files ≡ false
        → apply options aead digest disk op e ≡ (ok tt, lost op source target e)
    unfolding apply apply_opened
    apply-lost e unseen =
        ap (λ o. apply_opened options aead digest disk op o e) opened_for_apply-ready
        ∙ then_step-next (changed options aead digest disk op r.plaintext target e) (saved disk) _ _
            (changed-move e
              ∙ apply_move-unseen disk op source target e r.made_there r.stages unseen)
            (rw r.writes refl)

  -- A move that is verified and authorized, whose key is there and decrypts it, whose paths are accepted and
  -- reached, and for which the disk does what it is asked, applied where its source is not, as on a device
  -- that never had the file: it succeeds, and unless an operation of that path waits, the next look at the
  -- folder takes the file for deleted, so that the device is to send its deletion. The path is not a name
  -- that every object inherits.
  pub apply-missing_paths :
      (disk : DiskAnswers) (op : SyncOperation) (source target : Text) (protected : List Text)
      (e : Engine)
      → IsReady disk op source target
      → exists source e.folder.files ≡ false
      → is_inherited target ≡ false
      → text_in target protected ≡ false
      → (after : Engine) × (apply options aead digest disk op e ≡ (ok tt, after))
        × (text_in target
              (missing_paths protected (scan_files digest after.folder.files) after.index)
            ≡ true)
  apply-missing_paths disk op source target protected e r unseen plain free =
      let after = lost op source target e in
      let there : lookup target after.index ≡ some (moved_entry op (lookup source e.index)) =
        lookup-insert target target (moved_entry op (lookup source e.index))
          (discard source e.index)
        ∙ rw (text_eq_refl target) refl in
      (
        after,
        apply-lost disk op source target r e unseen,
        missing_paths-lookup target protected (scan_files digest after.folder.files) after.index _
            there refl free
            (read_text-absent target _
              (scan_files-absent digest target after.folder.files
                (exists-folder_staged target e.folder))
              plain),
      )
