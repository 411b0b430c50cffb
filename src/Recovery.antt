-- ===== src/Recovery.antt =====
-- `FileRecoveryStore` (services/strict-broker/src/recovery_file.rs): the recovery record in a file
-- that is replaced as a whole. `std::fs`, `serde_json` and the check of a file's access control
-- list are parameters, and so is whether that list is checked.
pub mod Files
pub mod Stored
pub mod Reading
pub mod Writing
pub mod Watermark
use freedom_cloud.Common.{
  ℕ, zero, suc, ◌+◌, ◌-◌, ◌%◌, ◌^◌, ◌*◌, Bool, true, false, not, ◌||◌, Option, none, some, List,
  length, ltb, ◌==◌, String, if◌then◌else◌,
}
use freedom_cloud.Fallible.{Error, Result, ok, err, message, context, bail_if, with_context}
use freedom_cloud.Action.{Action, pure, raise, lift, gets, attempt, modify, branch, ◌>>=◌, ◌>>◌}
use freedom_cloud.Contract.Codec.{Codec}
use freedom_cloud.Broker.Marker.{RecoveryMarker, RecoveryRecord, validate_marker}
use freedom_cloud.Broker.Host.{RecoveryStore}
use freedom_cloud.Recovery.Files.{
  FilePath, root_path, state_path, temporary_path, Metadata, IoErrorKind, not_found, already_exists,
  IoError, Io, done, failed, FileSystem, io_context,
}
use freedom_cloud.Recovery.Stored.{
  StoredRecoveryRecord, RecordCodec, validate_stored, stored_of, max_state_bytes,
}

-- What the store's methods read and write: the disk, and the static counter of temporary files.
pub record FileRecoveryStore (D : Type 0) : Type 0 where
  pub disk : D
  pub temp_file_sequence : ℕ

-- `RecoveryRecord::default()`
abbrev pub no_record : RecoveryRecord
no_record = record { high_watermark = 0; marker = none }

unfoldable pub on_disk : {D A : Type 0} → (D → A × D) → Action (FileRecoveryStore D) A
on_disk call s = let (a, d) = call s.disk in (ok a, record s { disk = d })

abbrev pub max_revision : ℕ → ℕ → ℕ
max_revision a b = if ltb a b then b else a

unfoldable pub validate_regular_file_metadata : Metadata → Result Unit
validate_regular_file_metadata metadata =
    bail_if (not metadata.is_file || metadata.is_reparse_or_symlink)
      "strict recovery state is not a plain file"

-- The check of what `symlink_metadata` said of the file that is to be replaced.
unfoldable pub inspect_state : Io Metadata → Result Unit
inspect_state (done metadata) = validate_regular_file_metadata metadata
inspect_state (failed e) = elim e.kind [
  | not_found ↦ ok tt
  | _ ↦ err (context "inspect strict recovery state path" e.cause)
]

module _ {D H : Type 0} (fs : FileSystem D H) (codec : Codec) (json : RecordCodec)
    (verify_file_acl : Bool) where
  unfoldable pub validate_directory : Action (FileRecoveryStore D) Unit
  validate_directory = do
    found ← on_disk (fs.symlink_metadata root_path)
    metadata ← lift (io_context "inspect strict recovery directory" found)
    lift (
        bail_if (not metadata.is_dir || metadata.is_reparse_or_symlink)
          "strict recovery directory is not a plain directory")

  -- `if self.verify_file_acl { .. }`
  unfoldable pub verify_handle : H → Action (FileRecoveryStore D) Unit
  verify_handle file =
      branch verify_file_acl (on_disk (fs.verify_file_handle file) >>= λ verified. lift verified)
        (pure tt)

  -- `read_record` once the file is open.
  unfoldable pub read_file : H → Action (FileRecoveryStore D) RecoveryRecord
  read_file file = do
    inspected ← on_disk (fs.handle_metadata file)
    metadata ← lift (io_context "inspect strict recovery state" inspected)
    lift (validate_regular_file_metadata metadata)
    verify_handle file
    lift (bail_if (ltb max_state_bytes metadata.len) "strict recovery state exceeds its size limit")
    read ← on_disk (fs.read_at_most (max_state_bytes + 1) file)
    bytes ← lift (io_context "read strict recovery state" read)
    lift (
        bail_if (ltb max_state_bytes (length bytes)) "strict recovery state exceeds its size limit")
    stored ← lift (with_context "parse strict recovery state" (json.from_slice bytes))
    lift (validate_stored codec stored)

  unfoldable pub read_opened : Io H → Action (FileRecoveryStore D) RecoveryRecord
  read_opened (done file) = read_file file
  read_opened (failed e) = elim e.kind [
    | not_found ↦ pure no_record
    | _ ↦ raise (context "open strict recovery state" e.cause)
  ]

  unfoldable pub read_record : Action (FileRecoveryStore D) RecoveryRecord
  read_record = do
    validate_directory
    opened ← on_disk (fs.open_read state_path)
    read_opened opened

  -- A new file whose access control list is refused is removed again.
  unfoldable pub keep_verified : ℕ → H → Result Unit → Action (FileRecoveryStore D) (FilePath × H)
  keep_verified sequence file (ok _) = pure (temporary_path sequence, file)
  keep_verified sequence file (err e) = do
    _ ← on_disk (fs.remove_file (temporary_path sequence))
    raise (context "verify strict recovery temporary state ACL" e)

  unfoldable pub verify_temporary : ℕ → H → Action (FileRecoveryStore D) (FilePath × H)
  verify_temporary sequence file = do
    verified ← attempt (verify_handle file)
    keep_verified sequence file verified

  -- One turn of the loop, before the turns that are left.
  unfoldable pub after_creation :
      ℕ
      → Io H
      → Action (FileRecoveryStore D) (FilePath × H)
      → Action (FileRecoveryStore D) (FilePath × H)
  after_creation sequence (done file) others = verify_temporary sequence file
  after_creation sequence (failed e) others = elim e.kind [
    | already_exists ↦ others
    | _ ↦ raise (context "create strict recovery temporary state" e.cause)
  ]

  unfoldable pub create_temporary_file : ℕ → Action (FileRecoveryStore D) (FilePath × H)
  create_temporary_file zero =
      raise (message "could not allocate a strict recovery temporary state file")
  create_temporary_file (suc attempts) = do
    sequence ← gets (λ s. s.temp_file_sequence)
    modify (λ s. record s { temp_file_sequence = (sequence + 1) % 2 ^ 64 })
    created ← on_disk (fs.create_new (temporary_path sequence))
    after_creation sequence created (create_temporary_file attempts)

  -- The closure of `write_record`.
  unfoldable pub write_temporary : FilePath → H → List ℕ → Action (FileRecoveryStore D) Unit
  write_temporary path file bytes = do
    written ← on_disk (fs.write_all file bytes)
    lift (io_context "write strict recovery temporary state" written)
    flushed ← on_disk (fs.sync_all file)
    lift (io_context "flush strict recovery temporary state" flushed)
    replaced ← on_disk (fs.replace_file path state_path)
    lift (io_context "atomically replace strict recovery state" replaced)

  unfoldable pub finish_write : FilePath → Result Unit → Action (FileRecoveryStore D) Unit
  finish_write path (ok _) = pure tt
  finish_write path (err e) = do _ ← on_disk (fs.remove_file path); raise e

  unfoldable pub write_record : RecoveryRecord → Action (FileRecoveryStore D) Unit
  write_record r = do
    validate_directory
    found ← on_disk (fs.symlink_metadata state_path)
    lift (inspect_state found)
    bytes ← lift (with_context "serialize strict recovery state" (json.to_vec (stored_of r)))
    lift (
        bail_if (ltb max_state_bytes (length bytes)) "strict recovery state exceeds its size limit")
    temporary ← create_temporary_file 32
    written ← attempt (write_temporary temporary.0 temporary.1 bytes)
    finish_write temporary.0 written

  unfoldable pub load : Action (FileRecoveryStore D) RecoveryRecord
  load = read_record

  unfoldable pub persist : RecoveryMarker → Action (FileRecoveryStore D) Unit
  persist marker = do
    lift (validate_marker codec marker)
    current ← read_record
    lift (
        bail_if (ltb marker.revision current.high_watermark)
          "strict recovery revision rollback rejected")
    write_record (record {
      high_watermark = max_revision current.high_watermark marker.revision;
      marker = some marker;
    })

  unfoldable pub clear_marker : Action (FileRecoveryStore D) Unit
  clear_marker = do
    current ← read_record
    write_record (record { high_watermark = current.high_watermark; marker = none })

  abbrev pub file_store : RecoveryStore (FileRecoveryStore D)
  file_store = record { load = load; persist = persist; clear_marker = clear_marker }
