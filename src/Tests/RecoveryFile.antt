-- ===== src/Tests/RecoveryFile.antt =====
-- The recovery file on a disk in memory.
use freedom_cloud.Common.{◌≡◌, ◌≤◌, refl, true, none, some, [], ◌∷◌}
use freedom_cloud.Fallible.{Result, ok}
use freedom_cloud.Action.{Post, ◌>>=◌, branch}
use freedom_cloud.Text.{eq_ignore_ascii_case}
use freedom_cloud.Contract.Canonical.{canonical_bytes_unchecked, to_hex}
use freedom_cloud.Contract.Capability.{is_sha256}
use freedom_cloud.Contract.Fields.{
  validate_sha256, is_uuid, validate_windows_executable_path, validate_target_group,
}
use freedom_cloud.Contract.Validate.{
  validate, validate_entries, validate_entry, validate_identity, contains, insert_children,
  canonical_digest, canonical_bytes,
}
use freedom_cloud.Broker.Marker.{RecoveryRecord, validate_marker}
use freedom_cloud.Recovery.{
  FileRecoveryStore, load, persist, clear_marker, on_disk, validate_regular_file_metadata,
  inspect_state, validate_directory, verify_handle, read_file, read_opened, read_record,
  keep_verified, verify_temporary, after_creation, create_temporary_file, write_temporary,
  finish_write, write_record,
}
use freedom_cloud.Recovery.Stored.{validate_stored, validate_stored_marker}
use freedom_cloud.Recovery.Watermark.{
  Stores, persist-watermark, clear_marker-watermark, load-persist,
}
use freedom_cloud.Tests.Host.{toy_codec}
use freedom_cloud.Tests.Disk.{
  Disk, memory_files, disk_contents, disk_path, memory_files-Laws, kept_marker, three_numbers,
  three_numbers-none, three_numbers-kept, two_on_disk,
}

abbrev store : FileRecoveryStore Disk
store = record { disk = two_on_disk; temp_file_sequence = 1 }

abbrev two : RecoveryRecord
two = record { high_watermark = 2; marker = none }

store_holds_two :
    Stores memory_files toy_codec three_numbers true disk_contents disk_path memory_files-Laws store
      two
store_holds_two = record { encoded = 1 ∷ 2 ∷ 0 ∷ []; present = refl; decodes = refl }

abbrev three : RecoveryRecord
three = record { high_watermark = 3; marker = some kept_marker }

abbrev Holding : RecoveryRecord → FileRecoveryStore Disk → Type 0
Holding r s =
    Stores memory_files toy_codec three_numbers true disk_contents disk_path memory_files-Laws s r

persist-watermark_example :
    Post
      (λ _. Holding two)
      (λ _ s'.
        (validate_marker toy_codec kept_marker ≡ ok tt)
        × (2 ≤ 3)
        × ((r' : RecoveryRecord) × Holding r' s'
            × (r'.marker ≡ some kept_marker)
            × (2 ≤ r'.high_watermark)
            × (3 ≤ r'.high_watermark)))
      (persist memory_files toy_codec three_numbers true kept_marker store)
persist-watermark_example =
    persist-watermark memory_files toy_codec three_numbers true disk_contents disk_path
      memory_files-Laws kept_marker store two three_numbers-kept store_holds_two

clear_marker-watermark_example :
    Post
      (λ _. Holding two)
      (λ _. Holding two)
      (clear_marker memory_files toy_codec three_numbers true store)
clear_marker-watermark_example =
    clear_marker-watermark memory_files toy_codec three_numbers true disk_contents disk_path
      memory_files-Laws store two three_numbers-none store_holds_two

abbrev persisted : Result Unit × FileRecoveryStore Disk
persisted = persist memory_files toy_codec three_numbers true kept_marker store

store_persisted : persisted.0 ≡ ok tt
unfolding ◌>>=◌ branch persist validate_marker read_record on_disk validate_directory read_opened
    read_file verify_handle validate_regular_file_metadata validate_stored validate_stored_marker
    write_record inspect_state create_temporary_file after_creation verify_temporary keep_verified
    write_temporary finish_write validate validate_entries validate_entry validate_identity is_uuid
    validate_windows_executable_path validate_sha256 is_sha256 validate_target_group contains
    insert_children canonical_bytes_unchecked canonical_digest canonical_bytes eq_ignore_ascii_case
    to_hex
store_persisted = refl

store_loaded : (load memory_files toy_codec three_numbers true persisted.1).0 ≡ ok three
unfolding ◌>>=◌ branch persist validate_marker read_record on_disk validate_directory read_opened
    read_file verify_handle validate_regular_file_metadata validate_stored validate_stored_marker
    write_record inspect_state create_temporary_file after_creation verify_temporary keep_verified
    write_temporary finish_write load validate validate_entries validate_entry validate_identity
    is_uuid validate_windows_executable_path validate_sha256 is_sha256 validate_target_group
    contains insert_children canonical_bytes_unchecked canonical_digest canonical_bytes
    eq_ignore_ascii_case to_hex
store_loaded = refl

load-persist_example : (some kept_marker ≡ some kept_marker) × (3 ≤ 3) × (2 ≤ 3)
load-persist_example =
    load-persist memory_files toy_codec three_numbers true disk_contents disk_path memory_files-Laws
      kept_marker store two three three_numbers-kept store_holds_two store_persisted store_loaded
