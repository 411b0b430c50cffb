-- ===== src/Recovery/Stored.antt =====
-- `StoredRecoveryRecord` (services/strict-broker/src/recovery_file.rs) and its validation.
use freedom_cloud.Common.{ℕ, ◌*◌, not, Option, none, some, List, ltb, ◌==◌}
use freedom_cloud.Fallible.{Result, ok, ◌>>◌, bail_if}
use freedom_cloud.Contract.Codec.{Codec}
use freedom_cloud.Broker.Marker.{RecoveryMarker, RecoveryRecord, validate_marker}

abbrev pub max_state_bytes : ℕ
max_state_bytes = 2 * 1024 * 1024

abbrev pub recovery_file_protocol : ℕ
recovery_file_protocol = 1

pub record StoredRecoveryRecord : Type 0 where
  pub protocol : ℕ
  pub high_watermark : ℕ
  pub marker : Option RecoveryMarker

-- `serde_json` on the record.
pub record RecordCodec : Type 0 where
  pub to_vec : StoredRecoveryRecord → Result (List ℕ)
  pub from_slice : List ℕ → Result StoredRecoveryRecord

unfoldable pub validate_stored_marker : Codec → ℕ → Option RecoveryMarker → Result Unit
validate_stored_marker codec high_watermark none = ok tt
validate_stored_marker codec high_watermark (some marker) = do
  validate_marker codec marker
  bail_if (ltb high_watermark marker.revision)
      "strict recovery high watermark is below the active revision"

-- `StoredRecoveryRecord::validate`
unfoldable pub validate_stored : Codec → StoredRecoveryRecord → Result RecoveryRecord
unfolding validate_stored_marker
validate_stored codec stored = do
  bail_if (not (stored.protocol == recovery_file_protocol))
      "unsupported strict recovery file protocol"
  validate_stored_marker codec stored.high_watermark stored.marker
  ok (record { high_watermark = stored.high_watermark; marker = stored.marker })

-- What `write_record` stores of a record.
abbrev pub stored_of : RecoveryRecord → StoredRecoveryRecord
stored_of r = record {
  protocol = recovery_file_protocol;
  high_watermark = r.high_watermark;
  marker = r.marker;
}
