-- ===== src/Recovery/Watermark.antt =====
-- The calls of the store between what the file held before and what it holds after.
use freedom_cloud.Common.{
  ℕ, ◌≤◌, ◌≡◌, refl, ◌∙◌, sym, arith, Bool, Option, none, some, List, ltb-eq_false,
}
use freedom_cloud.Fallible.{ok}
use freedom_cloud.Action.{Post, Post-weaken, Post-ok, lift-Post, bail_if-Post, call-Post}
use freedom_cloud.Contract.Codec.{Codec}
use freedom_cloud.Broker.Marker.{RecoveryMarker, RecoveryRecord, validate_marker}
use freedom_cloud.Recovery.Files.{FilePath, state_path, FileSystem, FileSystemLaws}
use freedom_cloud.Recovery.Stored.{StoredRecoveryRecord, RecordCodec, stored_of}
use freedom_cloud.Recovery.{
  FileRecoveryStore, max_revision, read_record, write_record, load, persist, clear_marker,
}
use freedom_cloud.Recovery.Reading.{read_record-Post}
use freedom_cloud.Recovery.Writing.{write_record-Post}

module _ {D H : Type 0} (fs : FileSystem D H) (codec : Codec) (json : RecordCodec)
    (verify_file_acl : Bool) (contents : D → FilePath → Option (List ℕ)) (path_of : H → FilePath)
    (laws : FileSystemLaws fs contents path_of) where
  -- The state file holds the encoding of a record.
  pub record Stores (s : FileRecoveryStore D) (r : RecoveryRecord) : Type 0 where
    pub encoded : List ℕ
    pub present : contents s.disk state_path ≡ some encoded
    pub decodes : json.from_slice encoded ≡ ok (stored_of r)

  -- What the file held, it still holds.
  keeps_record :
      (s s' : FileRecoveryStore D) (r : RecoveryRecord)
      → contents s'.disk state_path ≡ contents s.disk state_path
      → Stores s r
      → Stores s' r
  keeps_record s s' r same held = record {
    encoded = held.encoded;
    present = same ∙ held.present;
    decodes = held.decodes;
  }

  -- Reading gives the record that the file holds, and writing makes it hold the record.
  read_record-Stores :
      (s : FileRecoveryStore D) (r : RecoveryRecord)
      → Stores s r
      → Post
          (λ _ s'. Stores s' r)
          (λ x s'. (x ≡ r) × Stores s' r)
          (read_record fs codec json verify_file_acl s)
  read_record-Stores s r held =
      Post-weaken
        (read_record-Post fs codec json verify_file_acl contents path_of laws
          (contents s.disk state_path) s refl)
        (λ _ k. keeps_record s _ r k held)
        (λ x (k, same). (
          same r
              (record { encoded = held.encoded; present = held.present; decodes = held.decodes }),
          keeps_record s _ r k held,
        ))

  write_record-Stores :
      (s : FileRecoveryStore D) (old new : RecoveryRecord)
      → ((x : StoredRecoveryRecord) (bytes : List ℕ)
          → x.marker ≡ new.marker
          → json.to_vec x ≡ ok bytes
          → json.from_slice bytes ≡ ok x)
      → Stores s old
      → Post
          (λ _ s'. Stores s' old)
          (λ _ s'. Stores s' new)
          (write_record fs codec json verify_file_acl new s)
  write_record-Stores s old new round_trip held =
      Post-weaken
        (write_record-Post fs codec json verify_file_acl contents path_of laws
          (contents s.disk state_path) new s refl)
        (λ _ k. keeps_record s _ old k held)
        (λ _ w. record {
          encoded = w.bytes;
          present = w.present;
          decodes = round_trip (stored_of new) w.bytes refl w.encodes;
        })

  max_revision-above : (a b : ℕ) → (a ≤ max_revision a b) × (b ≤ max_revision a b)
  max_revision-above a b = (ground arith, ground arith)

  -- `persist` on a file that holds a record ends in one of two ways, whichever of its calls fail. With an error
  -- the file holds the same record as before. With success the marker was valid and its revision not
  -- below the high watermark, and the file holds the marker, with a watermark that is neither
  -- below the one before nor below the marker's revision. The encoder's output for a record with this marker decodes to it.
  pub persist-watermark :
      (marker : RecoveryMarker) (s : FileRecoveryStore D) (r : RecoveryRecord)
      → ((x : StoredRecoveryRecord) (bytes : List ℕ)
          → x.marker ≡ some marker
          → json.to_vec x ≡ ok bytes
          → json.from_slice bytes ≡ ok x)
      → Stores s r
      → Post
          (λ _ s'. Stores s' r)
          (λ _ s'.
            (validate_marker codec marker ≡ ok tt)
            × (r.high_watermark ≤ marker.revision)
            × ((r' : RecoveryRecord) × Stores s' r'
                × (r'.marker ≡ some marker)
                × (r.high_watermark ≤ r'.high_watermark)
                × (marker.revision ≤ r'.high_watermark)))
          (persist fs codec json verify_file_acl marker s)
  unfolding persist
  persist-watermark marker s r round_trip held =
      lift-Post _ _ _ (λ _ _. held)
        λ _ valid.
          call-Post _ _ _ (read_record-Stores s r held) (λ _ _ h. h)
            λ current s1 (same, h1).
              bail_if-Post _ _ _ _ (λ _. h1)
                λ above.
                  Post-weaken (write_record-Stores s1 r _ round_trip h1) (λ _ h. h)
                    (λ _ stored.
                      let (kept, covered) =
                        max_revision-above current.high_watermark marker.revision in
                      (
                        valid,
                        rw (sym same) (ltb-eq_false _ _ above),
                        (_, stored, refl, rw (sym same) kept, covered),
                      ))

  -- `clear_marker` forgets the marker and keeps the watermark, or keeps both. A record
  -- without a marker decodes from its encoding.
  pub clear_marker-watermark :
      (s : FileRecoveryStore D) (r : RecoveryRecord)
      → ((x : StoredRecoveryRecord) (bytes : List ℕ)
          → x.marker ≡ none
          → json.to_vec x ≡ ok bytes
          → json.from_slice bytes ≡ ok x)
      → Stores s r
      → Post
          (λ _ s'. Stores s' r)
          (λ _ s'. Stores s' (record { high_watermark = r.high_watermark; marker = none }))
          (clear_marker fs codec json verify_file_acl s)
  unfolding clear_marker
  clear_marker-watermark s r round_trip held =
      call-Post _ _ _ (read_record-Stores s r held) (λ _ _ h. h)
        λ current s1 (same, h1). rw same (write_record-Stores s1 r _ round_trip h1)

  -- After a `persist` that succeeded, a `load` that succeeds gives the marker that was persisted,
  -- and a watermark that covers it. The encoder's output for a record with this marker decodes to it.
  pub load-persist :
      (marker : RecoveryMarker) (s : FileRecoveryStore D) (r loaded : RecoveryRecord)
      → ((x : StoredRecoveryRecord) (bytes : List ℕ)
          → x.marker ≡ some marker
          → json.to_vec x ≡ ok bytes
          → json.from_slice bytes ≡ ok x)
      → Stores s r
      → (persist fs codec json verify_file_acl marker s).0 ≡ ok tt
      → (load fs codec json verify_file_acl (persist fs codec json verify_file_acl marker s).1).0
        ≡ ok loaded
      → (loaded.marker ≡ some marker)
        × (marker.revision ≤ loaded.high_watermark)
        × (r.high_watermark ≤ loaded.high_watermark)
  unfolding load
  load-persist marker s r loaded round_trip held written found =
      let (_, _, (r', stored, marked, kept, covered)) =
        Post-ok (persist-watermark marker s r round_trip held) tt written in
      let (same, _) = Post-ok (read_record-Stores _ r' stored) loaded found in
      rw same (marked, covered, kept)
