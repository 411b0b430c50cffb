-- ===== src/Recovery/Reading.antt =====
-- Reading the recovery file: the disk is as it was, and a record that the file holds is the one
-- that is read.
use freedom_cloud.Common.{
  ℕ, zero, suc, ◌+◌, ◌==◌, String, ◌≤◌, ◌≡◌, ◌≢◌, refl, ap, ◌∙◌, sym, arith, Bool, false,
  ltb-eq_false, not, Option, none, some, List, [], ◌∷◌, take, length, ltb,
}
use freedom_cloud.Fallible.{Error, Result, ok, err, bail_if, with_context, >>-eq-ok, ok-injective}
use freedom_cloud.Action.{
  Post, Post-lift, Post-pure, Post-raise, Action, ◌>>=◌, lift-Post, bail_if-Post, branch-Post,
  call-Post,
}
use freedom_cloud.Contract.Codec.{Codec}
use freedom_cloud.Broker.Marker.{RecoveryRecord}
use freedom_cloud.Recovery.Files.{
  FilePath, root_path, state_path, not_found, IoErrorKind, already_exists, other_kind, Io, done,
  failed, FileSystem, FileSystemLaws, io_context,
}
use freedom_cloud.Recovery.Stored.{
  recovery_file_protocol, validate_stored_marker, StoredRecoveryRecord, RecordCodec,
  validate_stored, stored_of, max_state_bytes,
}
use freedom_cloud.Recovery.{
  FileRecoveryStore, no_record, on_disk, validate_directory, verify_handle, read_file, read_opened,
  read_record,
}

pub on_disk-Post :
    {D A B : Type 0} {E : Error → FileRecoveryStore D → Type 0}
    {Q : B → FileRecoveryStore D → Type 0} (call : D → A × D)
    (f : A → Action (FileRecoveryStore D) B) (s : FileRecoveryStore D)
    → Post E Q (f (call s.disk).0 (record s { disk = (call s.disk).1 }))
    → Post E Q ((on_disk call >>= f) s)
unfolding ◌>>=◌ on_disk
on_disk-Post call f s p = p

pub io_context-ok :
    {A : Type 0} (r : Io A) (note : String) (a : A) → io_context note r ≡ ok a → r ≡ done a
io_context-ok (done b) note a e = ap done (ok-injective b a e)
io_context-ok (failed b) note a e = cc

pub with_context-ok :
    {A : Type 0} (r : Result A) (note : String) (a : A) → with_context note r ≡ ok a → r ≡ ok a
with_context-ok (ok b) note a e = e
with_context-ok (err b) note a e = cc

not_none : {A : Type 0} (o : Option A) (a : A) → o ≡ some a → o ≢ none
not_none o a e q = cc

-- More than the first `n` bytes were asked for, and no more than `n` came.
take_short : (xs : List ℕ) (n : ℕ) → length (take (suc n) xs) ≤ n → take (suc n) xs ≡ xs
take_short [] n p = refl
take_short (x ∷ xs) zero p = absurd (omega arith)
take_short (x ∷ xs) (suc n) p = ap (λ t. x ∷ t) (take_short xs n (omega arith))

validate_stored-eq_ok :
    (codec : Codec) (stored : StoredRecoveryRecord) (r : RecoveryRecord)
    → validate_stored codec stored ≡ ok r
    → (r.high_watermark ≡ stored.high_watermark) × (r.marker ≡ stored.marker)
unfolding validate_stored
validate_stored-eq_ok codec stored r e =
    let (_, e1) = >>-eq-ok (bail_if (not (stored.protocol == recovery_file_protocol)) _) _ e in
    let (_, e2) =
      >>-eq-ok (validate_stored_marker codec stored.high_watermark stored.marker) _ e1 in
    let q = ok-injective _ _ e2 in (ap (λ x. x.high_watermark) (sym q), ap (λ x. x.marker) (sym q))

-- The check of an open file leaves every file as it was.
pub verify_handle-Post :
    {D H : Type 0} (fs : FileSystem D H) (codec : Codec) (json : RecordCodec)
    (verify_file_acl : Bool) (contents : D → FilePath → Option (List ℕ)) (path_of : H → FilePath)
    → FileSystemLaws fs contents path_of
    → (file : H) (s : FileRecoveryStore D)
    → Post
        (λ _ s'. (q : FilePath) → contents s'.disk q ≡ contents s.disk q)
        (λ _ s'. (q : FilePath) → contents s'.disk q ≡ contents s.disk q)
        (verify_handle fs codec json verify_file_acl file s)
unfolding verify_handle
verify_handle-Post fs codec json verify_file_acl contents path_of laws file s =
    branch-Post verify_file_acl _ _ s
      (λ _. on_disk-Post _ _ s (
        Post-lift _ _ (λ _ _ q. laws.verify_file_handle-keeps file q s.disk)
          (λ _ _ q. laws.verify_file_handle-keeps file q s.disk)))
      (λ _. Post-pure tt s (λ q. refl))

module _ {D H : Type 0} (fs : FileSystem D H) (codec : Codec) (json : RecordCodec)
    (verify_file_acl : Bool) (contents : D → FilePath → Option (List ℕ)) (path_of : H → FilePath)
    (laws : FileSystemLaws fs contents path_of) (before : Option (List ℕ)) where
  -- What the file holds is what it held before.
  abbrev pub Kept : FileRecoveryStore D → Type 0
  Kept s = contents s.disk state_path ≡ before

  -- The file held the encoding of a record.
  pub record Holds (r : RecoveryRecord) : Type 0 where
    pub encoded : List ℕ
    pub present : before ≡ some encoded
    pub decodes : json.from_slice encoded ≡ ok (stored_of r)

  abbrev pub Reads : RecoveryRecord → FileRecoveryStore D → Type 0
  Reads r s = Kept s × ((x : RecoveryRecord) → Holds x → r ≡ x)

  read_whole :
      (file : H) (d : D) (bytes : List ℕ) (note : String) (stored : StoredRecoveryRecord)
      (r : RecoveryRecord)
      → path_of file ≡ state_path
      → contents d state_path ≡ before
      → (fs.read_at_most (max_state_bytes + 1) file d).0 ≡ done bytes
      → ltb max_state_bytes (length bytes) ≡ false
      → with_context note (json.from_slice bytes) ≡ ok stored
      → validate_stored codec stored ≡ ok r
      → (x : RecoveryRecord) → Holds x
      → r ≡ x
  read_whole file d bytes note stored r at k got small parsed valid x held =
      let read =
        laws.read_at_most-gives (max_state_bytes + 1) file d held.encoded bytes
          (rw at (k ∙ held.present)) got in
      let whole =
        read
        ∙ take_short held.encoded max_state_bytes
            (rw (sym read) (ltb-eq_false max_state_bytes _ small)) in
      let decoded =
        ok-injective _ _
          (sym (with_context-ok _ note stored parsed) ∙ ap json.from_slice whole ∙ held.decodes) in
      let (marked, tagged) = validate_stored-eq_ok codec stored r valid in
      same r x (marked ∙ ap (λ t. t.high_watermark) decoded) (tagged ∙ ap (λ t. t.marker) decoded)
    where
      same :
          (a b : RecoveryRecord) → a.high_watermark ≡ b.high_watermark → a.marker ≡ b.marker → a ≡ b
      same a b p q = λ i. record { high_watermark = p i; marker = q i }

  read_file-Post :
      (file : H) (s : FileRecoveryStore D)
      → path_of file ≡ state_path
      → Kept s
      → Post (λ _. Kept) Reads (read_file fs codec json verify_file_acl file s)
  unfolding read_file
  read_file-Post file s at k = on_disk-Post _ _ s (
      lift-Post _ _ _ (λ _ _. kept s k)
        λ metadata _.
          lift-Post _ _ _ (λ _ _. kept s k)
            λ _ _.
              call-Post _ _ _
                (verify_handle-Post fs codec json verify_file_acl contents path_of laws file _)
                (λ _ _ same. same state_path ∙ kept s k)
                λ _ s1 same.
                  let k1 : Kept s1 = same state_path ∙ kept s k in
                  bail_if-Post _ _ _ _ (λ _. k1)
                    λ _. on_disk-Post _ _ s1 (
                      lift-Post _ _ _ (λ _ _. still s1 k1)
                        λ bytes got.
                          bail_if-Post _ _ _ _ (λ _. still s1 k1)
                            λ small.
                              lift-Post _ _ _ (λ _ _. still s1 k1)
                                λ stored parsed.
                                  Post-lift _ _ (λ _ _. still s1 k1)
                                    λ r valid. (
                                      still s1 k1,
                                      read_whole file s1.disk bytes _ stored r at k1
                                          (io_context-ok _ _ bytes got) small parsed valid,
                                    )))
    where
      kept :
          (s : FileRecoveryStore D)
          → Kept s
          → contents (fs.handle_metadata file s.disk).1 state_path ≡ before
      kept s k = laws.handle_metadata-keeps file state_path s.disk ∙ k

      still :
          (s : FileRecoveryStore D)
          → Kept s
          → contents (fs.read_at_most (max_state_bytes + 1) file s.disk).1 state_path ≡ before
      still s k = laws.read_at_most-keeps (max_state_bytes + 1) file state_path s.disk ∙ k

  pub validate_directory-Post :
      (s : FileRecoveryStore D)
      → Kept s
      → Post (λ _. Kept) (λ _. Kept) (validate_directory fs codec json verify_file_acl s)
  unfolding validate_directory
  validate_directory-Post s k =
      on_disk-Post _ _ s
        (lift-Post _ _ _ (λ _ _. kept) λ metadata _. Post-lift _ _ (λ _ _. kept) (λ _ _. kept))
    where
      kept : contents (fs.symlink_metadata root_path s.disk).1 state_path ≡ before
      kept = laws.symlink_metadata-keeps root_path state_path s.disk ∙ k

  read_opened-Post :
      (opened : Io H) (s : FileRecoveryStore D)
      → Kept s
      → ((file : H) → opened ≡ done file → path_of file ≡ state_path)
      → ((cause : Error)
          → opened ≡ failed (record { kind = not_found; cause = cause })
          → before ≡ none)
      → Post (λ _. Kept) Reads (read_opened fs codec json verify_file_acl opened s)
  unfolding read_opened
  read_opened-Post (done file) s k at missing = read_file-Post file s (at file refl) k
  read_opened-Post (failed e) s k at missing = read_failed e.kind e.cause missing
    where
      read_failed :
          (kind : IoErrorKind) (cause : Error)
          → ((c : Error)
              → ◌≡◌ {A = Io H}
                  (failed (record { kind = kind; cause = cause }))
                  (failed (record { kind = not_found; cause = c }))
              → before ≡ none)
          → Post
              (λ _. Kept)
              Reads
              (read_opened fs codec json verify_file_acl
                (failed (record { kind = kind; cause = cause }))
                s)
      read_failed not_found cause missing =
          Post-pure no_record s
            (k, λ x held. absurd (not_none before held.encoded held.present (missing cause refl)))
      read_failed already_exists cause missing = Post-raise _ s k
      read_failed other_kind cause missing = Post-raise _ s k

  pub read_record-Post :
      (s : FileRecoveryStore D)
      → Kept s
      → Post (λ _. Kept) Reads (read_record fs codec json verify_file_acl s)
  unfolding read_record
  read_record-Post s k =
      call-Post _ _ _ (validate_directory-Post s k) (λ _ _ k1. k1)
        λ _ s1 k1. on_disk-Post _ _ s1 (
          read_opened-Post _ _ (laws.open_read-keeps state_path state_path s1.disk ∙ k1)
            (laws.open_read-at state_path s1.disk)
            (λ cause e. sym k1 ∙ laws.open_read-missing state_path s1.disk cause e))
