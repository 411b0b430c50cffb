-- ===== src/Recovery/Writing.antt =====
-- Writing the recovery file: it keeps what it held, or holds the encoding of the new record.
use freedom_cloud.Common.{
  ℕ, zero, suc, ◌+◌, ◌%◌, ◌^◌, String, ◌≡◌, ◌≢◌, refl, ap, ◌∙◌, sym, Bool, Option, some, List, [],
}
use freedom_cloud.Fallible.{Error, Result, ok, err}
use freedom_cloud.Action.{
  Post, Post-lift, Post-pure, Post-raise, Post-state, Post-ok, Post-err, Action, lift-Post,
  bail_if-Post, call-Post, attempt-Post, gets-Post, modify-Post,
}
use freedom_cloud.Contract.Codec.{Codec}
use freedom_cloud.Broker.Marker.{RecoveryRecord}
use freedom_cloud.Recovery.Files.{
  FilePath, state_path, temporary_path, IoErrorKind, not_found, already_exists, other_kind, Io,
  done, failed, IoError, io_context, FileSystem, FileSystemLaws,
}
use freedom_cloud.Recovery.Stored.{RecordCodec, stored_of}
use freedom_cloud.Recovery.{
  FileRecoveryStore, verify_handle, keep_verified, verify_temporary, after_creation,
  create_temporary_file, write_temporary, finish_write, write_record,
}
use freedom_cloud.Recovery.Reading.{
  Kept, on_disk-Post, io_context-ok, with_context-ok, verify_handle-Post, validate_directory-Post,
}

module _ {D H : Type 0} (fs : FileSystem D H) (codec : Codec) (json : RecordCodec)
    (verify_file_acl : Bool) (contents : D → FilePath → Option (List ℕ)) (path_of : H → FilePath)
    (laws : FileSystemLaws fs contents path_of) (before : Option (List ℕ)) where
  abbrev Still : FileRecoveryStore D → Type 0
  Still = Kept fs codec json verify_file_acl contents path_of laws before

  -- A temporary file is another file than the state's, open under its path, and empty.
  abbrev Created : FilePath × H → FileRecoveryStore D → Type 0
  Created t s = Still s × (t.0 ≢ state_path) × (path_of t.1 ≡ t.0) × (contents s.disk t.0 ≡ some [])

  temporary_path-other : (n : ℕ) → temporary_path n ≢ state_path
  temporary_path-other n e = cc

  io_context-err :
      {A : Type 0} (r : Io A) (note : String) (e : Error)
      → io_context note r ≡ err e
      → (x : IoError) × (r ≡ failed x)
  io_context-err (done a) note e p = cc
  io_context-err (failed x) note e p = (x, refl)

  keep_verified-Post :
      (n : ℕ) (file : H) (r : Result Unit) (s : FileRecoveryStore D)
      → Created (temporary_path n, file) s
      → Post (λ _. Still) Created (keep_verified fs codec json verify_file_acl n file r s)
  unfolding keep_verified
  keep_verified-Post n file (ok _) s c = Post-pure _ s c
  keep_verified-Post n file (err e) s (k, _, _, _) = on_disk-Post _ _ s (
      Post-raise _ _
        (laws.remove_file-others (temporary_path n) state_path s.disk (temporary_path-other n) ∙ k))

  verify_temporary-Post :
      (n : ℕ) (file : H) (s : FileRecoveryStore D)
      → Created (temporary_path n, file) s
      → Post (λ _. Still) Created (verify_temporary fs codec json verify_file_acl n file s)
  unfolding verify_temporary
  verify_temporary-Post n file s (k, other, at, empty) = attempt-Post _ _ s λ r _.
      keep_verified-Post n file r _
        (same state_path ∙ k, other, at, same (temporary_path n) ∙ empty)
    where
      same :
          (q : FilePath)
          → contents (verify_handle fs codec json verify_file_acl file s).1.disk q
            ≡ contents s.disk q
      same =
          Post-state _
            (verify_handle-Post fs codec json verify_file_acl contents path_of laws file s)

  after_creation-Post :
      (n : ℕ) (created : Io H) (others : Action (FileRecoveryStore D) (FilePath × H))
      (s : FileRecoveryStore D)
      → Still s
      → ((file : H) → created ≡ done file → Created (temporary_path n, file) s)
      → Post (λ _. Still) Created (others s)
      → Post (λ _. Still) Created (after_creation fs codec json verify_file_acl n created others s)
  unfolding after_creation
  after_creation-Post n (done file) others s k c next = verify_temporary-Post n file s (c file refl)
  after_creation-Post n (failed e) others s k c next = by_kind e.kind e.cause
    where
      by_kind :
          (kind : IoErrorKind) (cause : Error)
          → Post
              (λ _. Still)
              Created
              (after_creation fs codec json verify_file_acl n
                (failed (record { kind = kind; cause = cause }))
                others
                s)
      by_kind not_found cause = Post-raise _ s k
      by_kind already_exists cause = next
      by_kind other_kind cause = Post-raise _ s k

  -- However many attempts are left.
  create_temporary_file-Post :
      (attempts : ℕ) (s : FileRecoveryStore D)
      → Still s
      → Post (λ _. Still) Created (create_temporary_file fs codec json verify_file_acl attempts s)
  unfolding create_temporary_file
  create_temporary_file-Post zero s k = Post-raise _ s k
  create_temporary_file-Post (suc attempts) s k = gets-Post _ _ s (
      modify-Post _ _ s (
        on_disk-Post _ _ _
          (after_creation-Post n _ _ _ kept created (create_temporary_file-Post attempts _ kept))))
    where
      n : ℕ
      n = s.temp_file_sequence

      kept : contents (fs.create_new (temporary_path n) s.disk).1 state_path ≡ before
      kept =
          laws.create_new-others (temporary_path n) state_path s.disk (temporary_path-other n) ∙ k

      created :
          (file : H)
          → (fs.create_new (temporary_path n) s.disk).0 ≡ done file
          → Created
              (temporary_path n, file)
              (record {
                disk = (fs.create_new (temporary_path n) s.disk).1;
                temp_file_sequence = (n + 1) % 2 ^ 64;
              })
      created file e =
          let (at, empty) = laws.create_new-at (temporary_path n) s.disk file e in
          (kept, temporary_path-other n, at, empty)

  write_temporary-Post :
      (path : FilePath) (file : H) (bytes : List ℕ) (s : FileRecoveryStore D)
      → Created (path, file) s
      → Post
          (λ _. Still)
          (λ _ s'. contents s'.disk state_path ≡ some bytes)
          (write_temporary fs codec json verify_file_acl path file bytes s)
  unfolding write_temporary
  write_temporary-Post path file bytes s (k, other, at, empty) = on_disk-Post _ _ s (
      lift-Post _ _ _ (λ _ _. kept)
        λ _ wrote. on_disk-Post _ _ _ (
          lift-Post _ _ _ (λ _ _. flushed)
            λ _ _. on_disk-Post _ _ _ (
              Post-lift _ _
                (λ e refused.
                  let (x, f) = io_context-err _ _ e refused in
                  laws.replace_file-fails path state_path _ x f ∙ flushed)
                (λ _ moved.
                  laws.replace_file-gives path state_path _ (io_context-ok _ _ tt moved)
                  ∙ laws.sync_all-keeps file path _
                  ∙ whole (io_context-ok _ _ tt wrote)))))
    where
      d1 : D
      d1 = (fs.write_all file bytes s.disk).1

      kept : contents d1 state_path ≡ before
      kept = laws.write_all-others file bytes state_path s.disk (rw at other) ∙ k

      flushed : contents (fs.sync_all file d1).1 state_path ≡ before
      flushed = laws.sync_all-keeps file state_path d1 ∙ kept

      whole : (fs.write_all file bytes s.disk).0 ≡ done tt → contents d1 path ≡ some bytes
      whole e =
          ap (contents d1) (sym at)
          ∙ laws.write_all-gives file bytes [] s.disk (ap (contents s.disk) at ∙ empty) e

  -- The file holds the encoding of this record.
  pub record Written (r : RecoveryRecord) (s : FileRecoveryStore D) : Type 0 where
    pub bytes : List ℕ
    pub encodes : json.to_vec (stored_of r) ≡ ok bytes
    pub present : contents s.disk state_path ≡ some bytes

  finish_write-Post :
      (path : FilePath) (written : Result Unit) (r : RecoveryRecord) (s : FileRecoveryStore D)
      → path ≢ state_path
      → ((e : Error) → written ≡ err e → Still s)
      → (written ≡ ok tt → Written r s)
      → Post
          (λ _. Still)
          (λ _. Written r)
          (finish_write fs codec json verify_file_acl path written s)
  unfolding finish_write
  finish_write-Post path (ok _) r s other f g = Post-pure tt s (g refl)
  finish_write-Post path (err e) r s other f g =
      on_disk-Post _ _ s
        (Post-raise _ _ (laws.remove_file-others path state_path s.disk other ∙ f e refl))

  -- Whether or not the calls succeed, `write_record` leaves the file as it was, or with the
  -- encoding of the record, and the second exactly when it succeeds.
  pub write_record-Post :
      (r : RecoveryRecord) (s : FileRecoveryStore D)
      → Still s
      → Post (λ _. Still) (λ _. Written r) (write_record fs codec json verify_file_acl r s)
  unfolding write_record
  write_record-Post r s k =
      call-Post _ _ _
        (validate_directory-Post fs codec json verify_file_acl contents path_of laws before s k)
        (λ _ _ k1. k1)
        λ _ s1 k1. on_disk-Post _ _ s1 (
          lift-Post _ _ _ (λ _ _. seen s1 k1)
            λ _ _.
              lift-Post _ _ _ (λ _ _. seen s1 k1)
                λ bytes encoded.
                  bail_if-Post _ _ _ _ (λ _. seen s1 k1)
                    λ _.
                      call-Post _ _ _ (create_temporary_file-Post 32 _ (seen s1 k1)) (λ _ _ k2. k2)
                        λ t s2 c. attempt-Post _ _ s2 λ written e.
                          finish_write-Post t.0 written r _ (c.1)
                            (λ x f. Post-err (write_temporary-Post t.0 t.1 bytes s2 c) x (e ∙ f))
                            (λ f. record {
                              bytes = bytes;
                              encodes = with_context-ok _ _ bytes encoded;
                              present =
                                  Post-ok (write_temporary-Post t.0 t.1 bytes s2 c) tt (e ∙ f);
                            }))
    where
      seen :
          (s : FileRecoveryStore D)
          → Still s
          → contents (fs.symlink_metadata state_path s.disk).1 state_path ≡ before
      seen s k = laws.symlink_metadata-keeps state_path state_path s.disk ∙ k
