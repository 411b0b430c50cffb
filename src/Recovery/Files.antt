-- ===== src/Recovery/Files.antt =====
-- The calls of `std::fs` that the store makes, on a disk `D` with open files `H`.
use freedom_cloud.Common.{ℕ, ◌≡◌, ◌≢◌, Bool, String, Option, none, some, List, [], ◌++◌, take}
use freedom_cloud.Fallible.{Error, Result, ok, err, context}

-- The store's directory, the file `strict-recovery-v1.json` in it, and its temporary files by number.
pub data FilePath : Type 0 where
  root_path state_path : FilePath
  temporary_path : ℕ → FilePath

pub record Metadata : Type 0 where
  pub is_dir : Bool
  pub is_file : Bool
  pub is_reparse_or_symlink : Bool
  pub len : ℕ

-- `io::ErrorKind`, as far as the store tells the kinds apart.
pub data IoErrorKind : Type 0 where
  not_found already_exists other_kind : IoErrorKind

pub record IoError : Type 0 where
  pub kind : IoErrorKind
  pub cause : Error

pub data Io (A : Type 0) : Type 0 where
  done : A → Io A
  failed : IoError → Io A

-- `.context(..)`
abbrev pub io_context : {A : Type 0} → String → Io A → Result A
io_context s (done a) = ok a
io_context s (failed e) = err (context s e.cause)

pub record FileSystem (D H : Type 0) : Type 0 where
  pub symlink_metadata : FilePath → D → Io Metadata × D
  pub open_read : FilePath → D → Io H × D
  pub handle_metadata : H → D → Io Metadata × D
  -- `WindowsRecoveryAclVerifier::verify_file_handle`
  pub verify_file_handle : H → D → Result Unit × D
  -- `Read::take(.., n).read_to_end(..)`
  pub read_at_most : ℕ → H → D → Io (List ℕ) × D
  pub create_new : FilePath → D → Io H × D
  pub write_all : H → List ℕ → D → Io Unit × D
  pub sync_all : H → D → Io Unit × D
  pub replace_file : FilePath → FilePath → D → Io Unit × D
  pub remove_file : FilePath → D → Io Unit × D

-- The documented behaviour. `contents` is what a path holds, and an open file is one of a path.
pub record FileSystemLaws {D H : Type 0} (fs : FileSystem D H)
    (contents : D → FilePath → Option (List ℕ)) (path_of : H → FilePath) : Type 0 where
  pub symlink_metadata-keeps :
      (p q : FilePath) (d : D) → contents (fs.symlink_metadata p d).1 q ≡ contents d q
  pub open_read-keeps : (p q : FilePath) (d : D) → contents (fs.open_read p d).1 q ≡ contents d q
  pub handle_metadata-keeps :
      (h : H) (q : FilePath) (d : D) → contents (fs.handle_metadata h d).1 q ≡ contents d q
  pub verify_file_handle-keeps :
      (h : H) (q : FilePath) (d : D) → contents (fs.verify_file_handle h d).1 q ≡ contents d q
  pub read_at_most-keeps :
      (n : ℕ) (h : H) (q : FilePath) (d : D) → contents (fs.read_at_most n h d).1 q ≡ contents d q
  pub sync_all-keeps :
      (h : H) (q : FilePath) (d : D) → contents (fs.sync_all h d).1 q ≡ contents d q
  pub open_read-at : (p : FilePath) (d : D) (h : H) → (fs.open_read p d).0 ≡ done h → path_of h ≡ p
  pub open_read-missing :
      (p : FilePath) (d : D) (cause : Error)
      → (fs.open_read p d).0 ≡ failed (record { kind = not_found; cause = cause })
      → contents d p ≡ none
  pub read_at_most-gives :
      (n : ℕ) (h : H) (d : D) (bytes read : List ℕ)
      → contents d (path_of h) ≡ some bytes
      → (fs.read_at_most n h d).0 ≡ done read
      → read ≡ take n bytes
  pub create_new-at :
      (p : FilePath) (d : D) (h : H)
      → (fs.create_new p d).0 ≡ done h
      → (path_of h ≡ p) × (contents (fs.create_new p d).1 p ≡ some [])
  pub create_new-others :
      (p q : FilePath) (d : D) → p ≢ q → contents (fs.create_new p d).1 q ≡ contents d q
  pub write_all-gives :
      (h : H) (bytes before : List ℕ) (d : D)
      → contents d (path_of h) ≡ some before
      → (fs.write_all h bytes d).0 ≡ done tt
      → contents (fs.write_all h bytes d).1 (path_of h) ≡ some (before ++ bytes)
  pub write_all-others :
      (h : H) (bytes : List ℕ) (q : FilePath) (d : D)
      → path_of h ≢ q
      → contents (fs.write_all h bytes d).1 q ≡ contents d q
  -- the replacement is atomic
  pub replace_file-gives :
      (p q : FilePath) (d : D)
      → (fs.replace_file p q d).0 ≡ done tt
      → contents (fs.replace_file p q d).1 q ≡ contents d p
  pub replace_file-fails :
      (p q : FilePath) (d : D) (e : IoError)
      → (fs.replace_file p q d).0 ≡ failed e
      → contents (fs.replace_file p q d).1 q ≡ contents d q
  pub remove_file-others :
      (p q : FilePath) (d : D) → p ≢ q → contents (fs.remove_file p d).1 q ≡ contents d q
