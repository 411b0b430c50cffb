-- ===== src/Tests/Disk.antt =====
-- A disk in memory on which every call does what its documentation says, and a format of two or
-- three numbers for the recovery record.
use freedom_cloud.Common.{
  ℕ, zero, suc, ◌≡◌, ◌≢◌, refl, ap, sym, ◌∙◌, Bool, true, false, ◌==◌, ==_iff, inl, inr, Bool-cases,
  Option, none, some, List, [], ◌∷◌, ◌++◌, take, if◌then◌else◌,
}
use freedom_cloud.Fallible.{Result, ok, message, bail, ok-injective}
use freedom_cloud.Broker.Marker.{RecoveryMarker, preparing_marker}
use freedom_cloud.Recovery.Files.{
  FilePath, root_path, state_path, temporary_path, Metadata, IoErrorKind, IoError, not_found,
  already_exists, Io, done, failed, FileSystem, FileSystemLaws,
}
use freedom_cloud.Recovery.Stored.{StoredRecoveryRecord, RecordCodec}
use freedom_cloud.Tests.Host.{browser_policy, ones_digest}

abbrev pub Disk : Type 0
Disk = FilePath → Option (List ℕ)

abbrev same_path : FilePath → FilePath → Bool
same_path root_path root_path = true
same_path state_path state_path = true
same_path (temporary_path n) (temporary_path m) = n == m
same_path _ _ = false

abbrev set : FilePath → Option (List ℕ) → Disk → Disk
set p value d q = if same_path p q then value else d q

abbrev metadata_of : FilePath → Metadata
metadata_of root_path = record {
  is_dir = true;
  is_file = false;
  is_reparse_or_symlink = false;
  len = 0;
}
metadata_of _ = record { is_dir = false; is_file = true; is_reparse_or_symlink = false; len = 3 }

abbrev fails : {A : Type 0} → IoErrorKind → Disk → Io A × Disk
fails kind d = (failed (record { kind = kind; cause = message "refused" }), d)

abbrev open_found : Option (List ℕ) → FilePath → Disk → Io FilePath × Disk
open_found none p d = fails not_found d
open_found (some bytes) p d = (done p, d)

abbrev read_found : Option (List ℕ) → ℕ → Disk → Io (List ℕ) × Disk
read_found none n d = fails not_found d
read_found (some bytes) n d = (done (take n bytes), d)

abbrev create_found : Option (List ℕ) → FilePath → Disk → Io FilePath × Disk
create_found none p d = (done p, set p (some []) d)
create_found (some bytes) p d = fails already_exists d

abbrev write_found : Option (List ℕ) → FilePath → List ℕ → Disk → Io Unit × Disk
write_found none p bytes d = fails not_found d
write_found (some old) p bytes d = (done tt, set p (some (old ++ bytes)) d)

abbrev replace_found : Option (List ℕ) → FilePath → FilePath → Disk → Io Unit × Disk
replace_found none p q d = fails not_found d
replace_found (some bytes) p q d = (done tt, set q (some bytes) (set p none d))

abbrev pub memory_files : FileSystem Disk FilePath
memory_files = record {
  symlink_metadata = λ p d. (done (metadata_of p), d);
  open_read = λ p d. open_found (d p) p d;
  handle_metadata = λ p d. (done (metadata_of p), d);
  verify_file_handle = λ p d. (ok tt, d);
  read_at_most = λ n p d. read_found (d p) n d;
  create_new = λ p d. create_found (d p) p d;
  write_all = λ p bytes d. write_found (d p) p bytes d;
  sync_all = λ p d. (done tt, d);
  replace_file = λ p q d. replace_found (d p) p q d;
  remove_file = λ p d. (done tt, set p none d);
}

same_path_refl : (p : FilePath) → same_path p p ≡ true
same_path_refl root_path = refl
same_path_refl state_path = refl
same_path_refl (temporary_path n) = (==_iff n n).1 refl

same_path→eq : (p q : FilePath) → same_path p q ≡ true → p ≡ q
same_path→eq root_path root_path e = refl
same_path→eq root_path state_path e = cc
same_path→eq root_path (temporary_path m) e = cc
same_path→eq state_path root_path e = cc
same_path→eq state_path state_path e = refl
same_path→eq state_path (temporary_path m) e = cc
same_path→eq (temporary_path n) root_path e = cc
same_path→eq (temporary_path n) state_path e = cc
same_path→eq (temporary_path n) (temporary_path m) e = ap temporary_path ((==_iff n m).0 e)

same_path_other : (p q : FilePath) → p ≢ q → same_path p q ≡ false
same_path_other p q n = elim (Bool-cases (same_path p q)) [
  | inl e ↦ absurd (n (same_path→eq p q e))
  | inr e ↦ e
]

set_at : (p : FilePath) (value : Option (List ℕ)) (d : Disk) → set p value d p ≡ value
set_at p value d = rw (same_path_refl p) refl

set_other : (p q : FilePath) (value : Option (List ℕ)) (d : Disk) → p ≢ q → set p value d q ≡ d q
set_other p q value d n = rw (same_path_other p q n) refl

open_at :
    (found : Option (List ℕ)) (p h : FilePath) (d : Disk)
    → (open_found found p d).0 ≡ done h
    → h ≡ p
open_at none p h d e = cc
open_at (some bytes) p h d e = cc

open_missing :
    (found : Option (List ℕ)) (p : FilePath) (d : Disk) (x : IoError)
    → (open_found found p d).0 ≡ failed x
    → found ≡ none
open_missing none p d x e = refl
open_missing (some bytes) p d x e = cc

open_keeps :
    (found : Option (List ℕ)) (p q : FilePath) (d : Disk) → (open_found found p d).1 q ≡ d q
open_keeps none p q d = refl
open_keeps (some bytes) p q d = refl

read_keeps :
    (found : Option (List ℕ)) (n : ℕ) (q : FilePath) (d : Disk) → (read_found found n d).1 q ≡ d q
read_keeps none n q d = refl
read_keeps (some bytes) n q d = refl

read_gives :
    (found : Option (List ℕ)) (n : ℕ) (d : Disk) (bytes read : List ℕ)
    → found ≡ some bytes
    → (read_found found n d).0 ≡ done read
    → read ≡ take n bytes
read_gives none n d bytes read e r = cc
read_gives (some old) n d bytes read e r = cc (e, r)

create_at :
    (found : Option (List ℕ)) (p h : FilePath) (d : Disk)
    → (create_found found p d).0 ≡ done h
    → (h ≡ p) × ((create_found found p d).1 p ≡ some [])
create_at none p h d e = (cc, set_at p (some []) d)
create_at (some bytes) p h d e = cc

create_others :
    (found : Option (List ℕ)) (p q : FilePath) (d : Disk)
    → p ≢ q
    → (create_found found p d).1 q ≡ d q
create_others none p q d n = set_other p q (some []) d n
create_others (some bytes) p q d n = refl

write_gives :
    (found : Option (List ℕ)) (p : FilePath) (bytes before : List ℕ) (d : Disk)
    → found ≡ some before
    → (write_found found p bytes d).0 ≡ done tt
    → (write_found found p bytes d).1 p ≡ some (before ++ bytes)
write_gives none p bytes before d e r = cc
write_gives (some old) p bytes before d e r =
    set_at p (some (old ++ bytes)) d ∙ ap (λ o. some (o ++ bytes)) cc

write_others :
    (found : Option (List ℕ)) (p q : FilePath) (bytes : List ℕ) (d : Disk)
    → p ≢ q
    → (write_found found p bytes d).1 q ≡ d q
write_others none p q bytes d n = refl
write_others (some old) p q bytes d n = set_other p q (some (old ++ bytes)) d n

replace_gives :
    (found : Option (List ℕ)) (p q : FilePath) (d : Disk)
    → (replace_found found p q d).0 ≡ done tt
    → (replace_found found p q d).1 q ≡ found
replace_gives none p q d e = cc
replace_gives (some bytes) p q d e = set_at q (some bytes) (set p none d)

replace_fails :
    (found : Option (List ℕ)) (p q : FilePath) (d : Disk) (x : IoError)
    → (replace_found found p q d).0 ≡ failed x
    → (replace_found found p q d).1 q ≡ d q
replace_fails none p q d x e = refl
replace_fails (some bytes) p q d x e = cc

abbrev pub disk_contents : Disk → FilePath → Option (List ℕ)
disk_contents d p = d p

abbrev pub disk_path : FilePath → FilePath
disk_path p = p

pub memory_files-Laws : FileSystemLaws memory_files disk_contents disk_path
memory_files-Laws = record {
  symlink_metadata-keeps = λ p q d. refl;
  open_read-keeps = λ p q d. open_keeps (d p) p q d;
  handle_metadata-keeps = λ h q d. refl;
  verify_file_handle-keeps = λ h q d. refl;
  read_at_most-keeps = λ n h q d. read_keeps (d h) n q d;
  sync_all-keeps = λ h q d. refl;
  open_read-at = λ p d h e. open_at (d p) p h d e;
  open_read-missing = λ p d cause e. open_missing (d p) p d _ e;
  read_at_most-gives = λ n h d bytes read e r. read_gives (d h) n d bytes read e r;
  create_new-at = λ p d h e. create_at (d p) p h d e;
  create_new-others = λ p q d n. create_others (d p) p q d n;
  write_all-gives = λ h bytes before d e r. write_gives (d h) h bytes before d e r;
  write_all-others = λ h bytes q d n. write_others (d h) h q bytes d n;
  replace_file-gives = λ p q d e. replace_gives (d p) p q d e;
  replace_file-fails = λ p q d x e. replace_fails (d p) p q d x e;
  remove_file-others = λ p q d n. set_other p q none d n;
}

-- The marker that the format can write.
abbrev pub kept_marker : RecoveryMarker
kept_marker = preparing_marker (browser_policy 3) ones_digest

abbrev marker_byte : Option RecoveryMarker → ℕ
marker_byte none = 0
marker_byte (some marker) = 1

abbrev marker_of : ℕ → Option RecoveryMarker
marker_of zero = none
marker_of (suc n) = some kept_marker

abbrev read_three : List ℕ → Result StoredRecoveryRecord
read_three (p ∷ w ∷ m ∷ []) = ok (record { protocol = p; high_watermark = w; marker = marker_of m })
read_three _ = bail "not a record"

abbrev pub three_numbers : RecordCodec
three_numbers = record {
  to_vec = λ r. ok (r.protocol ∷ r.high_watermark ∷ marker_byte r.marker ∷ []);
  from_slice = read_three;
}

abbrev Readable : Option RecoveryMarker → Type 0
Readable m =
    (x : StoredRecoveryRecord) (bytes : List ℕ)
    → x.marker ≡ m
    → three_numbers.to_vec x ≡ ok bytes
    → three_numbers.from_slice bytes ≡ ok x

three_numbers-Readable : (m : Option RecoveryMarker) → marker_of (marker_byte m) ≡ m → Readable m
three_numbers-Readable m again x bytes e f = rw (sym (ok-injective _ bytes f)) (
    ap (λ n. ok (record { protocol = x.protocol; high_watermark = x.high_watermark; marker = n }))
      (rw e again))

pub three_numbers-none : Readable none
three_numbers-none = three_numbers-Readable none refl

pub three_numbers-kept : Readable (some kept_marker)
three_numbers-kept = three_numbers-Readable (some kept_marker) refl

-- A disk on which the state file holds a record with the watermark 2.
abbrev pub two_on_disk : Disk
two_on_disk root_path = none
two_on_disk state_path = some (1 ∷ 2 ∷ 0 ∷ [])
two_on_disk (temporary_path n) = none
