-- ===== src/FileStore.antt =====
-- core/storage/atomic_file_store.h and atomic_file_store.cpp, as it is built for POSIX: the writing of
-- a file by way of a temporary one, and the reading of a file or else of its backup. The file system
-- is a parameter: a record of the operations that the code calls, on a state of its own. The texts of
-- the error messages are left out, but for whether there is one.
pub mod Laws
pub mod Writes
pub mod Memory
use openbrowser.Prelude.Bytes.{Bytes}
use openbrowser.Prelude.{
  String, Bool, true, false, ◌||◌, ◌&&◌, not, Option, none, some, [], is_empty, if◌then◌else◌, ◌<>◌,
}

-- What comes of writing a stream: it does not open, a write fails, or all is written and flushed.
pub data Written : Type 0 where
  not_open bad written : Written

-- The operations of std::filesystem and of the streams, each with whether it succeeds.
pub record FileSystem (S : Type 0) : Type 0 where
  pub parent_path : String → String
  pub create_directories : S → String → S × Bool
  pub exists : S → String → Bool
  pub is_regular_file : S → String → Bool
  pub read : S → String → Option Bytes
  pub write : S → String → Bytes → S × Written
  pub remove : S → String → S × Bool
  pub copy_file : S → String → String → S × Bool
  pub rename : S → String → String → S × Bool

pub record AtomicWriteResult : Type 0 where
  pub success : Bool
  pub has_error_message : Bool
  pub backup_created : Bool

pub data ReadRecoverySource : Type 0 where
  no_source primary backup : ReadRecoverySource

pub record FileReadResult : Type 0 where
  pub success : Bool
  pub source : ReadRecoverySource
  pub content : Bytes
  pub has_error_message : Bool

abbrev pub tmp_path : String → String
tmp_path target = target <> ".tmp"

abbrev pub bak_path : String → String
bak_path target = target <> ".bak"

abbrev pub failed : Bool → AtomicWriteResult
failed backup_created = record {
  success = false;
  has_error_message = true;
  backup_created = backup_created;
}

abbrev pub succeeded : Bool → AtomicWriteResult
succeeded backup_created = record {
  success = true;
  has_error_message = false;
  backup_created = backup_created;
}

abbrev pub accepted : (Bytes → Bool) → Option Bytes → Option Bytes
accepted validator none = none
accepted validator (some content) = if validator content then some content else none

abbrev pub read_from : ReadRecoverySource → Bytes → FileReadResult
read_from source content = record {
  success = true;
  source = source;
  content = content;
  has_error_message = false;
}

abbrev pub not_read : FileReadResult
not_read = record { success = false; source = no_source; content = []; has_error_message = true }

module _ {S : Type 0} (fs : FileSystem S) where
  unfoldable pub read_file_to_string : S → String → Option Bytes
  read_file_to_string s path =
      if not (fs.exists s path) || not (fs.is_regular_file s path) then none else fs.read s path

  abbrev pub make_parent : S → String → S × Bool
  make_parent s target =
      if is_empty (fs.parent_path target)
      then (s, true)
      else fs.create_directories s (fs.parent_path target)

  -- The copy of the file that is there, before it is replaced.
  abbrev pub make_backup : S → String → Bool → S × Bool
  make_backup s target keep_backup =
      if fs.exists s target && keep_backup
      then fs.copy_file s target (bak_path target)
      else (s, false)

  -- Where `rename` fails. `remove` clears the error code that the copy has set.
  unfoldable pub replace_by_copy : S → String → Bool → S × AtomicWriteResult
  replace_by_copy s target backup_created =
      let (s₁, copied) = fs.copy_file s (tmp_path target) target in
      let (s₂, removed) = fs.remove s₁ (tmp_path target) in
      (s₂, if removed then succeeded backup_created else failed backup_created)

  unfoldable pub replace : S × Bool → String → S × AtomicWriteResult
  unfolding replace_by_copy
  replace (s, backup_created) target =
      let (s', renamed) = fs.rename s (tmp_path target) target in
      elim renamed [
        | true ↦ (s', succeeded backup_created)
        | false ↦ replace_by_copy s' target backup_created
      ]

  unfoldable pub after_write : S × Written → String → Bool → S × AtomicWriteResult
  unfolding replace
  after_write (s, not_open) target keep_backup = (s, failed false)
  after_write (s, bad) target keep_backup = ((fs.remove s (tmp_path target)).0, failed false)
  after_write (s, written) target keep_backup = replace (make_backup s target keep_backup) target

  unfoldable pub atomic_write_file : S → String → Bytes → Bool → S × AtomicWriteResult
  unfolding after_write
  atomic_write_file s target content keep_backup =
      if is_empty target
      then (s, failed false)
      else (let (s', made) = make_parent s target in
          elim made [
            | false ↦ (s', failed false)
            | true ↦ after_write (fs.write s' (tmp_path target) content) target keep_backup
          ])

  unfoldable pub read_file_with_backup_recovery : S → String → (Bytes → Bool) → FileReadResult
  unfolding read_file_to_string
  read_file_with_backup_recovery s target validator =
      if is_empty target
      then not_read
      else elim (accepted validator (read_file_to_string s target)) [
        | some content ↦ read_from primary content
        | none ↦ elim (accepted validator (read_file_to_string s (bak_path target))) [
          | some content ↦ record (read_from backup content) { has_error_message = true }
          | none ↦ not_read
        ]
      ]
