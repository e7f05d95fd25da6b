-- ===== src/AuditSink.antt =====
-- src/audit_sink.rs: the audit file is opened only in a private directory, and written durably. The
-- file system is a parameter: every call of it reads and changes a state that other programs may
-- change as well. Paths are a parameter, too.
pub mod Private
pub mod Durable
mod Tests
use agent_veil.Audit.{AuditEvent}
use agent_veil.Prelude.{
  ℕ, ◌%◌, Text, Bool, true, false, not, ◌&&◌, ◌||◌, ◌==◌, Option, none, some, ok, err, Run,
  and_then, if◌then◌else◌,
}

pub data AuditSinkError : Type 0 where
  missing_parent create_directory directory_metadata unsafe_directory : AuditSinkError
  permissive_directory_mode unsafe_file permissive_file_mode open_failed : AuditSinkError
  file_metadata_failed serialize poisoned write_failed flush_failed sync_failed : AuditSinkError

-- `std::io::ErrorKind`, as far as it is told apart.
pub data ErrorKind : Type 0 where
  not_found already_exists other : ErrorKind

pub record Metadata : Type 0 where
  pub is_symlink : Bool
  pub is_dir : Bool
  pub is_file : Bool
  pub nlink : ℕ
  pub mode : ℕ

-- What the operating system does, on paths, files and its state.
pub record Os (P F S : Type 0) : Type 0 where
  pub parent : P → Option P
  pub file_name : P → Option P
  pub join : P → P → P
  pub is_empty : P → Bool
  pub current_directory : P
  pub symlink_metadata : P → S → Run ErrorKind S Metadata
  pub canonicalize : P → S → Run ErrorKind S P
  pub create_directory : P → S → Run ErrorKind S (Unit {0})
  pub open_append : P → S → Run ErrorKind S F
  pub file_metadata : F → S → Run ErrorKind S Metadata
  pub write_all : F → Text → S → Run ErrorKind S (Unit {0})
  pub flush : F → S → Run ErrorKind S (Unit {0})
  pub sync_data : F → S → Run ErrorKind S (Unit {0})

-- `map_err(|_| error)?`
unfoldable pub failing :
    {S A : Type 0} → AuditSinkError → Run ErrorKind S A → Run AuditSinkError S A
failing e (ok a, s) = (ok a, s)
failing e (err k, s) = (err e, s)

-- `ok_or(error)?`
unfoldable pub required : {S A : Type 0} → AuditSinkError → Option A → S → Run AuditSinkError S A
required e none s = (err e, s)
required e (some a) s = (ok a, s)

unfoldable pub refuse : {S : Type 0} → Bool → AuditSinkError → S → Run AuditSinkError S (Unit {0})
refuse true e s = (err e, s)
refuse false e s = (ok tt, s)

-- `mode & 0o077 == 0`: no permission for the group or for others.
unfoldable pub is_private : Metadata → Bool
is_private m = m.mode % 64 == 0

unfoldable pub is_real_directory : Metadata → Bool
is_real_directory m = not m.is_symlink && m.is_dir

module _ {P F S : Type 0} (os : Os P F S) where
  unfoldable pub or_current : P → P
  or_current path = if os.is_empty path then os.current_directory else path

  unfoldable pub validate_private_directory : P → S → Run AuditSinkError S P
  validate_private_directory path s =
      and_then (failing AuditSinkError.directory_metadata (os.symlink_metadata path s)) λ m s.
        and_then (refuse (not (is_real_directory m)) AuditSinkError.unsafe_directory s) λ u s.
          and_then (refuse (not (is_private m)) AuditSinkError.permissive_directory_mode s)
            λ u s. failing AuditSinkError.directory_metadata (os.canonicalize path s)

  -- A directory that exists already is no error.
  unfoldable pub created : Run ErrorKind S (Unit {0}) → Run AuditSinkError S (Unit {0})
  created (ok u, s) = (ok tt, s)
  created (err ErrorKind.already_exists, s) = (ok tt, s)
  created (err ErrorKind.not_found, s) = (err AuditSinkError.create_directory, s)
  created (err ErrorKind.other, s) = (err AuditSinkError.create_directory, s)

  unfoldable pub create_private_directory : P → S → Run AuditSinkError S P
  create_private_directory path s =
      and_then (required AuditSinkError.missing_parent (os.parent path) s) λ base s.
        and_then (failing AuditSinkError.directory_metadata (os.canonicalize (or_current base) s))
          λ canonical_base s.
            and_then (required AuditSinkError.unsafe_directory (os.file_name path) s) λ leaf s.
              let secure_path = os.join canonical_base leaf in
              and_then (created (os.create_directory secure_path s))
                λ u s. validate_private_directory secure_path s

  -- The match on the first look at the directory.
  unfoldable pub looked_up : P → Run ErrorKind S Metadata → Run AuditSinkError S P
  looked_up path (ok m, s) =
      and_then (refuse (not (is_real_directory m)) AuditSinkError.unsafe_directory s)
        λ u s. validate_private_directory path s
  looked_up path (err ErrorKind.not_found, s) = create_private_directory path s
  looked_up path (err ErrorKind.already_exists, s) = (err AuditSinkError.directory_metadata, s)
  looked_up path (err ErrorKind.other, s) = (err AuditSinkError.directory_metadata, s)

  unfoldable pub ensure_private_directory : P → S → Run AuditSinkError S P
  ensure_private_directory path s = looked_up path (os.symlink_metadata path s)

  -- A file that is there already is looked at before it is opened.
  unfoldable pub check_existing : Run ErrorKind S Metadata → Run AuditSinkError S (Unit {0})
  check_existing (err k, s) = (ok tt, s)
  check_existing (ok m, s) =
      and_then (refuse (m.is_symlink || not m.is_file) AuditSinkError.unsafe_file s)
        λ u s. refuse (not (is_private m)) AuditSinkError.permissive_file_mode s

  unfoldable pub open_private : P → S → Run AuditSinkError S F
  open_private secure_path s =
      and_then (failing AuditSinkError.open_failed (os.open_append secure_path s)) λ file s.
        and_then (failing AuditSinkError.file_metadata_failed (os.file_metadata file s)) λ m s.
          and_then
            (refuse (not m.is_file || not (m.nlink == 1) || not (is_private m))
              AuditSinkError.permissive_file_mode s)
            λ u s. (ok file, s)

  -- `AuditSink::open`
  unfoldable pub open_sink : P → S → Run AuditSinkError S F
  open_sink path s =
      and_then (required AuditSinkError.missing_parent (os.parent path) s) λ parent s.
        and_then (ensure_private_directory (or_current parent) s) λ secure_parent s.
          and_then (required AuditSinkError.unsafe_file (os.file_name path) s) λ file_name s.
            let secure_path = os.join secure_parent file_name in
            and_then (check_existing (os.symlink_metadata secure_path s))
              λ u s. open_private secure_path s

  -- `AuditSink::write`; the line is what `to_json_line` returns, and the lock may be poisoned.
  unfoldable pub write :
      (AuditEvent → Option Text) → F → Bool → AuditEvent → S → Run AuditSinkError S (Unit {0})
  write to_json_line file is_poisoned event s =
      and_then (required AuditSinkError.serialize (to_json_line event) s) λ line s.
        and_then (refuse is_poisoned AuditSinkError.poisoned s) λ u s.
          and_then (failing AuditSinkError.write_failed (os.write_all file line s)) λ u s.
            and_then (failing AuditSinkError.flush_failed (os.flush file s))
              λ u s. failing AuditSinkError.sync_failed (os.sync_data file s)
