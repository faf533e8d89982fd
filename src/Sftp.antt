-- ===== src/Sftp.antt =====
-- backend/app/infra/sftp.py: `list_files` and `read_file_content` of an adapter. The
-- connection and the metadata of one file are the modules below.
pub mod Connection
pub mod Metadata
pub mod Paths
use Prim.Native.Char.{code}
use document_classifier_week.Prelude.{
  ℕ, ◌/◌, ◌%◌, String, ◌<>◌, Bool, true, ◌&&◌, Option, none, some, List, [], ◌∷◌, ◌==◌, nat_eq,
  string_eq, if◌then◌else◌,
}
use document_classifier_week.Models.{Time, Bytes}
use document_classifier_week.Session.{
  Outside, SftpEntry, Listing, Reading, sftp_permission, sftp_file, sftp_connection,
  sftp_client_error, M, Result, ok, err, step,
}

pub record SftpFileInfo : Type 0 where
  pub filename : String
  pub remote_path : String
  pub size_bytes : ℕ
  pub modified_at : Time

-- `remote_dir.rstrip('/')`
unfoldable pub rstrip_slash : String → String
rstrip_slash String.[] = ""
rstrip_slash (String.◌∷◌ c s) =
    let rest = rstrip_slash s in if rest == "" && code c == b'/' then "" else String.◌∷◌ c rest

-- `stat.S_ISREG`: the file type bits, 0o170000, are 0o100000
unfoldable pub is_regular_file : ℕ → Bool
is_regular_file mode = mode / 4096 % 16 == 8

-- `entry.st_mode is not None and not self._is_regular_file(…)` skips
unfoldable pub is_listed : SftpEntry → Bool
unfolding is_regular_file
is_listed entry = elim entry.st_mode [ none ↦ true | some mode ↦ is_regular_file mode ]

-- `value or 0`
abbrev pub or_zero : Option ℕ → ℕ
or_zero none = 0
or_zero (some n) = n

unfoldable pub file_infos : String → List SftpEntry → List SftpFileInfo
unfolding is_listed rstrip_slash
file_infos remote_dir [] = []
file_infos remote_dir (entry ∷ entries) =
    let rest = file_infos remote_dir entries in
    if is_listed entry
    then record {
      filename = entry.filename;
      remote_path = rstrip_slash remote_dir <> ("/" <> entry.filename);
      size_bytes = or_zero entry.st_size;
      modified_at = or_zero entry.st_mtime;
    }
      ∷ rest
    else rest

unfoldable pub listed : String → Listing → Result (List SftpFileInfo)
unfolding file_infos
listed remote_dir (Listing.entries entries) = ok (file_infos remote_dir entries)
listed remote_dir Listing.permission_error = err sftp_permission
listed remote_dir Listing.file_not_found = err sftp_file
listed remote_dir Listing.os_error = err sftp_file
listed remote_dir Listing.other_error = err sftp_client_error

read_result : Reading → Result Bytes
read_result (Reading.content bytes) = ok bytes
read_result Reading.permission_error = err sftp_permission
read_result Reading.file_not_found = err sftp_file
read_result Reading.os_error = err sftp_file
read_result Reading.other_error = err sftp_client_error
read_result Reading.read_error = err sftp_client_error

module _ (o : Outside) where
  -- `_ensure_connected()`, and the call after it
  unfoldable pub when_connected : {A : Type 0} → M A → M A
  when_connected m w = if o.sftp_connected w.tick then m w else (err sftp_connection, w)

  unfoldable pub list_files : String → M (List SftpFileInfo)
  unfolding listed when_connected
  list_files remote_dir =
      when_connected (λ w. (listed remote_dir (o.listdir_attr w.tick remote_dir), step w))

  unfoldable pub read_file_content : String → M Bytes
  unfolding read_result when_connected
  read_file_content remote_path =
      when_connected (λ w. (read_result (o.open_read w.tick remote_path), step w))
