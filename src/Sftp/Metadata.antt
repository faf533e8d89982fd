-- ===== src/Sftp/Metadata.antt =====
-- `get_file_metadata` of backend/app/infra/sftp.py
use Prim.Native.Char.{code}
use document_classifier_week.Prelude.{String, Bool, false, ◌||◌, ◌==◌, nat_eq, if◌then◌else◌}
use document_classifier_week.Session.{
  Outside, Stat, sftp_permission, sftp_file, sftp_client_error, M, Result, ok, err, step,
}
use document_classifier_week.Sftp.{when_connected, SftpFileInfo, or_zero}

abbrev pub has_slash : String → Bool
has_slash String.[] = false
has_slash (String.◌∷◌ c s) = code c == b'/' || has_slash s

-- `remote_path.rsplit("/", 1)[-1]`: what follows the last slash, or the whole path
abbrev pub last_segment : String → String
last_segment String.[] = ""
last_segment (String.◌∷◌ c s) =
    let rest = last_segment s in
    if has_slash s then rest else (if code c == b'/' then s else String.◌∷◌ c s)

abbrev metadata_of : String → Stat → Result SftpFileInfo
metadata_of remote_path (Stat.attributes st_size st_mtime) = ok (record {
  filename = last_segment remote_path;
  remote_path = remote_path;
  size_bytes = or_zero st_size;
  modified_at = or_zero st_mtime;
})
metadata_of remote_path Stat.permission_error = err sftp_permission
metadata_of remote_path Stat.file_not_found = err sftp_file
metadata_of remote_path Stat.os_error = err sftp_file
metadata_of remote_path Stat.other_error = err sftp_client_error

unfoldable pub get_file_metadata : Outside → String → M SftpFileInfo
unfolding when_connected
get_file_metadata o remote_path =
    when_connected o (λ w. (metadata_of remote_path (o.stat w.tick remote_path), step w))
