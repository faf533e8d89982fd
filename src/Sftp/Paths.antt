-- ===== src/Sftp/Paths.antt =====
-- The paths of a listing, read back.
use Prim.Native.Char.{Char, code}
use text.Mathlib.TextLemmas.{cons-append, nil-append}
use mathlib.Core.List.{Memᴰ}
use mathlib.Core.List.Memᴰ.{cases_cons, not-nil}
use document_classifier_week.Prelude.{
  or_true, ◌≡◌, refl, sym, ◌∙◌, ap, subst, String, ◌<>◌, Bool, true, false, ◌||◌, some, List, [],
  ◌∷◌, ◌==◌, nat_eq, inl, inr, if◌then◌else◌,
}
use document_classifier_week.Session.{SftpEntry, Outside, Stat, World, ok, step}
use document_classifier_week.Sftp.{
  when_connected, SftpFileInfo, is_listed, file_infos, rstrip_slash,
}
use document_classifier_week.Sftp.Metadata.{has_slash, last_segment, get_file_metadata}

slash-append : (f : String) → "/" <> f ≡ String.◌∷◌ "/" f
slash-append f = cons-append "/" "" f ∙ ap (String.◌∷◌ "/") (nil-append f)

joined-cons :
    (c : Char) (d f : String) → String.◌∷◌ c d <> ("/" <> f) ≡ String.◌∷◌ c (d <> ("/" <> f))
joined-cons c d f = cons-append c d ("/" <> f)

joined-nil : (f : String) → "" <> ("/" <> f) ≡ String.◌∷◌ "/" f
joined-nil f = nil-append ("/" <> f) ∙ slash-append f

has_slash-append : (d f : String) → has_slash (d <> ("/" <> f)) ≡ true
has_slash-append String.[] f = ap has_slash (joined-nil f)
has_slash-append (String.◌∷◌ c d) f =
    ap has_slash (joined-cons c d f)
    ∙ ap (λ b. code c == b'/' || b) (has_slash-append d f)
    ∙ or_true (code c == b'/')

-- what follows the slash of a joined path, if there is no further one
last_segment-append : (d f : String) → has_slash f ≡ false → last_segment (d <> ("/" <> f)) ≡ f
last_segment-append String.[] f h = ap last_segment (joined-nil f) ∙ rw (h, if◌then◌else◌) refl
last_segment-append (String.◌∷◌ c d) f h =
    ap last_segment (joined-cons c d f)
    ∙ rw (has_slash-append d f, if◌then◌else◌) (last_segment-append d f h)

-- the path under which a listing shows a file
abbrev IsJoined : String → SftpFileInfo → Type 0
IsJoined dir info = info.remote_path ≡ rstrip_slash dir <> ("/" <> info.filename)

cons-IsJoined :
    (dir : String) (b : Bool) (first : SftpFileInfo) (rest : List SftpFileInfo)
    (info : SftpFileInfo)
    → IsJoined dir first
    → (Memᴰ info rest → IsJoined dir info)
    → Memᴰ info (if b then first ∷ rest else rest)
    → IsJoined dir info
cons-IsJoined dir true first rest info here below mem = elim (cases_cons mem) [
  | inl same ↦ subst (IsJoined dir) (sym same) here
  | inr m ↦ below m
]
cons-IsJoined dir false first rest info here below mem = below mem

listed-IsJoined :
    (dir : String) (entries : List SftpEntry) (info : SftpFileInfo)
    → Memᴰ info (file_infos dir entries)
    → IsJoined dir info
unfolding file_infos
listed-IsJoined dir [] info mem = absurd (not-nil mem)
listed-IsJoined dir (entry ∷ entries) info mem =
    cons-IsJoined dir (is_listed entry) _ (file_infos dir entries) info refl
      (listed-IsJoined dir entries info) mem

-- The listing of a directory and the metadata of one file agree: for each file that a listing shows
-- and whose name has no slash, `get_file_metadata` of its path, if the adapter is connected and the server answers with the size
-- and the time of the listing, gives exactly what the listing shows.
pub get_file_metadata-listed :
    (o : Outside) (dir : String) (entries : List SftpEntry) (info : SftpFileInfo) (w : World)
    → Memᴰ info (file_infos dir entries)
    → has_slash info.filename ≡ false
    → o.sftp_connected w.tick ≡ true
    → o.stat w.tick info.remote_path
      ≡ Stat.attributes (some info.size_bytes) (some info.modified_at)
    → get_file_metadata o info.remote_path w ≡ (ok info, step w)
unfolding get_file_metadata when_connected
get_file_metadata-listed o dir entries info w mem plain connected answer =
    let name : last_segment info.remote_path ≡ info.filename =
      ap last_segment (listed-IsJoined dir entries info mem)
      ∙ last_segment-append (rstrip_slash dir) info.filename plain in
    rw (connected, if◌then◌else◌, answer)
      (ap (λ n. (ok (record info { filename = n }), step w)) name)
