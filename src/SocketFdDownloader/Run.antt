-- ===== src/SocketFdDownloader/Run.antt =====
-- SocketFdDownloader.cpp, Run: the thread of one upload.
pub mod Owner
use filetransferdaemon.Prelude.{
  ℕ, zero, suc, Bool, true, false, ◌||◌, List, [], ◌∷◌, ◌++◌, map, Text, codes, insert, is_empty,
  if◌then◌else◌,
}
use filetransferdaemon.Downloader.{cancel_in_progress, cancel_done, downloaded, failed, status_eq}
use filetransferdaemon.Platform.{Library, Effect, emit, mkdir, chown}
use filetransferdaemon.SocketFdDownloader.{
  SocketFdDownloader, with_base, set_status, filter_fields, cancel_download, field,
}
use filetransferdaemon.SocketFdDownloader.Files.{FileSystem, clean_up, fix_files}

-- while(!(connected=sock.Connect()) && retries--): `answer n` is the outcome of the attempt with n
-- retries left. The result is `connected`.
unfoldable pub connect : (ℕ → Bool) → ℕ → Bool
connect answer zero = answer 0
connect answer (suc retries) =
    let later = connect answer retries in if answer (suc retries) then true else later

-- What ECGI reports while it parses: a field, a temporary file with its name, or a cancel from
-- another thread.
pub data Part : Type 0 where
  field_added : Text → Text → Part
  file_added : Text → Text → Part
  canceled : Part

unfoldable pub on_part : Library → FileSystem → Part → SocketFdDownloader → SocketFdDownloader
unfolding filter_fields cancel_download
on_part lib fs (field_added name value) c =
    filter_fields lib fs.writable name
      (record c { cgi = record c.cgi { fields = insert name value c.cgi.fields } })
on_part lib fs (file_added file name) c = record c {
  cgi = record c.cgi { file_names = c.cgi.file_names ++ (file, name) ∷ [] };
}
on_part lib fs canceled c = cancel_download c

unfoldable pub on_parts : Library → FileSystem → List Part → SocketFdDownloader → SocketFdDownloader
on_parts lib fs [] c = c
on_parts lib fs (p ∷ ps) c = on_parts lib fs ps (on_part lib fs p c)

-- What the environment does in one Run: `has_dir` is whether the upload directory exists,
-- `throws` whether libeutils throws once the parts have arrived, and `handed` the descriptor that
-- arrives over the socket.
pub record Post : Type 0 where
  pub answer : ℕ → Bool
  pub handed : ℕ
  pub has_dir : Bool
  pub parts : List Part
  pub throws : Bool

final_path : Library → SocketFdDownloader → SocketFdDownloader
unfolding field
final_path lib c =
    if is_empty (field (codes "UPLOADPATH") c.cgi)
    then c
    else with_base c
        (record c.base { destination_path = lib.url_decode (field (codes "UPLOADPATH") c.cgi) })

make_upload_dir : Bool → Text → SocketFdDownloader → List Effect
make_upload_dir true uldir c = []
make_upload_dir false uldir c = mkdir uldir ∷ chown uldir c.user c.group ∷ []

-- The first half of Run; the answer holds `err`. `uldir` is the user's upload directory. What is
-- sent over the socket and the waits are left out.
unfoldable pub receive :
    Library
    → FileSystem
    → Text
    → Post
    → SocketFdDownloader
    → SocketFdDownloader × Bool × List Effect
unfolding connect final_path make_upload_dir
receive lib fs uldir post c =
    if connect post.answer 10
    then (let accepted = record c {
      fd = post.handed;
      cgi = record c.cgi { upload_directory = uldir };
    } in
        let parsed = on_parts lib fs post.parts accepted in
        let effects = make_upload_dir post.has_dir uldir c in
        if post.throws then (parsed, true, effects) else (final_path lib parsed, false, effects))
    else (c, true, [])

-- The second half, up to the call of Complete.
unfoldable pub settle :
    Library → FileSystem → SocketFdDownloader → Bool → SocketFdDownloader × List Effect
unfolding status_eq
settle lib fs c err =
    if err || status_eq c.status cancel_in_progress
    then (
      set_status (if status_eq c.status cancel_in_progress then cancel_done else failed) c,
      clean_up lib c ++ map emit c.signal_failed,
    )
    else (let c' = set_status downloaded c in
        let (effects, threw) = fix_files lib fs c' in
        (c', effects ++ (if threw then [] else map emit c'.signal_done)))

unfoldable pub run :
    Library → FileSystem → Text → Post → SocketFdDownloader → SocketFdDownloader × List Effect
unfolding receive settle
run lib fs uldir post c =
    let (received, err, made) = receive lib fs uldir post c in
    let (settled, effects) = settle lib fs received err in (settled, made ++ effects)
