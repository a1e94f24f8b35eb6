-- ===== src/SocketFdDownloader/Files.antt =====
-- SocketFdDownloader.cpp, CleanUp and FixFiles: what becomes of the temporary files of an upload.
pub mod Copies
use filetransferdaemon.Prelude.{
  ℕ, ◌+◌, Bool, true, false, not, ◌&&◌, List, [], ◌∷◌, ◌++◌, Text, codes, starts_with, ◌==◌,
  if◌then◌else◌,
}
use filetransferdaemon.Downloader.{no_owner}
use filetransferdaemon.Platform.{Library, Effect, unlink, chown, chmod, rename, copy_file}
use filetransferdaemon.SocketFdDownloader.{SocketFdDownloader}

-- What the operating system answers.
pub record FileSystem : Type 0 where
  pub writable : Text → ℕ → Bool
  pub same_device : Text → Text → Bool
  pub can_rename : Text → Text → Bool
  pub can_copy : Text → Text → Bool
  pub can_unlink : Text → Bool

unfoldable pub unlink_all : List (Text × Text) → List Effect
unlink_all [] = []
unlink_all ((file, name) ∷ files) = unlink file ∷ unlink_all files

unfoldable pub clean_up : Library → SocketFdDownloader → List Effect
unfolding unlink_all
clean_up lib c = unlink_all c.cgi.file_names ++ unlink (lib.url_path c.url) ∷ []

or_root : ℕ → ℕ
or_root n = if n == no_owner then 0 else n

-- S_IROTH is 4 and S_IROTH|S_IWOTH is 6; the second test overrides the first.
unfoldable extra_perm : Text → ℕ
extra_perm path =
    if starts_with (codes "/home/storage") path
    then 6
    else if starts_with (codes "/home/web") path
    then 4
    else 0

-- 0o660 is S_IRUSR|S_IWUSR|S_IRGRP|S_IWGRP, and shares no bit with the extra permissions.
chown_all : ℕ → ℕ → ℕ → List (Text × Text) → List Effect
chown_all user group extra [] = []
chown_all user group extra ((file, name) ∷ files) =
    chown file user group ∷ chmod file (0o660 + extra) ∷ chown_all user group extra files

-- The effects, and whether a std::runtime_error* was thrown: then the rest is skipped.
unfoldable move_all : FileSystem → Text → List (Text × Text) → List Effect × Bool
move_all fs path [] = ([], false)
move_all fs path ((file, name) ∷ files) =
    let dest = path ++ b'/' ∷ name in
    let rest = move_all fs path files in
    if fs.can_rename file dest
    then (rename file dest ∷ rest.0, rest.1)
    else if fs.can_unlink file
    then (unlink file ∷ rest.0, rest.1)
    else ([], true)

unfoldable pub copy_all : FileSystem → Text → ℕ → ℕ → List (Text × Text) → List Effect × Bool
copy_all fs path user group [] = ([], false)
copy_all fs path user group ((file, name) ∷ files) =
    let dest = path ++ b'/' ∷ name in
    let rest = copy_all fs path user group files in
    let copied =
      if fs.can_copy file dest then copy_file file dest ∷ chown dest user group ∷ [] else [] in
    if fs.can_unlink file then (copied ++ unlink file ∷ rest.0, rest.1) else (copied, true)

place_all : FileSystem → Bool → Text → ℕ → ℕ → List (Text × Text) → List Effect × Bool
unfolding move_all copy_all
place_all fs same path user group files =
    if same then move_all fs path files else copy_all fs path user group files

-- FixFiles: the effects in order, and whether it threw.
unfoldable pub fix_files : Library → FileSystem → SocketFdDownloader → List Effect × Bool
unfolding clean_up or_root extra_perm chown_all place_all
fix_files lib fs c =
    if c.user == no_owner && c.group == no_owner
    then ([], false)
    else if not (fs.writable c.destination_path c.user)
    then (clean_up lib c, false)
    else (let files = c.cgi.file_names in
        let same = fs.same_device c.cgi.upload_directory c.destination_path in
        let user = or_root c.user in
        let group = or_root c.group in
        let (placed, threw) = place_all fs same c.destination_path user group files in
        (chown_all user group (extra_perm c.destination_path) files ++ placed, threw))
