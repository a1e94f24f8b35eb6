-- ===== src/SocketFdDownloader/Files/Copies.antt =====
-- SocketFdDownloader.cpp, FixFiles: what becomes of the files of an upload whose destination is on
-- another device.
use filetransferdaemon.Prelude.{
  ℕ, ◌≡◌, refl, true, false, ◌&&◌, List, [], ◌∷◌, ◌++◌, Text, arith, ◌==◌, if◌then◌else◌,
}
use filetransferdaemon.Downloader.{no_owner}
use filetransferdaemon.Platform.{Library, Effect, copy_file}
use filetransferdaemon.CurlDownloader.Run.Traces.{unlinked, unlinked-append}
use filetransferdaemon.SocketFdDownloader.{SocketFdDownloader}
use filetransferdaemon.SocketFdDownloader.Files.{
  FileSystem, fix_files, copy_all, chown_all, place_all, or_root, extra_perm,
}

-- The copies that were made, in order.
abbrev pub copied : List Effect → List (Text × Text)
copied [] = []
copied (copy_file file dest ∷ es) = (file, dest) ∷ copied es
copied (_ ∷ es) = copied es

copied-append : (xs ys : List Effect) → copied (xs ++ ys) ≡ copied xs ++ copied ys
copied-append [] ys = refl
copied-append (copy_file file dest ∷ xs) ys = ground (arith, copied-append xs ys)
copied-append (_ ∷ xs) ys = copied-append xs ys

-- The files that can be copied, each with its place in the destination.
abbrev pub copies : FileSystem → Text → List (Text × Text) → List (Text × Text)
copies fs path [] = []
copies fs path ((file, name) ∷ files) =
    let dest = path ++ b'/' ∷ name in
    let rest = copies fs path files in if fs.can_copy file dest then (file, dest) ∷ rest else rest

abbrev pub sources : List (Text × Text) → List Text
sources [] = []
sources ((file, name) ∷ files) = file ∷ sources files

chown_all_quiet :
    (user group extra : ℕ) (files : List (Text × Text))
    → (unlinked (chown_all user group extra files) ≡ [])
      × (copied (chown_all user group extra files) ≡ [])
unfolding chown_all
chown_all_quiet user group extra [] = (refl, refl)
chown_all_quiet user group extra ((file, name) ∷ files) = chown_all_quiet user group extra files

copy_all_lem :
    (fs : FileSystem) (path : Text) (user group : ℕ) (files : List (Text × Text))
    → (copy_all fs path user group files).1 ≡ false
    → (unlinked (copy_all fs path user group files).0 ≡ sources files)
      × (copied (copy_all fs path user group files).0 ≡ copies fs path files)
unfolding copy_all
copy_all_lem fs path user group [] h = (refl, refl)
copy_all_lem fs path user group ((file, name) ∷ files) h =
    ground (arith, copy_all_lem fs path user group files)

-- An upload with an owner, whose destination its user may write to and is on another device: unless
-- FixFiles throws, it has removed every temporary file, and it has copied exactly those that can be
-- copied, so a file whose copy fails is lost.
pub failed_copy_is_lost :
    (lib : Library) (fs : FileSystem) (c : SocketFdDownloader)
    → (c.user == no_owner && c.group == no_owner) ≡ false
    → fs.writable c.destination_path c.user ≡ true
    → fs.same_device c.cgi.upload_directory c.destination_path ≡ false
    → (fix_files lib fs c).1 ≡ false
    → (unlinked (fix_files lib fs c).0 ≡ sources c.cgi.file_names)
      × (copied (fix_files lib fs c).0 ≡ copies fs c.destination_path c.cgi.file_names)
unfolding fix_files place_all
failed_copy_is_lost lib fs c owned may other h =
    let user = or_root c.user in
    let group = or_root c.group in
    let files = c.cgi.file_names in
    let owner = chown_all user group (extra_perm c.destination_path) files in
    let placed = copy_all fs c.destination_path user group files in
    ground (
      arith,
      copy_all_lem fs c.destination_path user group files,
      chown_all_quiet user group (extra_perm c.destination_path) files,
      unlinked-append owner placed.0,
      copied-append owner placed.0,
    )
