-- ===== src/FtdApp/Adding.antt =====
-- FtdApp.cpp, AddDownload with GetDownloadDir.
pub mod Managers
pub mod Names
pub mod Answers
pub mod Pointers
use filetransferdaemon.Prelude.{
  ℕ, zero, suc, ◌+◌, Bool, not, ◌&&◌, Option, none, some, List, [], ◌∷◌, ◌++◌, Text, codes, digits,
  after_last, ◌==◌, if◌then◌else◌,
}
use filetransferdaemon.Json.{Request}
use filetransferdaemon.Commands.{dlp_autoremove}
use filetransferdaemon.Downloader.{app_dl_done}
use filetransferdaemon.Platform.{Effect, mkdir, chown, Outcome, returned, thrown, thrown_pointer}
use filetransferdaemon.World.{World}
use filetransferdaemon.TorrentDownloadManager
use filetransferdaemon.Object.{Object, curl, upload, torrent, base, with_base, start_download}
use filetransferdaemon.FtdApp.{
  FtdApp, Ending, returns, throws, throws_pointer, store, find_by_uuid, find_by_url, send_ok,
  send_fail, register_download,
}
use filetransferdaemon.FtdApp.Adding.Managers.{find_downloader}

home : Text → Text
home user = codes "/home/" ++ user ++ codes "/"

dir_name : Option Text → Text
dir_name none = codes "downloads"
dir_name (some dir) = dir

-- The download directory is made if it is not there; a failed chown is only logged.
make_dir : World → Text → ℕ → Text → Outcome (Text × List Effect)
make_dir w user gid path =
    if w.exists path
    then returned (path, [])
    else if w.can_mkdir path
    then returned (path, mkdir path ∷ chown path (w.user_to_uid user) gid ∷ [])
    else thrown (codes "Failed to create download directory")

unfoldable pub get_download_dir : World → Text → Outcome (Text × List Effect)
unfolding home dir_name make_dir
get_download_dir w user =
    if not (w.exists (home user))
    then thrown (codes "Unable to stat home directory")
    else if not (w.knows_user user)
    then thrown (codes "User not found")
    else elim w.users_group [
      | none ↦ thrown (codes "Group not found")
      | some gid ↦ make_dir w user gid (home user ++ dir_name w.download_dir)
    ]

-- oss<<filename<<"("<<i<<")"
unfoldable pub numbered : Text → ℕ → Text
numbered filename i = filename ++ codes "(" ++ digits i ++ codes ")"

-- The do loop, with `i` already raised and fuel for the rounds: `none` is a loop that goes on.
unfoldable pub next_free : (Text → Bool) → Text → Text → ℕ → ℕ → Option Text
next_free exists path filename zero i = none
next_free exists path filename (suc fuel) i =
    let later = next_free exists path filename fuel (i + 1) in
    if exists (path ++ numbered filename i) then later else some (numbered filename i)

unfoldable pub unique_name : (Text → Bool) → ℕ → Text → Text → Option Text
unfolding next_free
unique_name exists fuel path filename =
    if exists (path ++ filename) then next_free exists path filename fuel 1 else some filename

-- policy && DLP_AUTOREMOVE: both operands are read as truth values.
unfoldable pub autoremoves : ℕ → Bool
autoremoves policy = not (policy == 0) && not (dlp_autoremove == 0)

-- The setters, and the slots of a download that removes itself, on the object at `p`.
unfoldable pub prepare : World → ℕ → Text → Text → Text → Text → Text → ℕ → ℕ → Object → Object
unfolding autoremoves
prepare w p url path filename uuid user gid policy o =
    let d = base o in
    let slots = if autoremoves policy then app_dl_done p ∷ [] else [] in
    with_base o (record d {
      url = w.lib.url_text url;
      destination_path = path;
      destination_name = filename;
      uuid = uuid;
      group = gid;
      user = w.user_to_uid user;
      policy = policy;
      signal_done = d.signal_done ++ slots;
      signal_failed = d.signal_failed ++ slots;
    })

unfoldable pub note_torrent : ℕ → Object → FtdApp → FtdApp
note_torrent p (torrent t) a = record a {
  torrents = TorrentDownloadManager.add_downloader p a.torrents;
}
note_torrent p (curl c) a = a
note_torrent p (upload c) a = a

unfoldable pub start : World → ℕ → Object → FtdApp → FtdApp × Ending
start w p o a = elim (start_download w o) [
  | returned o' ↦ (store a p o', returns)
  | thrown e ↦ (a, throws e)
  | thrown_pointer e ↦ (a, throws_pointer e)
]

-- The new object `o'` at its address: noted by its manager, registered and announced.
unfoldable pub enroll : Text → Object → Object → FtdApp → FtdApp
unfolding note_torrent
enroll user o o' a = send_ok (
    register_download user a.fresh
      (note_torrent a.fresh o (store (record a { fresh = a.fresh + 1 }) a.fresh o')))

unfoldable pub group_id : World → ℕ
group_id w = elim w.users_group [ none ↦ 0 | some g ↦ g ]

-- A downloader was found: it is set up, registered, announced and started, in this order.
unfoldable pub launch :
    World → Text → Text → Text → Text → Text → ℕ → Object → FtdApp → FtdApp × Ending
unfolding start group_id
launch w url path filename uuid user policy o a =
    let o' = prepare w a.fresh url path filename uuid user (group_id w) policy o in
    start w a.fresh o' (enroll user o o' a)

unfoldable pub with_effects : List Effect → FtdApp → FtdApp
with_effects es a = record a { effects = a.effects ++ es }

-- What FindDownloader found is launched.
unfoldable pub place_found :
    World
    → Text
    → Text
    → Text
    → ℕ
    → Text
    → Text
    → Outcome (Option Object × List Effect)
    → FtdApp
    → FtdApp × Ending
unfolding with_effects
place_found w url uuid user policy path filename (returned (none, effects)) a =
    (send_fail (with_effects effects a), returns)
place_found w url uuid user policy path filename (returned (some o, effects)) a =
    launch w url path filename uuid user policy o (with_effects effects a)
place_found w url uuid user policy path filename (thrown e) a = (a, throws e)
place_found w url uuid user policy path filename (thrown_pointer e) a = (a, throws_pointer e)

-- `none` is a loop for a name that goes on.
unfoldable pub place_named :
    World → Text → Text → Text → ℕ → Text → Option Text → FtdApp → Option (FtdApp × Ending)
unfolding place_found
place_named w url uuid user policy path none a = none
place_named w url uuid user policy path (some filename) a = some (
    place_found w url uuid user policy path filename
      (find_downloader w a.managers (w.lib.url_text url) []) a)

-- From the download directory on.
unfoldable pub place :
    World
    → ℕ
    → Text
    → Text
    → Text
    → ℕ
    → Outcome (Text × List Effect)
    → FtdApp
    → Option (FtdApp × Ending)
unfolding place_named with_effects
place w fuel url uuid user policy (returned (path, effects)) a =
    place_named w url uuid user policy path (unique_name w.exists fuel path (after_last b'/' url))
      (with_effects effects a)
place w fuel url uuid user policy (thrown e) a = some (a, throws e)
place w fuel url uuid user policy (thrown_pointer e) a = some (a, throws_pointer e)

-- From the checks for duplicates on.
unfoldable pub add_checked : World → ℕ → Text → Text → Text → ℕ → FtdApp → Option (FtdApp × Ending)
unfolding place
add_checked w fuel user uuid url policy a =
    let (a', duplicate) = find_by_uuid uuid user a in
    if duplicate
    then some (send_fail a', returns)
    else if find_by_url url a'
    then some (send_fail a', returns)
    else place w fuel url uuid user policy (get_download_dir w user) a'

abbrev pub valid_text : Request → Text → Bool
valid_text req k = req.is_member k && req.is_string k

abbrev pub valid_number : Request → Text → Bool
valid_number req k = req.is_member k && req.is_integral k

abbrev pub valid_add : Request → Bool
valid_add req =
    valid_text req (codes "user")
    && (valid_text req (codes "url")
        && (valid_text req (codes "uuid") && valid_number req (codes "policy")))

-- AddDownload. Each failed test of the request answers and returns.
unfoldable pub add_download : World → ℕ → Request → FtdApp → Option (FtdApp × Ending)
add_download w fuel req a =
    if valid_add req
    then elim (req.as_uint (codes "policy")) [
      | none ↦ some (a, throws (codes "Negative integer can not be converted to unsigned integer"))
      | some policy ↦
          add_checked w fuel (req.as_string (codes "user")) (req.as_string (codes "uuid"))
            (req.as_string (codes "url")) policy a
    ]
    else some (send_fail a, returns)
