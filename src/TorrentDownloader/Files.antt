-- ===== src/TorrentDownloader/Files.antt =====
-- TorrentDownloader.cpp: the torrent file and the file of resume data, and the end of the download
-- that fetches the torrent file. Writing a file leaves only its name here.
pub mod Ends
pub mod Owner
use filetransferdaemon.Prelude.{
  ℕ, Bool, true, false, not, Option, none, some, List, [], ◌∷◌, ◌++◌, Text, codes, after_last, ◌==◌,
  if◌then◌else◌,
}
use filetransferdaemon.Downloader.{Status, failed, status_code}
use filetransferdaemon.Platform.{Effect, chown, mk_path, chown_users, write_file, add_watch}
use filetransferdaemon.FtdConfig.{FtdConfig, get_string_or_default, or_default}
use filetransferdaemon.TorrentDownloader.{
  TorrentDownloader, Job, deferred_cleanup, Added, add_download, or_root,
}

-- What the daemon finds on the machine: UIDToUser, the configuration, whether a directory is there,
-- and the name that mkstemp makes of a pattern.
pub record Place : Type 0 where
  pub name : ℕ → Text
  pub config : FtdConfig
  pub dir_exists : Text → Bool
  pub mkstemp : Text → Option Text

home : Place → TorrentDownloader → Text
home e t = codes "/home/" ++ e.name t.user

make_dir : Place → Text → ℕ → List Effect
make_dir e path user = if e.dir_exists path then [] else mk_path path ∷ chown_users path user ∷ []

resume_dir : Place → TorrentDownloader → Text
unfolding get_string_or_default home
resume_dir e t =
    home e t
    ++ b'/'
      ∷ get_string_or_default e.config (codes "torrent") (codes "resumepath")
          (codes "torrents/.resumedata")

-- The name of the file of resume data, as AddDownload and DoWriteResumeData make it.
unfoldable resume_name : Place → TorrentDownloader → Text
unfolding resume_dir
resume_name e t = resume_dir e t ++ b'/' ∷ (after_last b'/' t.torrent_filename ++ codes ".resume")

-- DoWriteResumeData.
unfoldable pub do_write_resume_data : Place → TorrentDownloader → TorrentDownloader × List Effect
unfolding resume_name make_dir
do_write_resume_data e t =
    if t.is_valid
    then (let file = resume_name e t in
        (
          record t { resume_filename = file },
          make_dir e (resume_dir e t) t.user ++ write_file file ∷ chown_users file t.user ∷ [],
        ))
    else (t, [])

-- WriteResumeData: whether the caller is put to sleep until the data are written.
unfoldable write_resume_data : TorrentDownloader → Bool
write_resume_data t = t.is_valid

-- !this->status==FAILED
unfoldable had_failures : Status → Bool
unfolding status_code
had_failures s = (if status_code s == 0 then 1 else 0) == status_code failed

torrent_dir : Place → TorrentDownloader → Text
unfolding home
torrent_dir e t =
    home e t
    ++ or_default (codes "/torrents/")
        (prefixed (e.config.get_string (codes "torrent") (codes "torrentdir")))
  where
    prefixed : Option Text → Option Text
    prefixed none = none
    prefixed (some dir) = some (b'/' ∷ (dir ++ codes "/"))

-- A new directory is also watched.
watch_dir : Place → Text → ℕ → List Effect
watch_dir e path user =
    if e.dir_exists path then [] else mk_path path ∷ chown_users path user ∷ add_watch path ∷ []

write_named : TorrentDownloader → Option Text → TorrentDownloader × List Effect
unfolding or_root
write_named t none = (t, [])
write_named t (some file) = (
  record t { torrent_filename = file },
  write_file file ∷ chown file (or_root t.user) (or_root t.group) ∷ [],
)

-- WriteTorrent.
unfoldable write_torrent : Place → TorrentDownloader → TorrentDownloader × List Effect
unfolding had_failures torrent_dir watch_dir write_named
write_torrent e t =
    if had_failures t.status
    then (t, [])
    else (let dir = torrent_dir e t in
        let (t', effects) = write_named t (e.mkstemp (dir ++ codes ".ftdtrXXXXXX")) in
        (t', watch_dir e dir t.user ++ effects))

-- StartFromFile, with what libtorrent says of the file and a new UUID.
unfoldable pub start_from_file :
    Place → Text → Text → Added → TorrentDownloader → (TorrentDownloader × List Effect) × Bool
unfolding add_download resume_name
start_from_file e path uuid answer t =
    let t' = record t { torrent_filename = path; base = record t.base { uuid = uuid } } in
    add_download (resume_name e t') answer t'

-- HttpDone: the torrent file was fetched. The third part is whether AddDownload has end_failed
-- follow; HttpDone itself does not look at its answer.
unfoldable fetched :
    Place → Added → TorrentDownloader → TorrentDownloader × List Effect × Bool × List Job
unfolding write_torrent add_download resume_name
fetched e answer t =
    let (written, effects) = write_torrent e t in
    let ((t', later), result) = add_download (resume_name e written) answer written in
    (t', effects ++ later, not result, deferred_cleanup ∷ [])

unfoldable pub http_done :
    Place → Added → TorrentDownloader → TorrentDownloader × List Effect × Bool × List Job
unfolding fetched
http_done e answer t = if t.fetching then fetched e answer t else (t, [], false, [])

-- The loop of DeferredCleanup, on the answers of ReapOK: false if it still waits.
unfoldable reaped : List Bool → Bool
reaped [] = false
reaped (b ∷ bs) = let later = reaped bs in if b then true else later

-- DeferredCleanup: whether the download of the torrent file is deleted.
unfoldable pub do_cleanup : List Bool → TorrentDownloader → TorrentDownloader × Bool
unfolding reaped
do_cleanup answers t =
    if t.fetching then (record t { fetching = false }, reaped answers) else (t, false)
