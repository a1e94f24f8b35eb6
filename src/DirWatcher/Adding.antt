-- ===== src/DirWatcher/Adding.antt =====
-- DirWatcher.cpp, AddDownload and DownloadFailed.
use filetransferdaemon.Prelude.{
  ℕ, ◌+◌, ◌-◌, Bool, true, false, ◌&&◌, List, [], ◌∷◌, ◌++◌, Text, codes, text_eq, insert, ltb,
  length, zero, suc, if◌then◌else◌,
}
use filetransferdaemon.Json.{text_object}
use filetransferdaemon.Downloader.{Downloader, watcher_failed}
use filetransferdaemon.Platform.{Effect, Outcome, returned, thrown, thrown_pointer}
use filetransferdaemon.TorrentDownloader.{TorrentDownloader, new_torrent, Added, set_delete_status}
use filetransferdaemon.TorrentDownloader.Ending.{destroy_files}
use filetransferdaemon.TorrentDownloader.Files.{Place, start_from_file}
use filetransferdaemon.TorrentDownloadManager
use filetransferdaemon.World.{World}
use filetransferdaemon.Object.{torrent}
use filetransferdaemon.FtdApp.{FtdApp, Ending, store, register_download}
use filetransferdaemon.FtdApp.Adding.{get_download_dir, group_id, with_effects}
use filetransferdaemon.FtdApp.Canceling.{cancel_request}

-- What Stat says of a path: there is nothing, a directory, or a file with its owner.
pub data Found : Type 0 where
  missing directory : Found
  file : Text → ℕ → Found

-- path.substr(n)
drop : ℕ → Text → Text
drop zero s = s
drop (suc n) [] = []
drop (suc n) (c ∷ cs) = drop n cs

-- path.size()>11 && path.substr(path.size()-11)==":2eDS_Store"
unfoldable pub is_litter : Text → Bool
unfolding drop
is_litter path =
    ltb 11 (length path) && text_eq (drop (length path - 11) path) (codes ":2eDS_Store")

-- The setters of a new torrent for the file at `path`.
unfoldable pub prepare : World → Text → Text → ℕ → Text → TorrentDownloader
unfolding new_torrent group_id
prepare w path dir uid uuid =
    let t = new_torrent in
    record t {
      torrent_filename = path;
      base = record t.base {
        user = uid;
        group = group_id w;
        uuid = uuid;
        policy = 0;
        destination_path = dir;
        url = w.lib.url_text (codes "file://" ++ path);
      };
    }

-- SignalFailed.connect
unfoldable pub connect_failed : ℕ → TorrentDownloader → TorrentDownloader
connect_failed p t = record t {
  base = record t.base { signal_failed = t.signal_failed ++ watcher_failed p ∷ [] };
}

-- The new torrent at its address is registered if libtorrent took it, and deleted otherwise: then
-- it has been completed, without callbacks.
unfoldable pub settle : Text → (TorrentDownloader × List Effect) × Bool → FtdApp → FtdApp
unfolding connect_failed with_effects register_download
settle owner ((t, effects), true) a =
    let p = a.fresh in
    register_download owner p (
      store
        (with_effects effects (record a {
          fresh = p + 1;
          torrents = TorrentDownloadManager.add_downloader p a.torrents;
        }))
        p (torrent (connect_failed p t)))
settle owner ((t, effects), false) a =
    with_effects (effects ++ destroy_files (set_delete_status false t)) (record a {
      torrents =
          TorrentDownloadManager.remove_download a.fresh
            (TorrentDownloadManager.add_downloader a.fresh a.torrents);
    })

-- From the download directory of the owner on; a failure to get it is only logged.
unfoldable pub add_owned :
    World
    → Place
    → Added
    → (uuid uuid' : Text) → Text
    → Text
    → ℕ
    → Outcome (Text × List Effect)
    → FtdApp
    → FtdApp
unfolding prepare settle with_effects
add_owned w e answer uuid uuid' path owner uid (returned (dir, effects)) a =
    settle owner (start_from_file e path uuid' answer (prepare w path dir uid uuid))
      (with_effects effects a)
add_owned w e answer uuid uuid' path owner uid (thrown err) a = a
add_owned w e answer uuid uuid' path owner uid (thrown_pointer err) a = a

-- AddDownload of the file at `path`. The two UUIDs are those that the two calls of SimpleUUID make.
unfoldable pub add_download :
    World → Place → Added → (uuid uuid' : Text) → Text → Found → FtdApp → FtdApp
unfolding add_owned is_litter
add_download w e answer uuid uuid' path missing a = a
add_download w e answer uuid uuid' path directory a = a
add_download w e answer uuid uuid' path (file owner uid) a =
    if is_litter path
    then a
    else add_owned w e answer uuid uuid' path owner uid (get_download_dir w owner) a

-- DownloadFailed of the torrent with these data: it is cancelled.
unfoldable pub download_failed : World → Downloader → FtdApp → FtdApp × Ending
download_failed w d a =
    cancel_request w
      (text_object (
        insert (codes "uuid") d.uuid
          (insert (codes "url") d.url (insert (codes "user") (w.uid_to_user d.user) []))))
      a
