-- ===== src/Tests/Sessions.antt =====
-- Concrete runs of the torrent files, the thread of the torrents and the directory watcher.
use filetransferdaemon.Prelude.{
  pos, ◌≡◌, refl, true, false, none, some, List, [], ◌∷◌, codes, text_eq, lookup_at, arith, ◌==◌,
  if◌then◌else◌,
}
use filetransferdaemon.FtdConfig.{FtdConfig}
use filetransferdaemon.Platform.{returned}
use filetransferdaemon.Downloader.{downloaded, call_done, is_ok, queued, ok}
use filetransferdaemon.TorrentDownloader.{TorrentDownloader}
use filetransferdaemon.TorrentDownloader.Files.{Place}
use filetransferdaemon.TorrentDownloadManager.{
  TorrentDownloadManager, get_download_throttle, get_upload_throttle,
}
use filetransferdaemon.TorrentDownloadManager.Session.{
  SessionCall, start_session, Session, Alert, torrent_finished, save_resume_data, handle_alerts,
}
use filetransferdaemon.TorrentDownloadManager.Alerts.{
  start_keeps_throttles, alerts_call_once, Settled,
}
use filetransferdaemon.DirWatcher.{DirWatcher, add_watch, del_watch, find_watch}
use filetransferdaemon.DirWatcher.Laws.{del_watch-add_watch}
use filetransferdaemon.Tests.{download, torrent_download, torrents}

abbrev config : FtdConfig
config = record {
  get_string = λ g k. none;
  get_value = λ g k. none;
  get_bool = λ g k. none;
  get_integer = λ g k. if text_eq k (codes "maxdownload") then some (pos 5000) else some (pos 800);
}

abbrev pub place : Place
place = record {
  name = λ n. codes "tor";
  config = config;
  dir_exists = λ p. true;
  mkstemp = λ pattern. some (codes "/home/tor/torrents/.ftdtr1");
}

abbrev fetching : TorrentDownloader
fetching = record (torrent_download (download queued ok)) { fetching = true; is_valid = false }

abbrev stopped : TorrentDownloadManager
stopped = record torrents {
  is_running = false;
  config_download = some (pos 5000);
  config_upload = some (pos 800);
}

start_keeps_throttles_example :
    (m' : TorrentDownloadManager) × (calls : List SessionCall) × (start_session config true true
        stopped
      ≡ returned (m', calls))
    × (m'.is_running ≡ true)
    × (get_download_throttle m' ≡ get_download_throttle stopped)
    × (get_upload_throttle m' ≡ get_upload_throttle stopped)
unfolding text_eq
start_keeps_throttles_example =
    start_keeps_throttles config true stopped (pos 5000) (pos 800) refl refl refl refl refl
      (refl, refl) (refl, refl)

abbrev finished : TorrentDownloader
finished = torrent_download (download downloaded call_done)

abbrev session : Session
session = record {
  manager = torrents;
  torrents = λ p. if p == 30 then some finished else none;
  effects = [];
  calls = [];
  resumed = [];
}

session-Settled : Settled session
unfolding is_ok
session-Settled p t e = ground arith

abbrev alerts : List Alert
alerts = torrent_finished 3 ∷ save_resume_data 3 ∷ []

alerts_call_once_example :
    Settled (handle_alerts place (λ p. p ∷ []) [] alerts session)
    × ((handle_alerts place (λ p. p ∷ []) [] alerts session).calls ≡ session.calls)
alerts_call_once_example = alerts_call_once place (λ p. p ∷ []) [] alerts session session-Settled

abbrev watcher : DirWatcher
watcher = record {
  has_inotify = true;
  do_run = true;
  iwatches = (1, codes "/home/") ∷ (4, codes "/home/ann/torrents/") ∷ [];
  baseglob = codes "/home/*/torrents/";
}

del_watch-add_watch_example :
    del_watch
      (λ w. true)
      (codes "/home/tor/torrents/")
      (add_watch (λ p. some 2) (codes "/home/tor/torrents/") watcher)
    ≡ watcher
unfolding lookup_at find_watch text_eq
del_watch-add_watch_example =
    del_watch-add_watch (λ p. some 2) (λ w. true) (codes "/home/tor/torrents/") 2 watcher refl refl
      refl refl
