-- ===== src/TorrentDownloader/Machine.antt =====
-- TorrentDownloader.cpp: cancelling, stopping and asking about a torrent.
use filetransferdaemon.Prelude.{
  ◌≡◌, ◌≢◌, true, false, none, some, List, [], ◌∷◌, Text, arith, if◌then◌else◌,
}
use filetransferdaemon.Downloader.{
  cancel_in_progress, call_in_progress, reap_ok, complete, claim, conclude, is_ok, is_call_done,
}
use filetransferdaemon.TorrentDownloader.{
  TorrentDownloader, change_permissions, cancel_download, do_cancel, stop_download, get_info,
  deferred_cancel, downloading, status_of, may_cancel,
}
use filetransferdaemon.TorrentDownloader.Ending.{destroy_files}

-- ChangePermissions works at most once: the second call changes nothing on the object or the disk.
pub change_permissions_once :
    (found : Text → List Text) (names : List Text) (t : TorrentDownloader)
    → change_permissions found names (change_permissions found names t).0
      ≡ ((change_permissions found names t).0, [])
unfolding change_permissions
change_permissions_once found names t = ground arith

-- Cancelling a torrent twice is cancelling it once: the second call changes nothing, on the object
-- or the disk, and defers no second cancellation.
pub cancel_twice :
    (found : Text → List Text) (names : List Text) (t : TorrentDownloader)
    → cancel_download found names (cancel_download found names t).0
      ≡ ((cancel_download found names t).0, [], [])
unfolding cancel_download change_permissions may_cancel
cancel_twice found names t = ground arith

-- Unless Complete is running already, a torrent may be reaped once its cancellation was done, and
-- its handle is unregistered if it was valid.
do_cancel_ends :
    (t : TorrentDownloader)
    → t.reap_status ≢ call_in_progress
    → (reap_ok (do_cancel t).0.base ≡ true)
      × ((do_cancel t).0.is_valid ≡ false)
      × ((do_cancel t).1 ≡ (if t.is_valid then some t.handle else none))
unfolding do_cancel reap_ok complete claim conclude is_ok is_call_done
do_cancel_ends t h = ground arith

-- StopDownload of a valid torrent leaves it so that deleting the object removes no file.
pub stop_keeps_files :
    (found : Text → List Text) (names : List Text) (t : TorrentDownloader)
    → t.is_valid ≡ true
    → destroy_files (stop_download found names t).0 ≡ []
unfolding destroy_files stop_download cancel_download change_permissions
stop_keeps_files found names t h = ground arith

-- A torrent whose cancellation is pending and that libtorrent reports as downloading is cancelled
-- a second time once GetInfo was called: a second job is deferred.
pub get_info_reopens :
    (found : Text → List Text) (names : List Text) (t : TorrentDownloader)
    → t.status ≡ cancel_in_progress
    → ((cancel_download found names t).2 ≡ [])
      × ((cancel_download found names (get_info (some downloading) t)).2 ≡ deferred_cancel ∷ [])
unfolding cancel_download change_permissions may_cancel get_info status_of
get_info_reopens found names t h = ground arith
