-- ===== src/Object.antt =====
-- A Downloader* of the daemon: an object of one of the three classes, and its virtual methods.
pub mod Threads
use filetransferdaemon.Prelude.{ℕ, Bool, false, List, [], ◌++◌, codes, text_eq}
use filetransferdaemon.Json.{Json}
use filetransferdaemon.Downloader.{Downloader}
use filetransferdaemon.Downloader
use filetransferdaemon.Platform.{Effect, Outcome, returned, thrown, thrown_pointer}
use filetransferdaemon.World.{World}
use filetransferdaemon.CurlDownloader.{CurlDownloader}
use filetransferdaemon.CurlDownloader
use filetransferdaemon.SocketFdDownloader.{SocketFdDownloader}
use filetransferdaemon.SocketFdDownloader
use filetransferdaemon.TorrentDownloader.{TorrentDownloader, Job}
use filetransferdaemon.TorrentDownloader
use filetransferdaemon.TorrentDownloader.Ending
use filetransferdaemon.TorrentDownloader.Info.{state_of}
use filetransferdaemon.TorrentDownloadManager.{
  TorrentDownloadManager, unregister_handle, remove_download,
}

pub data Object : Type 0 where
  curl : CurlDownloader → Object
  upload : SocketFdDownloader → Object
  torrent : TorrentDownloader → Object

abbrev pub base : Object → Downloader
base (curl c) = c.base
base (upload c) = c.base
base (torrent t) = t.base

abbrev pub with_base : Object → Downloader → Object
with_base (curl c) d = curl (record c { base = d })
with_base (upload c) d = upload (record c { base = d })
with_base (torrent t) d = torrent (record t { base = d })

-- CancelDownload: what it does to the system, and the jobs that it defers.
unfoldable pub cancel_download : World → Object → Object × List Effect × List Job
cancel_download w (curl c) = (curl (record c { base = Downloader.cancel_download c.base }), [], [])
cancel_download w (upload c) = (upload (SocketFdDownloader.cancel_download c), [], [])
cancel_download w (torrent t) =
    let (t', effects, jobs) = TorrentDownloader.cancel_download w.found w.torrent_names t in
    (torrent t', effects, jobs)

-- StopDownload.
unfoldable pub stop_download : World → Object → Object × List Effect × List Job
stop_download w (curl c) = (curl (record c { base = Downloader.cancel_download c.base }), [], [])
stop_download w (upload c) = (upload (SocketFdDownloader.stop_download c), [], [])
stop_download w (torrent t) =
    let (t', effects, jobs) = TorrentDownloader.stop_download w.found w.torrent_names t in
    (torrent t', effects, jobs)

unfoldable pub start_curl : Outcome CurlDownloader → Outcome Object
start_curl (returned c) = returned (curl c)
start_curl (thrown e) = thrown e
start_curl (thrown_pointer e) = thrown_pointer e

-- StartDownload, up to the start of its thread.
unfoldable pub start_download : World → Object → Outcome Object
unfolding start_curl
start_download w (curl c) = start_curl (CurlDownloader.start_download w.opens c)
start_download w (upload c) = returned (upload (SocketFdDownloader.start_download c))
start_download w (torrent t) =
    returned
      (torrent (TorrentDownloader.start_download (text_eq (w.lib.scheme t.url) (codes "magnet")) t))

-- Size and Downloaded, of the base class or of the parser of an upload.
unfoldable pub sizes : Object → ℕ × ℕ
sizes (curl c) = (c.size, c.received)
sizes (upload c) = (c.cgi.download_size, c.cgi.received_size)
sizes (torrent t) = (t.size, t.received)

-- GetInfo: a torrent also takes over its status.
unfoldable pub get_info : World → Object → Object × Json
get_info w (curl c) = (curl c, c.info)
get_info w (upload c) = (upload c, SocketFdDownloader.get_info c)
get_info w (torrent t) =
    let ts = w.torrent_status t.handle in
    (torrent (TorrentDownloader.get_info (state_of ts) t), TorrentDownloader.Info.info ts t)

-- The destructor: what it does to the system and the jobs that it adds. That of a CurlDownloader only
-- deletes its stream, and that of a SocketFdDownloader does nothing.
unfoldable pub destroy : World → Object → List Effect × List Job
destroy w (curl c) = ([], [])
destroy w (upload c) = ([], [])
destroy w (torrent t) =
    let (t', effects, jobs) = Ending.part w.found w.torrent_names t in
    (effects ++ Ending.destroy_files t', jobs)

-- Whether the destructor waits for the completion of the download.
unfoldable pub destroy_waits : World → Object → Bool
destroy_waits w (curl c) = false
destroy_waits w (upload c) = false
destroy_waits w (torrent t) = Ending.destroy_waits w.found w.torrent_names t

leave_session : Ending.Farewell → ℕ → TorrentDownloadManager → TorrentDownloadManager
leave_session Ending.remove_torrent h m = unregister_handle h m
leave_session other h m = m

-- How the destructor of the torrent at `p` leaves its manager.
unfoldable pub leave_manager : ℕ → Object → TorrentDownloadManager → TorrentDownloadManager
unfolding leave_session
leave_manager p (curl c) m = m
leave_manager p (upload c) m = m
leave_manager p (torrent t) m =
    remove_download p (leave_session (Ending.farewell t.status) t.handle m)
