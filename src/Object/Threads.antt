-- ===== src/Object/Threads.antt =====
-- What the threads do to the object of a download: Run of CurlDownloader and of SocketFdDownloader,
-- the jobs, the alerts and the callbacks of TorrentDownloader, and Complete.
use filetransferdaemon.Prelude.{ℕ, refl, Bool, false, true, List, Text}
use filetransferdaemon.Downloader.{Downloader, in_progress, claim, conclude}
use filetransferdaemon.Downloader.Owner.{Keeps, claim-Keeps, conclude-Keeps}
use filetransferdaemon.Platform.{Library}
use filetransferdaemon.CurlDownloader.{CurlDownloader}
use filetransferdaemon.CurlDownloader.Run.{Event, on_event, CurlCode, settle}
use filetransferdaemon.CurlDownloader.Run.Owner.{on_event-Keeps}
use filetransferdaemon.CurlDownloader
use filetransferdaemon.SocketFdDownloader.{SocketFdDownloader}
use filetransferdaemon.SocketFdDownloader.Files.{FileSystem}
use filetransferdaemon.SocketFdDownloader.Run.{Part, on_part, Post, receive}
use filetransferdaemon.SocketFdDownloader.Run.Owner.{on_part-Keeps, receive-Keeps}
use filetransferdaemon.SocketFdDownloader
use filetransferdaemon.TorrentDownloader.{
  TorrentDownloader, Added, change_permissions, do_cancel, http_failed, end_failed, update,
  download_done,
}
use filetransferdaemon.TorrentDownloader.Files.{Place, do_write_resume_data, http_done, do_cleanup}
use filetransferdaemon.TorrentDownloader.Files.Owner.{
  change_permissions-Keeps, do_cancel-Keeps, http_done-Keeps, http_failed-Keeps, end_failed-Keeps,
  do_cleanup-Keeps, update-Keeps, do_write_resume_data-Keeps, download_done-Keeps,
}
use filetransferdaemon.Object.{Object, curl, upload, torrent, base, with_base}

-- The stages of a thread, so that others may come between them. A transfer starts, libcurl calls
-- back or someone cancels, the transfer is over, and it is settled.
pub data ThreadStep : Object → Object → Type 0 where
  curl_begins :
      (c : CurlDownloader)
      → ThreadStep (curl c) (curl (CurlDownloader.Run.set_status in_progress true c))
  curl_event :
      (lib : Library) (e : Event) (c : CurlDownloader)
      → ThreadStep (curl c) (curl (on_event lib e c))
  curl_over :
      (c : CurlDownloader)
      → ThreadStep (curl c) (curl (CurlDownloader.Run.set_status c.status false c))
  curl_settles :
      (code : CurlCode) (c : CurlDownloader) → ThreadStep (curl c) (curl (settle code c).0)
  upload_part :
      (lib : Library) (fs : FileSystem) (p : Part) (c : SocketFdDownloader)
      → ThreadStep (upload c) (upload (on_part lib fs p c))
  upload_receives :
      (lib : Library) (fs : FileSystem) (uldir : Text) (post : Post) (c : SocketFdDownloader)
      → ThreadStep (upload c) (upload (receive lib fs uldir post c).0)
  upload_settles :
      (lib : Library) (fs : FileSystem) (c : SocketFdDownloader) (err : Bool)
      → ThreadStep (upload c) (upload (SocketFdDownloader.Run.settle lib fs c err).0)
  torrent_announces :
      (found : Text → List Text) (names : List Text) (t : TorrentDownloader)
      → ThreadStep (torrent t) (torrent (change_permissions found names t).0)
  torrent_cancels : (t : TorrentDownloader) → ThreadStep (torrent t) (torrent (do_cancel t).0)
  torrent_fetched :
      (e : Place) (answer : Added) (t : TorrentDownloader)
      → ThreadStep (torrent t) (torrent (http_done e answer t).0)
  torrent_unfetched :
      (message : Text) (t : TorrentDownloader)
      → ThreadStep (torrent t) (torrent (http_failed message t).0)
  torrent_completes : (t : TorrentDownloader) → ThreadStep (torrent t) (torrent (end_failed t).0)
  torrent_cleans :
      (answers : List Bool) (t : TorrentDownloader)
      → ThreadStep (torrent t) (torrent (do_cleanup answers t).0)
  torrent_updates :
      (wanted wanted_done : ℕ) (t : TorrentDownloader)
      → ThreadStep (torrent t) (torrent (update wanted wanted_done t))
  torrent_saves :
      (e : Place) (t : TorrentDownloader)
      → ThreadStep (torrent t) (torrent (do_write_resume_data e t).0)
  torrent_done : (t : TorrentDownloader) → ThreadStep (torrent t) (torrent (download_done t).0)
  claims : (o : Object) → ThreadStep o (with_base o (claim (base o)).0)
  concludes : (o : Object) → ThreadStep o (with_base o (conclude (base o)))

with_base-Keeps :
    (o : Object) (d : Downloader) → Keeps (base o) d → Keeps (base o) (base (with_base o d))
with_base-Keeps (curl c) d k = k
with_base-Keeps (upload c) d k = k
with_base-Keeps (torrent t) d k = k

-- Whatever a thread does, the download keeps its URL and its user.
pub ThreadStep-Keeps : {o o' : Object} → ThreadStep o o' → Keeps (base o) (base o')
ThreadStep-Keeps (curl_begins c) = record { url = refl; user = refl }
ThreadStep-Keeps (curl_event lib e c) = on_event-Keeps lib e c
ThreadStep-Keeps (curl_over c) = record { url = refl; user = refl }
ThreadStep-Keeps (curl_settles code c) = CurlDownloader.Run.Owner.settle-Keeps code c
ThreadStep-Keeps (upload_part lib fs p c) = on_part-Keeps lib fs p c
ThreadStep-Keeps (upload_receives lib fs uldir post c) = receive-Keeps lib fs uldir post c
ThreadStep-Keeps (upload_settles lib fs c err) =
    SocketFdDownloader.Run.Owner.settle-Keeps lib fs c err
ThreadStep-Keeps (torrent_announces found names t) = change_permissions-Keeps found names t
ThreadStep-Keeps (torrent_cancels t) = do_cancel-Keeps t
ThreadStep-Keeps (torrent_fetched e answer t) = http_done-Keeps e answer t
ThreadStep-Keeps (torrent_unfetched message t) = http_failed-Keeps message t
ThreadStep-Keeps (torrent_completes t) = end_failed-Keeps t
ThreadStep-Keeps (torrent_cleans answers t) = do_cleanup-Keeps answers t
ThreadStep-Keeps (torrent_updates wanted wanted_done t) = update-Keeps wanted wanted_done t
ThreadStep-Keeps (torrent_saves e t) = do_write_resume_data-Keeps e t
ThreadStep-Keeps (torrent_done t) = download_done-Keeps t
ThreadStep-Keeps (claims o) = with_base-Keeps o _ (claim-Keeps (base o))
ThreadStep-Keeps (concludes o) = with_base-Keeps o _ (conclude-Keeps (base o))
