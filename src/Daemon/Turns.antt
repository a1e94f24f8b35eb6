-- ===== src/Daemon/Turns.antt =====
-- filetransferdaemon.cpp with the threads around it: what the daemon does, in whatever order.
pub mod Requests
pub mod Agreement
use filetransferdaemon.Prelude.{ℕ, ◌≡◌, Option, none, some, [], Text, codes}
use filetransferdaemon.Json.{Json, Request}
use filetransferdaemon.World.{World}
use filetransferdaemon.Object.{Object}
use filetransferdaemon.Object.Threads.{ThreadStep}
use filetransferdaemon.FtdApp.{store}
use filetransferdaemon.FtdApp.Canceling.{deferred_remove, dl_done}
use filetransferdaemon.Downloader.{Downloader}
use filetransferdaemon.TorrentDownloader.{Added}
use filetransferdaemon.TorrentDownloader.Files.{Place}
use filetransferdaemon.DirWatcher.Adding.{Found, download_failed}
use filetransferdaemon.DirWatcher.Adding
use filetransferdaemon.DirWatcher.Files.{IsNewFile}
use filetransferdaemon.Daemon.{Daemon, Arrival, message, serve}

-- What may come next: a round of the loop; a step of some download's thread; a job of the
-- deferred-work queue that removes a download; a signal of a download that removes itself, or of one
-- that the directory watcher added; or a file that the watcher finds.
pub data Turn (d : Daemon) : Daemon → Type 0 where
  round : (w : World) (fuel : ℕ) (x : Arrival) → Turn d (serve w fuel x d).0
  works :
      (p : ℕ) (o o' : Object)
      → d.app.heap p ≡ some o
      → ThreadStep o o'
      → Turn d (record d { app = store d.app p o' })
  removes : (w : World) (p : ℕ) → Turn d (record d { app = (deferred_remove w p d.app).0 })
  signals : (w : World) (p : ℕ) → Turn d (record d { app = (dl_done w p d.app).0 })
  fails :
      (w : World) (failed : Downloader)
      → Turn d (record d { app = (download_failed w failed d.app).0 })
  finds :
      (w : World) (e : Place) (answer : Added) (uuid uuid' path : Text) (found : Found)
      → Turn d (record d { app = Adding.add_download w e answer uuid uuid' path found d.app })

pub data Reach (first : Daemon) : Daemon → Type 0 where
  start : Reach first first
  turn : {d e : Daemon} → Reach first d → Turn d e → Reach first e

-- A daemon without downloads.
abbrev pub IsNew : Daemon → Type 0
IsNew d = (d.app.transfers ≡ []) × ((p : ℕ) → d.app.heap p ≡ none)

-- The user of the request is one whose uid leads back to him, and the URL of the request is written
-- as libeutils writes it.
abbrev pub IsPlain : World → Request → Type 0
IsPlain w req =
    (w.uid_to_user (w.user_to_uid (req.as_string (codes "user"))) ≡ req.as_string (codes "user"))
    × (w.lib.url_text (req.as_string (codes "url")) ≡ req.as_string (codes "url"))

abbrev pub IsPlainArrival : World → Arrival → Type 0
IsPlainArrival w (message r (some req)) = IsPlain w req
IsPlainArrival w _ = Unit

-- `name` is UIDToUser in every turn; a request is plain, and a file is new.
abbrev pub IsPlainTurn : (ℕ → Text) → {d e : Daemon} → Turn d e → Type 0
IsPlainTurn name (round w fuel x) = (w.uid_to_user ≡ name) × IsPlainArrival w x
IsPlainTurn name (works p o o' e step) = Unit
IsPlainTurn name (removes w p) = w.uid_to_user ≡ name
IsPlainTurn name (signals w p) = w.uid_to_user ≡ name
IsPlainTurn name (fails w failed) = w.uid_to_user ≡ name
IsPlainTurn name {d} (finds w e answer uuid uuid' path found) =
    (w.uid_to_user ≡ name) × IsNewFile w d.app path found

abbrev pub ArePlain : (ℕ → Text) → {first d : Daemon} → Reach first d → Type 0
ArePlain name start = Unit
ArePlain name (turn r t) = ArePlain name r × IsPlainTurn name t
