-- ===== src/Tests/Locks.antt =====
-- A torrent of the user "tor" that removes itself, and the thread of the torrents.
use filetransferdaemon.Prelude.{◌≡◌, refl, none, some, [], ◌∷◌, codes, text_eq}
use filetransferdaemon.Downloader.{in_progress, ok, app_dl_done}
use filetransferdaemon.TorrentDownloader.{TorrentDownloader}
use filetransferdaemon.Object.{torrent}
use filetransferdaemon.FtdApp.{FtdApp}
use filetransferdaemon.Daemon.Locks.{Holders, Steps, transfermutex, dlmutex, finished_locks}
use filetransferdaemon.Daemon.Locks.Finished.{finished_torrent_blocks}
use filetransferdaemon.Tests.{world, app, download, torrent_download}
use filetransferdaemon.Tests.Heap.{app-IsValid, listed_app}

abbrev self_removing : TorrentDownloader
self_removing = torrent_download (record (download in_progress ok) {
  callbacks = [];
  signal_done = app_dl_done 0 ∷ [];
  signal_failed = app_dl_done 0 ∷ [];
})

abbrev one_torrent : FtdApp
one_torrent = app (torrent self_removing)

-- Every thread is about to handle the alert.
abbrev alerted : Holders
alerted = record { owner = λ m. none; rest = λ i. finished_locks world 0 self_removing one_torrent }

finished_torrent_blocks_example :
    (u : Holders) × Steps alerted u
    × ((z : Holders) → Steps u z → (z.owner transfermutex ≡ some 7) × (z.owner dlmutex ≡ some 7))
unfolding text_eq
finished_torrent_blocks_example =
    finished_torrent_blocks world 0 self_removing one_torrent (app-IsValid (torrent self_removing))
      refl refl refl refl (λ q x i e same. (listed_app (torrent self_removing) (codes "tor") q i).0)
      7 alerted refl refl refl
