-- ===== src/TorrentDownloader/Files/Ends.antt =====
-- TorrentDownloader.cpp: how HttpDone ends for a torrent whose file was fetched.
use filetransferdaemon.Prelude.{
  ℕ, ◌≡◌, refl, ◌∙◌, Bool, true, false, Option, none, some, List, [], ◌∷◌, ◌++◌, Text, codes,
  if◌then◌else◌, arith, Bool-cases, inl, inr, ◌⊎◌,
}
use filetransferdaemon.Downloader.{
  Downloader, Slot, Status, failed, cancel_in_progress, status_code,
}
use filetransferdaemon.Platform.{Effect}
use filetransferdaemon.CurlDownloader.Run.Traces.{emitted, emitted-append}
use filetransferdaemon.TorrentDownloader.{TorrentDownloader, Job, deferred_cleanup}
use filetransferdaemon.TorrentDownloader.Files.{
  Place, had_failures, torrent_dir, watch_dir, write_named, write_torrent,
}

no_failures : (s : Status) → had_failures s ≡ false
unfolding had_failures status_code
no_failures s = ground arith

-- The guard of WriteTorrent against failed torrents never holds: with a file name to be had, every
-- torrent is written under that name, whatever its status.
write_torrent_always :
    (e : Place) (t : TorrentDownloader) (file : Text)
    → ((pattern : Text) → e.mkstemp pattern ≡ some file)
    → ((write_torrent e t).0.torrent_filename ≡ file) × (had_failures t.status ≡ false)
unfolding write_torrent write_named
write_torrent_always e t file h = (
  rw (no_failures t.status, write_torrent, h (torrent_dir e t ++ codes ".ftdtrXXXXXX"), write_named)
      refl,
  no_failures t.status,
)

-- The torrent's base is the same, and nobody is told.
abbrev Silent : TorrentDownloader → TorrentDownloader × List Effect → Type 0
Silent t (t', effects) = (t'.base ≡ t.base) × (emitted effects ≡ [])

write_named-Silent : (t : TorrentDownloader) (file : Option Text) → Silent t (write_named t file)
unfolding write_named
write_named-Silent t none = (refl, refl)
write_named-Silent t (some file) = (refl, refl)

watch_dir_silent : (e : Place) (path : Text) (user : ℕ) → emitted (watch_dir e path user) ≡ []
unfolding watch_dir
watch_dir_silent e path user = elim (Bool-cases (e.dir_exists path)) [
  | inl there ↦ rw there refl
  | inr missing ↦ rw missing refl
]

pub write_torrent-Silent : (e : Place) (t : TorrentDownloader) → Silent t (write_torrent e t)
unfolding write_torrent
write_torrent-Silent e t =
    let named = e.mkstemp (torrent_dir e t ++ codes ".ftdtrXXXXXX") in
    let (same, silent) = write_named-Silent t named in
    rw (no_failures t.status, write_torrent)
      (
        same,
        emitted-append (watch_dir e (torrent_dir e t) t.user) (write_named t named).1
            ∙ rw (watch_dir_silent e (torrent_dir e t) t.user) silent,
      )

-- The torrent runs and nobody is told.
abbrev Ran : Downloader → TorrentDownloader × List Slot × Bool → Type 0
Ran d (t, told, completes) =
    (t.is_valid ≡ true)
    × (t.status ≡ (if d.cancel then cancel_in_progress else d.status))
    × (told ≡ [])
    × (completes ≡ false)

-- The torrent has failed, all of SignalFailed are told, and it is as far from its completion as it
-- was when Complete follows.
abbrev Broke : Downloader → TorrentDownloader × List Slot × Bool → Type 0
Broke d (t, told, completes) =
    (t.status ≡ failed)
    × (t.reap_status ≡ d.reap_status)
    × (t.callbacks ≡ d.callbacks)
    × (told ≡ d.signal_failed)
    × (completes ≡ true)

abbrev Finished : Downloader → TorrentDownloader × List Slot × Bool → Type 0
Finished d r = Ran d r ⊎ Broke d r

-- How HttpDone ends for a torrent whose file was fetched.
abbrev pub Ended : Downloader → TorrentDownloader × List Effect × Bool × List Job → Type 0
Ended d (t, effects, completes, jobs) =
    Finished d (t, emitted effects, completes) × (jobs ≡ deferred_cleanup ∷ [])
