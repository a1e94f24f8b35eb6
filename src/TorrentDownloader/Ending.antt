-- ===== src/TorrentDownloader/Ending.antt =====
-- TorrentDownloader.cpp, the destructor of a torrent.
use filetransferdaemon.Prelude.{Bool, false, List, [], Text, if◌then◌else◌}
use filetransferdaemon.Downloader.{
  Status, not_started, queued, cancel_in_progress, cancel_done, downloaded, in_progress, failed,
  wait_for_completion,
}
use filetransferdaemon.Platform.{Effect}
use filetransferdaemon.TorrentDownloader.{TorrentDownloader, Job, cancel_download, delete_files}

-- What the destructor does before it leaves the manager: it removes the torrent, cancels and
-- waits, waits, or neither.
pub data Farewell : Type 0 where
  remove_torrent cancel_and_wait just_wait nothing : Farewell

unfoldable pub farewell : Status → Farewell
farewell downloaded = remove_torrent
farewell in_progress = cancel_and_wait
farewell not_started = cancel_and_wait
farewell queued = cancel_and_wait
farewell cancel_in_progress = just_wait
farewell cancel_done = nothing
farewell failed = nothing

-- The destructor up to its wait for the completion.
unfoldable pub part :
    (Text → List Text) → List Text → TorrentDownloader → TorrentDownloader × List Effect × List Job
unfolding cancel_download farewell
part found names t = elim (farewell t.status) [
  | cancel_and_wait ↦ cancel_download found names t
  | other ↦ (t, [], [])
]

-- Whether the destructor is put to sleep: it waits with WaitForCompletion.
unfoldable pub destroy_waits : (Text → List Text) → List Text → TorrentDownloader → Bool
unfolding part wait_for_completion
destroy_waits found names t = elim (farewell t.status) [
  | remove_torrent ↦ false
  | nothing ↦ false
  | other ↦ wait_for_completion (part found names t).0.base
]

unfoldable pub destroy_files : TorrentDownloader → List Effect
unfolding delete_files
destroy_files t = if t.delete_torrent then delete_files t else []
