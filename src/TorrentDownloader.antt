-- ===== src/TorrentDownloader.antt =====
-- bubba-ftd/src/TorrentDownloader.h and TorrentDownloader.cpp, the class TorrentDownloader. What
-- libtorrent and the file system answer is an argument; the deferred-work queue of libeutils is
-- the list of the jobs that were added.
pub mod Machine
pub mod Files
pub mod Info
pub mod Resume
pub mod Ending
use filetransferdaemon.Prelude.{
  ℕ, Bool, true, false, not, ◌&&◌, ◌||◌, Option, none, some, List, [], ◌∷◌, ◌++◌, map, Text, codes,
  ◌==◌, if◌then◌else◌,
}
use filetransferdaemon.Downloader.{
  Downloader, new_downloader, no_owner, Status, queued, cancel_in_progress, cancel_done, downloaded,
  in_progress, failed, status_eq, complete, update_progress,
}
use filetransferdaemon.Platform.{Effect, unlink, chown, emit}

-- `handle` is the torrent's handle, and `is_valid` what handle.is_valid() returns. `fetching` is
-- whether `downloader`, the download of the torrent file, is set.
pub record TorrentDownloader : Type 0 where
  pub base : Downloader
  pub open base use *
  pub handle : ℕ
  pub is_valid : Bool
  pub fetching : Bool
  pub torrent_filename : Text
  pub resume_filename : Text
  pub errmsg : Text
  pub delete_torrent : Bool
  pub perm_changed : Bool

unfoldable pub new_torrent : TorrentDownloader
unfolding new_downloader
new_torrent = record {
  base = new_downloader [] [] [] [];
  handle = 0;
  is_valid = false;
  fetching = false;
  torrent_filename = [];
  resume_filename = [];
  errmsg = [];
  delete_torrent = true;
  perm_changed = false;
}

abbrev pub with_base : TorrentDownloader → Downloader → TorrentDownloader
with_base t d = record t { base = d }

abbrev pub set_status : Status → TorrentDownloader → TorrentDownloader
set_status s t = with_base t (record t.base { status = s })

-- DeleteTorrent: a failed unlink is only logged.
unlink_if_named : Text → List Effect
unlink_if_named [] = []
unlink_if_named (c ∷ cs) = unlink (c ∷ cs) ∷ []

unfoldable delete_files : TorrentDownloader → List Effect
unfolding unlink_if_named
delete_files t = unlink_if_named t.torrent_filename ++ unlink_if_named t.resume_filename

unfoldable pub set_delete_status : Bool → TorrentDownloader → TorrentDownloader
set_delete_status dodelete t = record t { delete_torrent = dodelete }

unfoldable pub or_root : ℕ → ℕ
or_root n = if n == no_owner then 0 else n

-- The positions of `/` give the directories: `seen` is what stands before the rest.
unfoldable directories : Text → Text → List Text
directories seen [] = []
directories seen (c ∷ cs) =
    let rest = directories (seen ++ c ∷ []) cs in if c == b'/' then seen ∷ rest else rest

-- For one file of the torrent: what boost::filesystem finds under its name, then its directories
-- and itself in the destination.
chown_file : (Text → List Text) → Text → ℕ → ℕ → Text → List Effect
unfolding directories
chown_file found path user group name =
    map (λ p. chown p user group) (found name)
    ++ map (λ dir. chown (path ++ b'/' ∷ dir) user group) (directories [] name)
    ++ chown (path ++ b'/' ∷ name) user group ∷ []

chown_files : (Text → List Text) → Text → ℕ → ℕ → List Text → List Effect
unfolding chown_file
chown_files found path user group [] = []
chown_files found path user group (name ∷ names) =
    chown_file found path user group name ++ chown_files found path user group names

-- ChangePermissions; `names` are the files of the torrent.
unfoldable pub change_permissions :
    (Text → List Text) → List Text → TorrentDownloader → TorrentDownloader × List Effect
unfolding chown_files or_root
change_permissions found names t =
    if not t.perm_changed && not (t.user == no_owner && t.group == no_owner)
    then (
      record t { perm_changed = true },
      if t.is_valid
          then chown_files found t.destination_path (or_root t.user) (or_root t.group) names
          else [],
    )
    else (t, [])

-- A job of the deferred-work queue of this class.
pub data Job : Type 0 where
  deferred_cancel deferred_cleanup : Job

may_cancel : Status → Bool
unfolding status_eq
may_cancel s =
    not (status_eq s cancel_in_progress || (status_eq s cancel_done || status_eq s failed))
    && not (status_eq s downloaded)

-- CancelDownload: the jobs that it adds stand in the answer.
unfoldable pub cancel_download :
    (Text → List Text) → List Text → TorrentDownloader → TorrentDownloader × List Effect × List Job
unfolding change_permissions may_cancel
cancel_download found names t =
    let (t', effects) = change_permissions found names t in
    if may_cancel t'.status
    then (
      with_base t' (record t'.base { status = cancel_in_progress; cancel = true }),
      effects,
      deferred_cancel ∷ [],
    )
    else (t', effects, [])

-- DoCancel: a valid torrent leaves the session, which makes its handle invalid; the answer also
-- holds the handle that is unregistered and the callbacks that Complete calls.
unfoldable pub do_cancel : TorrentDownloader → TorrentDownloader × Option ℕ × List (ℕ × ℕ)
unfolding complete
do_cancel t =
    let (d, calls) = complete (record t.base { status = cancel_done }) in
    (record t { base = d; is_valid = false }, if t.is_valid then some t.handle else none, calls)

-- StopDownload, once the resume data are written.
unfoldable pub stop_download :
    (Text → List Text) → List Text → TorrentDownloader → TorrentDownloader × List Effect × List Job
unfolding cancel_download
stop_download found names t =
    cancel_download found names (if t.is_valid then record t { delete_torrent = false } else t)

-- StartDownload: a magnet link starts nothing; else a CurlDownloader fetches the torrent file.
unfoldable pub start_download : Bool → TorrentDownloader → TorrentDownloader
start_download is_magnet t =
    if is_magnet
    then t
    else record t { base = record t.base { status = queued; tip = true }; fetching = true }

-- How libtorrent takes a torrent: the handle, the name and the size, or one of its exceptions.
pub data Added : Type 0 where
  added : ℕ → Text → ℕ → Added
  invalid_file invalid_encoding : Added
  duplicate : Text → ℕ → Added

-- A torrent that libtorrent does not take. Complete follows, when the slots of SignalFailed have run.
unfoldable pub fail_add : Text → TorrentDownloader → TorrentDownloader × List Effect
fail_add message t = (record (set_status failed t) { errmsg = message }, map emit t.signal_failed)

-- Complete of a torrent that has failed, as the slots of SignalFailed have left it.
unfoldable pub end_failed : TorrentDownloader → TorrentDownloader × List (ℕ × ℕ)
unfolding complete
end_failed t = let (d, calls) = complete t.base in (with_base t d, calls)

-- What the torrent file says of the download.
unfoldable pub describe : Text → Text → ℕ → TorrentDownloader → TorrentDownloader
unfolding update_progress
describe resume name size t = record t {
  base = (update_progress size 0 (record t.base { destination_name = name })).0;
  resume_filename = resume;
}

-- AddDownload, with the file of resume data that it looks for. The last part is its result: with
-- false, end_failed follows.
unfoldable pub add_download :
    Text → Added → TorrentDownloader → (TorrentDownloader × List Effect) × Bool
unfolding fail_add describe
add_download resume (added h name size) t =
    ((record (describe resume name size t) { handle = h; is_valid = true }, []), true)
add_download resume invalid_file t = (fail_add (codes "Invalid torrent file") t, false)
add_download resume invalid_encoding t = (fail_add (codes "Torrent malformed") t, false)
add_download resume (duplicate name size) t =
    (fail_add (codes "Duplicate torrent") (describe resume name size t), false)

-- HttpFailed: the torrent file could not be fetched. end_failed follows.
unfoldable pub http_failed : Text → TorrentDownloader → TorrentDownloader × List Effect × List Job
unfolding delete_files
http_failed message t = (
  record (set_status failed t) { errmsg = message },
  delete_files t ++ map emit t.signal_failed,
  if t.fetching then deferred_cleanup ∷ [] else [],
)

-- Update, with what handle.status() reports.
unfoldable pub update : ℕ → ℕ → TorrentDownloader → TorrentDownloader
unfolding update_progress
update wanted wanted_done t =
    if t.is_valid then with_base t (update_progress wanted wanted_done t.base).0 else t

-- DownloadDone: Complete comes before SignalDone here.
unfoldable pub download_done : TorrentDownloader → TorrentDownloader × List (ℕ × ℕ) × List Effect
unfolding complete
download_done t =
    let (d, calls) = complete (record t.base { status = downloaded; tip = false }) in
    (with_base t d, calls, map emit t.signal_done)

pub data TorrentState : Type 0 where
  queued_for_checking checking_files downloading_metadata downloading finished seeding :
      TorrentState
  allocating checking_resume_data other_state : TorrentState

-- What GetInfo writes to the status: only two of the states of libtorrent count.
unfoldable pub status_of : TorrentState → Status → Status
status_of downloading s = in_progress
status_of seeding s = downloaded
status_of _ s = s

unfoldable pub get_info : Option TorrentState → TorrentDownloader → TorrentDownloader
unfolding status_of
get_info none t = t
get_info (some ts) t = set_status (status_of ts t.status) t
