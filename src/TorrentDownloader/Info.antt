-- ===== src/TorrentDownloader/Info.antt =====
-- TorrentDownloader.cpp, GetInfo: what a torrent says of itself.
use filetransferdaemon.Prelude.{
  ℕ, ℤ, Bool, Option, none, some, List, [], ◌∷◌, Text, codes, if◌then◌else◌,
}
use filetransferdaemon.Json.{Json, Members, int, ulong, str, boolean, object, end, member}
use filetransferdaemon.Downloader.{failed, status_eq}
use filetransferdaemon.TorrentDownloader.{
  TorrentDownloader, TorrentState, queued_for_checking, checking_files, downloading_metadata,
  downloading, finished, seeding, allocating, checking_resume_data, other_state,
}

-- torrent_status of libtorrent, as far as it is read. A float is the Json value that is made of it.
pub record TorrentStatus : Type 0 where
  pub state : TorrentState
  pub paused : Bool
  pub progress : Json
  pub current_tracker : Text
  pub total_download : ℕ
  pub total_upload : ℕ
  pub total_payload_download : ℕ
  pub total_payload_upload : ℕ
  pub total_failed_bytes : ℕ
  pub total_redundant_bytes : ℕ
  pub download_rate : Json
  pub upload_rate : Json
  pub download_payload_rate : Json
  pub upload_payload_rate : Json
  pub num_peers : ℤ
  pub num_complete : ℤ
  pub num_incomplete : ℤ
  pub list_seeds : ℤ
  pub list_peers : ℤ
  pub num_pieces : ℤ
  pub total_done : ℕ
  pub total_wanted_done : ℕ
  pub total_wanted : ℕ
  pub num_seeds : ℤ
  pub distributed_copies : Json
  pub block_size : ℤ
  pub num_uploads : ℤ
  pub num_connections : ℤ
  pub uploads_limit : ℤ
  pub connections_limit : ℤ
  pub up_bandwidth_queue : ℤ
  pub down_bandwidth_queue : ℤ

unfoldable pub state_of : Option TorrentStatus → Option TorrentState
state_of none = none
state_of (some ts) = some ts.state

unfoldable pub state_name : TorrentState → Text
state_name queued_for_checking = codes "queued_for_checking"
state_name checking_files = codes "checking_files"
state_name downloading_metadata = codes "downloading_metadata"
state_name downloading = codes "downloading"
state_name finished = codes "finished"
state_name seeding = codes "seeding"
state_name allocating = codes "allocating"
state_name checking_resume_data = codes "checking_resume_data"
state_name other_state = codes "unknown"

members : List (Text × Json) → Members
members [] = end
members ((k, v) ∷ ms) = member k v (members ms)

-- What libtorrent reports, in the order in which it is written.
reported : TorrentStatus → List (Text × Json)
reported ts =
    (codes "paused", boolean ts.paused)
    ∷ (codes "progress", ts.progress)
    ∷ (codes "current_tracker", str ts.current_tracker)
    ∷ (codes "total_download", ulong ts.total_download)
    ∷ (codes "total_upload", ulong ts.total_upload)
    ∷ (codes "total_payload_download", ulong ts.total_payload_download)
    ∷ (codes "total_payload_upload", ulong ts.total_payload_upload)
    ∷ (codes "total_failed_bytes", ulong ts.total_failed_bytes)
    ∷ (codes "total_redundant_bytes", ulong ts.total_redundant_bytes)
    ∷ (codes "download_rate", ts.download_rate)
    ∷ (codes "upload_rate", ts.upload_rate)
    ∷ (codes "download_payload_rate", ts.download_payload_rate)
    ∷ (codes "upload_payload_rate", ts.upload_payload_rate)
    ∷ (codes "num_peers", int ts.num_peers)
    ∷ (codes "num_complete", int ts.num_complete)
    ∷ (codes "num_incomplete", int ts.num_incomplete)
    ∷ (codes "list_seeds", int ts.list_seeds)
    ∷ (codes "list_peers", int ts.list_peers)
    ∷ (codes "num_pieces", int ts.num_pieces)
    ∷ (codes "total_done", ulong ts.total_done)
    ∷ (codes "total_wanted_done", ulong ts.total_wanted_done)
    ∷ (codes "total_wanted", ulong ts.total_wanted)
    ∷ (codes "num_seeds", int ts.num_seeds)
    ∷ (codes "distributed_copies", ts.distributed_copies)
    ∷ (codes "block_size", int ts.block_size)
    ∷ (codes "num_uploads", int ts.num_uploads)
    ∷ (codes "num_connections", int ts.num_connections)
    ∷ (codes "uploads_limit", int ts.uploads_limit)
    ∷ (codes "connections_limit", int ts.connections_limit)
    ∷ (codes "up_bandwidth_queue", int ts.up_bandwidth_queue)
    ∷ (codes "down_bandwidth_queue", int ts.down_bandwidth_queue)
    ∷ (codes "state", str (state_name ts.state))
    ∷ []

-- For a handle that is not valid.
unreported : TorrentDownloader → List (Text × Json)
unfolding status_eq
unreported t =
    if status_eq t.status failed
    then (codes "state", str (codes "failed")) ∷ (codes "errmsg", str t.errmsg) ∷ []
    else (codes "state", str (codes "no_info")) ∷ []

unfoldable pub info : Option TorrentStatus → TorrentDownloader → Json
unfolding members reported unreported state_name
info none t = object (members ((codes "type", str (codes "torrent")) ∷ unreported t))
info (some ts) t = object (members ((codes "type", str (codes "torrent")) ∷ reported ts))
