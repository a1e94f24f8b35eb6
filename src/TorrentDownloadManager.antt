-- ===== src/TorrentDownloadManager.antt =====
-- bubba-ftd/src/TorrentDownloadManager in TorrentDownloader.cpp: the registry of torrents and the
-- throttles. dlmutex is held throughout each of these operations, so each is one step.
pub mod Registry
pub mod Session
pub mod Alerts
use filetransferdaemon.Prelude.{
  ℕ, ℤ, pos, negsuc, Bool, true, false, ◌&&◌, ◌||◌, Option, none, some, List, [], ◌∷◌, ◌++◌, Text,
  Table, codes, text_eq, index, lookup_at, insert_at, ◌==◌, if◌then◌else◌,
}
use filetransferdaemon.Platform.{Library}

-- `download_limit` and `upload_limit` are the limits that the session of libtorrent was given, and
-- `reported n` is the limit that it answers once it was given n. `is_version_0_12` is the test of
-- LIBTORRENT_VERSION_MINOR. `config_download` and `config_upload` are maxdownload and maxupload of the configuration, if
-- they are set; `can_write` is whether the configuration can be written.
pub record TorrentDownloadManager : Type 0 where
  pub is_running : Bool
  pub download_limit : ℤ
  pub upload_limit : ℤ
  pub config_download : Option ℤ
  pub config_upload : Option ℤ
  pub can_write : Bool
  pub reported : ℤ → ℤ
  pub is_version_0_12 : Bool
  pub handle_map : List (ℕ × ℕ)
  pub downloaders : List ℕ

-- handle_map[h]=td
unfoldable pub register_handle : ℕ → ℕ → TorrentDownloadManager → TorrentDownloadManager
register_handle h td m = record m { handle_map = insert_at h td m.handle_map }

unfoldable pub find_downloader : ℕ → TorrentDownloadManager → Option ℕ
find_downloader h m = lookup_at h m.handle_map

unfoldable pub erase_at : ℕ → List (ℕ × ℕ) → List (ℕ × ℕ)
erase_at h [] = []
erase_at h ((k, v) ∷ m) = let rest = erase_at h m in if k == h then rest else (k, v) ∷ rest

unfoldable pub unregister_handle : ℕ → TorrentDownloadManager → TorrentDownloadManager
unfolding erase_at
unregister_handle h m = record m { handle_map = erase_at h m.handle_map }

unfoldable erase_first : ℕ → List ℕ → List ℕ
erase_first t [] = []
erase_first t (x ∷ xs) = let rest = erase_first t xs in if x == t then xs else x ∷ rest

unfoldable pub remove_download : ℕ → TorrentDownloadManager → TorrentDownloadManager
unfolding erase_first
remove_download t m = record m { downloaders = erase_first t m.downloaders }

-- NewTorrentDownloader, once the object `t` is allocated.
unfoldable pub add_downloader : ℕ → TorrentDownloadManager → TorrentDownloadManager
add_downloader t m = record m { downloaders = m.downloaders ++ t ∷ [] }

is_fetchable : Library → Text → Bool
is_fetchable lib url =
    text_eq (lib.scheme url) (codes "http")
    || (text_eq (lib.scheme url) (codes "https") || text_eq (lib.scheme url) (codes "ftp"))

-- Filter: whether a new TorrentDownloader is made, and the hints, which reading one may extend.
unfoldable pub filter : Library → Text → Table Text → Bool × Table Text
unfolding is_fetchable
filter lib url hints =
    if is_fetchable lib url
    then if text_eq (lib.extension url) (codes "torrent")
      then (true, hints)
      else (let (kind, hints') = index (codes "content-type") hints in
          (text_eq kind (codes "application/x-bittorrent"), hints'))
    else (false, hints)

write_config : Bool → ℤ → Option ℤ → Option ℤ
write_config true n old = some n
write_config false n old = old

unfoldable pub set_download_throttle : ℤ → TorrentDownloadManager → TorrentDownloadManager
unfolding write_config
set_download_throttle n m = record m {
  download_limit = n;
  config_download = write_config m.can_write n m.config_download;
}

unfoldable pub set_upload_throttle : ℤ → TorrentDownloadManager → TorrentDownloadManager
unfolding write_config
set_upload_throttle n m = record m {
  upload_limit = n;
  config_upload = write_config m.can_write n m.config_upload;
}

or_zero : Option ℤ → ℤ
or_zero none = pos 0
or_zero (some n) = n

-- The work around for libtorrent 0.12, whose limit for none is not the -1 of the others.
unfoldable pub work_around : Bool → ℤ → ℤ
work_around is_old (pos n) = if is_old && n == 2147483647 then negsuc 0 else pos n
work_around is_old (negsuc n) = negsuc n

-- The limits are those of the session once it runs, and the configured ones before.
unfoldable pub get_download_throttle : TorrentDownloadManager → ℤ
unfolding or_zero work_around
get_download_throttle m =
    if m.is_running
    then work_around m.is_version_0_12 (m.reported m.download_limit)
    else or_zero m.config_download

unfoldable pub get_upload_throttle : TorrentDownloadManager → ℤ
unfolding or_zero work_around
get_upload_throttle m =
    if m.is_running
    then work_around m.is_version_0_12 (m.reported m.upload_limit)
    else or_zero m.config_upload

unfoldable pub provides_service : Text → Bool
provides_service service = text_eq service (codes "torrent")
