-- ===== src/Tests/Torrents.antt =====
-- Concrete runs of TorrentDownloader.cpp.
use filetransferdaemon.Prelude.{◌≡◌, refl, some, List, [], ◌∷◌, Text, codes}
use filetransferdaemon.Downloader.{in_progress, cancel_in_progress, ok}
use filetransferdaemon.TorrentDownloader.{
  TorrentDownloader, change_permissions, cancel_download, stop_download, get_info, deferred_cancel,
  downloading,
}
use filetransferdaemon.TorrentDownloader.Ending.{destroy_files}
use filetransferdaemon.TorrentDownloader.Machine.{
  change_permissions_once, cancel_twice, stop_keeps_files, get_info_reopens,
}
use filetransferdaemon.Tests.{download, torrent_download}

abbrev t : TorrentDownloader
t = torrent_download (download in_progress ok)

abbrev half : TorrentDownloader
half = torrent_download (download cancel_in_progress ok)

abbrev found : Text → List Text
found p = p ∷ []

abbrev names : List Text
names = codes "film/a" ∷ []

change_permissions_once_example :
    change_permissions found names (change_permissions found names t).0
    ≡ ((change_permissions found names t).0, [])
change_permissions_once_example = change_permissions_once found names t

cancel_twice_example :
    cancel_download found names (cancel_download found names t).0
    ≡ ((cancel_download found names t).0, [], [])
cancel_twice_example = cancel_twice found names t

stop_keeps_files_example : destroy_files (stop_download found names t).0 ≡ []
stop_keeps_files_example = stop_keeps_files found names t refl

get_info_reopens_example :
    ((cancel_download found names half).2 ≡ [])
    × ((cancel_download found names (get_info (some downloading) half)).2 ≡ deferred_cancel ∷ [])
get_info_reopens_example = get_info_reopens found names half refl
