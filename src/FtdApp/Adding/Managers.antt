-- ===== src/FtdApp/Adding/Managers.antt =====
-- FtdApp.cpp, FindDownloader: the managers are asked in turn whether they take a URL.
use filetransferdaemon.Prelude.{Option, none, some, List, [], ◌∷◌, ◌++◌, Text, Table, if◌then◌else◌}
use filetransferdaemon.Platform.{Effect, Outcome, returned, thrown, thrown_pointer}
use filetransferdaemon.World.{World}
use filetransferdaemon.CurlDownloader.{CurlDownloader}
use filetransferdaemon.CurlDownloader.Filter
use filetransferdaemon.SocketFdDownloader
use filetransferdaemon.TorrentDownloader
use filetransferdaemon.TorrentDownloadManager
use filetransferdaemon.Object.{Object, curl, upload, torrent, base, with_base}
use filetransferdaemon.FtdApp.{Manager, socket_fd_manager, curl_manager, torrent_manager}

unfoldable pub from_curl :
    Outcome (Option CurlDownloader × Table Text × List Effect)
    → Outcome (Option Object × Table Text × List Effect)
from_curl (returned (none, hints, effects)) = returned (none, hints, effects)
from_curl (returned (some c, hints, effects)) = returned (some (curl c), hints, effects)
from_curl (thrown e) = thrown e
from_curl (thrown_pointer e) = thrown_pointer e

from_upload : Option SocketFdDownloader.SocketFdDownloader → Option Object
from_upload none = none
from_upload (some c) = some (upload c)

-- Filter of one manager.
unfoldable pub filter :
    World → Manager → Text → Table Text → Outcome (Option Object × Table Text × List Effect)
unfolding from_curl from_upload
filter w socket_fd_manager url hints =
    returned (from_upload (SocketFdDownloader.filter w.lib url), hints, [])
filter w curl_manager url hints = from_curl (Filter.filter w.lib w.agent w.head url hints)
filter w torrent_manager url hints =
    let (takes, hints') = TorrentDownloadManager.filter w.lib url hints in
    returned (if takes then some (torrent TorrentDownloader.new_torrent) else none, hints', [])

-- FindDownloader: the first manager that takes the URL; the hints go from one to the next.
unfoldable set_hints : Table Text → Object → Object
set_hints hints o = with_base o (record (base o) { hints = hints })

unfoldable pub continue :
    List Effect → Outcome (Option Object × List Effect) → Outcome (Option Object × List Effect)
continue effects (returned (o, later)) = returned (o, effects ++ later)
continue effects (thrown e) = thrown e
continue effects (thrown_pointer e) = thrown_pointer e

unfoldable pub find_downloader :
    World → List Manager → Text → Table Text → Outcome (Option Object × List Effect)
unfolding set_hints continue
find_downloader w [] url hints = returned (none, [])
find_downloader w (m ∷ ms) url hints = elim (filter w m url hints) [
  | returned (none, hints', effects) ↦ continue effects (find_downloader w ms url hints')
  | returned (some o, hints', effects) ↦ returned (some (set_hints hints' o), effects)
  | thrown e ↦ thrown e
  | thrown_pointer e ↦ thrown_pointer e
]
