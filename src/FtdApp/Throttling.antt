-- ===== src/FtdApp/Throttling.antt =====
-- FtdApp.cpp: the requests that read and set the throttles of a service.
pub mod Services
use filetransferdaemon.Prelude.{
  ℕ, ℤ, pos, negsuc, suc, ◌+◌, ◌-◌, ◌^◌, Bool, true, false, ◌&&◌, Option, none, some, List, [], ◌∷◌,
  ◌++◌, Text, codes, text_eq, ltb, if◌then◌else◌,
}
use filetransferdaemon.Json.{Json, Request, int, str, object, end, member}
use filetransferdaemon.Commands.{CmdType, cmd_code, get_download_throttle, get_upload_throttle}
use filetransferdaemon.CurlDownloader.Filter
use filetransferdaemon.TorrentDownloadManager
use filetransferdaemon.FtdApp.{
  FtdApp, Manager, socket_fd_manager, curl_manager, torrent_manager, send_json_value, send_ok,
  send_fail,
}
use filetransferdaemon.FtdApp.Adding.{valid_text, valid_number}

unfoldable pub provides_service : Manager → Text → Bool
provides_service socket_fd_manager service = false
provides_service curl_manager service = Filter.provides_service service
provides_service torrent_manager service = TorrentDownloadManager.provides_service service

-- The loop of FindManagerByService goes on after a hit.
find_from : Option Manager → List Manager → Text → Option Manager
unfolding provides_service
find_from dm [] service = dm
find_from dm (m ∷ ms) service =
    find_from (if provides_service m service then some m else dm) ms service

unfoldable pub find_manager_by_service : List Manager → Text → Option Manager
unfolding find_from
find_manager_by_service ms service = find_from none ms service

-- The base class has no throttle: -1, and setting one does nothing.
unfoldable pub download_throttle : FtdApp → Manager → ℤ
download_throttle a torrent_manager = TorrentDownloadManager.get_download_throttle a.torrents
download_throttle a socket_fd_manager = negsuc 0
download_throttle a curl_manager = negsuc 0

unfoldable pub upload_throttle : FtdApp → Manager → ℤ
upload_throttle a torrent_manager = TorrentDownloadManager.get_upload_throttle a.torrents
upload_throttle a socket_fd_manager = negsuc 0
upload_throttle a curl_manager = negsuc 0

unfoldable pub change_download_throttle : ℤ → Manager → FtdApp → FtdApp
change_download_throttle n torrent_manager a = record a {
  torrents = TorrentDownloadManager.set_download_throttle n a.torrents;
}
change_download_throttle n socket_fd_manager a = a
change_download_throttle n curl_manager a = a

unfoldable pub change_upload_throttle : ℤ → Manager → FtdApp → FtdApp
change_upload_throttle n torrent_manager a = record a {
  torrents = TorrentDownloadManager.set_upload_throttle n a.torrents;
}
change_upload_throttle n socket_fd_manager a = a
change_upload_throttle n curl_manager a = a

-- `unsigned int size=asInt()`, and its conversion back to the parameter of type int.
unfoldable pub to_unsigned : ℤ → ℕ
to_unsigned (pos n) = n
to_unsigned (negsuc n) = 2 ^ 32 - (n + 1)

unfoldable pub to_signed : ℕ → ℤ
to_signed n = if ltb n (2 ^ 31) then pos n else negsuc (2 ^ 32 - 1 - n)

unfoldable pub throttle_reply : CmdType → Text → ℤ → Json
unfolding cmd_code
throttle_reply cmd name size = object (
    member (codes "cmd") (int (pos (cmd_code cmd)))
      (member (codes "name") (str name) (member (codes "size") (int size) end)))

-- GetDownloadThrottle and GetUploadThrottle, by the command and the getter.
unfoldable pub answer_throttle : CmdType → (FtdApp → Manager → ℤ) → Request → FtdApp → FtdApp
unfolding throttle_reply
answer_throttle cmd get req a =
    if valid_text req (codes "name")
    then (let name = req.as_string (codes "name") in
        elim (find_manager_by_service a.managers name) [
          | none ↦ send_fail a
          | some m ↦ send_json_value (throttle_reply cmd name (get a m)) a
        ])
    else send_fail a

unfoldable pub get_download_request : Request → FtdApp → FtdApp
unfolding answer_throttle
get_download_request req a = answer_throttle get_download_throttle download_throttle req a

unfoldable pub get_upload_request : Request → FtdApp → FtdApp
unfolding answer_throttle
get_upload_request req a = answer_throttle get_upload_throttle upload_throttle req a

-- SetDownloadThrottle and SetUploadThrottle, by the setter.
unfoldable pub set_throttle : (ℤ → Manager → FtdApp → FtdApp) → Request → FtdApp → FtdApp
set_throttle change req a =
    if valid_text req (codes "name") && valid_number req (codes "size")
    then elim (req.as_int (codes "size")) [
      | none ↦ send_fail a
      | some n ↦ elim (find_manager_by_service a.managers (req.as_string (codes "name"))) [
        | none ↦ send_fail a
        | some m ↦ send_ok (change (to_signed (to_unsigned n)) m a)
      ]
    ]
    else send_fail a

unfoldable pub set_download_request : Request → FtdApp → FtdApp
unfolding set_throttle
set_download_request req a = set_throttle change_download_throttle req a

unfoldable pub set_upload_request : Request → FtdApp → FtdApp
unfolding set_throttle
set_upload_request req a = set_throttle change_upload_throttle req a
