-- ===== src/FtdApp/Throttling/Services.antt =====
-- FtdApp.cpp: the throttle that is set, and the one that is read.
use mathlib.Core.List.{append_assoc}
use filetransferdaemon.Prelude.{
  ℤ, pos, negsuc, ◌^◌, ◌<◌, ◌≡◌, refl, true, ◌&&◌, some, [], ◌∷◌, ◌++◌, codes, arith,
}
use filetransferdaemon.Json.{Request}
use filetransferdaemon.Commands.{cmd_ok, get_download_throttle}
use filetransferdaemon.TorrentDownloadManager
use filetransferdaemon.FtdApp.{FtdApp, torrent_manager, reply, send_json_value, send_ok}
use filetransferdaemon.FtdApp.Adding.{valid_text, valid_number}
use filetransferdaemon.FtdApp.Throttling.{
  set_download_request, get_download_request, find_manager_by_service, throttle_reply, to_signed,
  to_unsigned, change_download_throttle, answer_throttle, download_throttle,
}

-- The values of a C int.
abbrev IsInt : ℤ → Type 0
IsInt (pos n) = n < 2 ^ 31
IsInt (negsuc n) = n < 2 ^ 31

to_signed-to_unsigned : (n : ℤ) → IsInt n → to_signed (to_unsigned n) ≡ n
unfolding to_signed to_unsigned
to_signed-to_unsigned (pos n) h = ground arith
to_signed-to_unsigned (negsuc n) h = ground arith

set_download_lem :
    (req : Request) (n : ℤ) (a : FtdApp)
    → (valid_text req (codes "name") && valid_number req (codes "size")) ≡ true
    → req.as_int (codes "size") ≡ some n
    → IsInt n
    → find_manager_by_service a.managers (req.as_string (codes "name")) ≡ some torrent_manager
    → set_download_request req a ≡ send_ok (change_download_throttle n torrent_manager a)
unfolding set_download_request
set_download_lem req n a hv hn hi hm = rw (hv, hn, hm, to_signed-to_unsigned n hi) refl

get_download_lem :
    (ask : Request) (a : FtdApp)
    → valid_text ask (codes "name") ≡ true
    → find_manager_by_service a.managers (ask.as_string (codes "name")) ≡ some torrent_manager
    → get_download_request ask a
      ≡ send_json_value
          (throttle_reply get_download_throttle
            (ask.as_string (codes "name"))
            (TorrentDownloadManager.get_download_throttle a.torrents))
          a
unfolding get_download_request answer_throttle download_throttle
get_download_lem ask a ha hk = rw (ha, hk) refl

set-get_throttle :
    (n : ℤ) (m : TorrentDownloadManager.TorrentDownloadManager)
    → m.is_running ≡ true
    → TorrentDownloadManager.get_download_throttle
        (TorrentDownloadManager.set_download_throttle n m)
      ≡ TorrentDownloadManager.work_around m.is_version_0_12 (m.reported n)
unfolding TorrentDownloadManager.get_download_throttle TorrentDownloadManager.set_download_throttle
set-get_throttle n m h = rw h refl

-- Setting the download throttle of the torrent service while its session runs, to any value n of a
-- C int, is answered with OK, and the next request to read it with the limit that libtorrent
-- answers once it was given n itself, where -1 stands for 2147483647 with libtorrent 0.12.
pub set-get_download :
    (req ask : Request) (n : ℤ) (a : FtdApp)
    → (valid_text req (codes "name") && valid_number req (codes "size")) ≡ true
    → valid_text ask (codes "name") ≡ true
    → req.as_int (codes "size") ≡ some n
    → IsInt n
    → find_manager_by_service a.managers (req.as_string (codes "name")) ≡ some torrent_manager
    → find_manager_by_service a.managers (ask.as_string (codes "name")) ≡ some torrent_manager
    → a.torrents.is_running ≡ true
    → (get_download_request ask (set_download_request req a)).sent
      ≡ a.sent
        ++ reply cmd_ok
          ∷ throttle_reply get_download_throttle (ask.as_string (codes "name")) (
              TorrentDownloadManager.work_around a.torrents.is_version_0_12 (a.torrents.reported n))
          ∷ []
unfolding send_ok send_json_value change_download_throttle
set-get_download req ask n a hv ha hn hi hm hk hr =
    rw
      (
        set_download_lem req n a hv hn hi hm,
        get_download_lem ask (send_ok (change_download_throttle n torrent_manager a)) ha hk,
        set-get_throttle n a.torrents hr,
      )
      (append_assoc a.sent _ _)
