-- ===== src/Tests/Requests.antt =====
-- Concrete requests to FtdApp and to the main loop.
use mathlib.Core.List.{Perm}
use filetransferdaemon.Prelude.{
  ℕ, pos, ◌≡◌, ◌⊎◌, refl, true, false, Option, none, some, List, [], ◌∷◌, ◌++◌, Text, codes,
  text_eq, text_lt, ap, arith, after_last, split_first, insert, lookup, is_empty,
}
use filetransferdaemon.Json.{Request}
use filetransferdaemon.Commands.{CmdType, cmd_code, cmd_ok, get_download_throttle}
use filetransferdaemon.Downloader.{
  new_downloader, status_eq, in_progress, downloaded, ok, call_done, complete,
}
use filetransferdaemon.CurlDownloader.{start_download, target, new_curl}
use filetransferdaemon.CurlDownloader.Filter
use filetransferdaemon.CurlDownloader.Filter.{is_http}
use filetransferdaemon.SocketFdDownloader
use filetransferdaemon.TorrentDownloadManager
use filetransferdaemon.Object
use filetransferdaemon.Object.{Object, curl, base}
use filetransferdaemon.FtdApp.{
  FtdApp, Ending, find_by_uuid, find_by_url, any_url, register_download, send_ok, send_json_value,
  returns, reply, downloads, touch, find_first,
}
use filetransferdaemon.FtdApp.Adding.Managers
use filetransferdaemon.FtdApp.Adding.{
  add_download, add_checked, get_download_dir, next_free, launch, autoremoves, enroll, unique_name,
  prepare, numbered,
}
use filetransferdaemon.FtdApp.Adding.Managers.{find_downloader}
use filetransferdaemon.FtdApp.Adding.Names.{unique_name_lem, FirstFree}
use filetransferdaemon.FtdApp.Adding.Answers.{add_download_answers, Refused, Accepted}
use filetransferdaemon.FtdApp.Canceling.{cancel_found, remove_address}
use filetransferdaemon.FtdApp.Canceling.Removal.{cancelled_calls_remove}
use filetransferdaemon.FtdApp.Throttling.{
  set_download_request, get_download_request, throttle_reply, find_manager_by_service,
}
use filetransferdaemon.FtdApp.Throttling.Services.{set-get_download}
use filetransferdaemon.Daemon.{Daemon, dispatch, after_search}
use filetransferdaemon.Daemon.Replies.{dispatch_answers, AnsweredOnce}
use filetransferdaemon.Tests.{lib, world, app, request, download, curl_download, stream}

abbrev running : Object
running = curl (curl_download (download in_progress ok) (some stream))

abbrev ended : Object
ended = curl (curl_download (download downloaded call_done) (some stream))

-- AddDownload of an FTP URL for the user "tor".
abbrev add : Request
add = request 1 (
    (codes "uuid", codes "u-2")
    ∷ (codes "url", codes "ftp://h/b.bin")
    ∷ (codes "user", codes "tor")
    ∷ [])

ended_app : Option (FtdApp × Ending) → FtdApp
ended_app none = app running
ended_app (some (a, e)) = a

abbrev a' : FtdApp
unfolding ended_app
a' = ended_app (add_download world 3 add (app running))

added : add_download world 3 add (app running) ≡ some (a', returns)
unfolding a' ended_app add_download add_checked find_by_uuid find_first downloads touch find_by_url
    any_url get_download_dir unique_name next_free numbered find_downloader Managers.filter
    SocketFdDownloader.filter Filter.filter is_http launch prepare autoremoves enroll
    register_download send_ok send_json_value Object.start_download start_download target after_last
    is_empty split_first insert lookup new_curl text_lt text_eq lib request cmd_code new_downloader
    status_eq
added = refl

add_download_answers_example :
    Refused (app running) a' ⊎ Accepted (add.as_string (codes "user")) (app running) a'
add_download_answers_example = add_download_answers world 3 add (app running) a' added

unique_name_lem_example :
    (name : Text) × (unique_name (λ p. text_eq p (codes "ab")) 2 (codes "a") (codes "b")
      ≡ some name)
    × ((text_eq (codes "a" ++ codes "b") (codes "ab") ≡ false) × (name ≡ codes "b")
        ⊎ (text_eq (codes "a" ++ codes "b") (codes "ab") ≡ true)
          × FirstFree (λ p. text_eq p (codes "ab")) (codes "a") (codes "b") 1 name)
unfolding numbered text_eq
unique_name_lem_example =
    unique_name_lem (λ p. text_eq p (codes "ab")) (codes "a") (codes "b") 2 1 (omega arith)
      (omega arith) refl

cancelled_calls_remove_example :
    ((cancel_found world 0 running (app running)).1 ≡ returns)
    × (o' : Object) × ((cancel_found world 0 running (app running)).0.heap 0 ≡ some o')
    × Perm (complete (base o')).1 ((remove_address, 0) ∷ (complete (base running)).1)
cancelled_calls_remove_example = cancelled_calls_remove world 0 running (app running) refl

abbrev listed : List ℕ
listed = 0 ∷ []

abbrev throttle : Request
throttle = request 5 ((codes "name", codes "torrent") ∷ [])

set-get_download_example :
    (get_download_request throttle (set_download_request throttle (app running))).sent
    ≡ (app running).sent
      ++ reply cmd_ok
        ∷ throttle_reply get_download_throttle (throttle.as_string (codes "name")) (pos 5)
        ∷ []
unfolding lookup text_eq request find_manager_by_service TorrentDownloadManager.provides_service
    TorrentDownloadManager.work_around
set-get_download_example =
    set-get_download throttle throttle (pos 5) (app running) refl refl refl (omega arith) refl refl
      refl

abbrev daemon : Daemon
daemon = record { app = app running; do_shutdown = false }

dispatch_answers_example : AnsweredOnce daemon.app a'
unfolding dispatch
dispatch_answers_example =
    dispatch_answers world 3 (some CmdType.add_download) add daemon (record daemon { app = a' })
      refl (ap (after_search daemon) added)
