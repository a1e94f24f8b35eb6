-- ===== src/Tests/Transfers.antt =====
-- Concrete runs of CurlDownloader.cpp and SocketFdDownloader.cpp.
use filetransferdaemon.Prelude.{
  ◌≡◌, refl, false, ◌||◌, not, some, List, [], ◌∷◌, ◌++◌, codes, Text, text_eq, lookup, index,
  after_last, is_empty, insert, if◌then◌else◌,
}
use filetransferdaemon.Downloader.{queued, cancel_in_progress, cancel_done, downloaded, ok}
use filetransferdaemon.Platform.{Effect, returned}
use filetransferdaemon.CurlDownloader.{
  CurlDownloader, target, new_curl, start_download, write_content, cb_progress,
}
use filetransferdaemon.CurlDownloader.Run.{run, end_run, check_response, on_event, on_events}
use filetransferdaemon.CurlDownloader.Run.Endings.{status-run, verdict}
use filetransferdaemon.CurlDownloader.Run.Endings.Kept.{any_canceled}
use filetransferdaemon.CurlDownloader.Run.Traces.{unlinked, emitted}
use filetransferdaemon.CurlDownloader.Run.Cleanup.{run_cleanup, is_downloaded, is_failed}
use filetransferdaemon.CurlDownloader.Run.Content.{bytes-on_events, bytes_of, delivered}
use filetransferdaemon.CurlDownloader.Filter.{
  filter, is_http, judge_head, head_downloader, request_head, torrent_type,
}
use filetransferdaemon.CurlDownloader.Filter.Requests.{head_failure_unlinks_root, filter-some}
use filetransferdaemon.SocketFdDownloader.{SocketFdDownloader}
use filetransferdaemon.SocketFdDownloader.Run
use filetransferdaemon.SocketFdDownloader.Run.{connect, field_added, file_added}
use filetransferdaemon.SocketFdDownloader.Laws.{cancel_wins}
use filetransferdaemon.Tests.{
  lib, download, curl_download, stream, upload_download, file_system, canceled_transfer,
  good_transfer, failed_transfer,
}

abbrev c : CurlDownloader
c = curl_download (download queued ok) (some stream)

status-run_example : (run lib canceled_transfer c).0.status ≡ (
    if c.cancel || (any_canceled canceled_transfer.events || canceled_transfer.late_cancel)
    then cancel_done
    else verdict (check_response lib c.url canceled_transfer.response canceled_transfer.result))
status-run_example = status-run lib canceled_transfer c refl

run_cleanup_example :
    (unlinked (run lib canceled_transfer c).1 ≡ (
      if is_downloaded (run lib canceled_transfer c).0.status
      then []
      else if c.my_dest
      then target c ∷ []
      else []))
    × (emitted (run lib canceled_transfer c).1 ≡ (
        if is_failed (run lib canceled_transfer c).0.status
        then c.signal_failed
        else c.signal_done))
run_cleanup_example = run_cleanup lib canceled_transfer c refl

bytes-on_events_example :
    bytes_of (on_events lib canceled_transfer.events c).dest
    ≡ stream.bytes
      ++ (if c.cancel || not stream.good then [] else delivered canceled_transfer.events)
bytes-on_events_example = bytes-on_events lib canceled_transfer.events c stream refl

abbrev line : Text
line = codes "a:b"

abbrev url : Text
url = codes "http://h/vmlinuz"

head_failure_unlinks_root_example :
    (c : CurlDownloader) × (effects : List Effect) × (request_head lib failed_transfer
        (head_downloader lib (codes "ftd") url)
      ≡ returned (c, effects))
    × (unlinked effects
        ≡ (if is_downloaded c.status then [] else (b'/' ∷ after_last b'/' (lib.url_text url)) ∷ []))
unfolding is_empty lib
head_failure_unlinks_root_example =
    head_failure_unlinks_root lib (codes "ftd") url failed_transfer refl

abbrev u : SocketFdDownloader
u = upload_download (download cancel_in_progress ok)

cancel_wins_example :
    (Run.settle lib file_system
      (Run.on_parts lib file_system
        (field_added (codes "UUID") (codes "u-2") ∷ file_added (codes "/tmp/x3") (codes "c") ∷ [])
        u)
      false).0.status
    ≡ cancel_done
cancel_wins_example = cancel_wins lib file_system _ u false refl

filter-some_example :
    (new_curl (codes "ftd") [] [] [] ≡ new_curl (codes "ftd") [] [] [])
    × (head : CurlDownloader) × (request_head lib good_transfer
          (head_downloader lib (codes "ftd") (lib.url_text url))
        ≡ returned (head, []))
    × (head.status ≡ downloaded)
    × (text_eq (index (codes "content-type") head.headers).0 torrent_type ≡ false)
unfolding filter is_http text_eq lib request_head start_download is_empty head_downloader judge_head
    run end_run on_events on_event write_content cb_progress index lookup insert
filter-some_example =
    filter-some lib (codes "ftd") url good_transfer [] ((codes "content-type", []) ∷ [])
      (new_curl (codes "ftd") [] [] []) [] refl refl
