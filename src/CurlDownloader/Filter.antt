-- ===== src/CurlDownloader/Filter.antt =====
-- CurlDownloader.cpp, CurlDownloadManager: which URLs libcurl downloads. For HTTP the manager
-- first asks for the headers, in a download of its own that it waits for and deletes.
pub mod Requests
use filetransferdaemon.Prelude.{
  ℕ, Bool, true, false, ◌||◌, Option, none, some, List, [], ◌∷◌, ◌++◌, Text, Table, codes, text_eq,
  index, if◌then◌else◌,
}
use filetransferdaemon.Downloader.{Downloader, status_eq, downloaded}
use filetransferdaemon.Platform.{Library, Effect, Outcome, returned, thrown, thrown_pointer}
use filetransferdaemon.CurlDownloader.{CurlDownloader, new_curl, with_base, start_download}
use filetransferdaemon.CurlDownloader.Run.{Transfer, run, end_run}

-- The download of the headers, as Filter sets it up.
unfoldable pub head_downloader : Library → Text → Text → CurlDownloader
unfolding new_curl
head_downloader lib agent url =
    let c = new_curl agent [] [] [] in
    record c { base = record c.base { url = lib.url_text url }; headers_only = true; ctimeout = 5 }

-- Its thread, to the end.
unfoldable pub run_head : Library → Transfer → CurlDownloader → CurlDownloader × List Effect
run_head lib t c =
    let (c', effects) = run lib t c in let (ended, calls) = end_run c' in (ended, effects ++ calls)

-- The request for the headers. The waits for its completion (WaitForCompletion, and then ReapOK) are
-- left out: this is the request whose waits end.
unfoldable pub request_head :
    Library → Transfer → CurlDownloader → Outcome (CurlDownloader × List Effect)
unfolding run_head
request_head lib t c = elim (start_download true c) [
  | returned c' ↦ returned (run_head lib t c')
  | thrown e ↦ thrown e
  | thrown_pointer e ↦ thrown_pointer e
]

abbrev pub torrent_type : Text
torrent_type = codes "application/x-bittorrent"

-- What Filter does with the answer: the downloader that it returns, and the hints.
unfoldable pub judge_head : Text → CurlDownloader → Table Text → Option CurlDownloader × Table Text
unfolding status_eq
judge_head agent head hints =
    if status_eq head.status downloaded
    then (let (kind, hints') = index (codes "content-type") head.headers in
        (if text_eq kind torrent_type then none else some (new_curl agent [] [] []), hints'))
    else (none, hints)

unfoldable pub judge_outcome :
    Text
    → Table Text
    → Outcome (CurlDownloader × List Effect)
    → Outcome (Option CurlDownloader × Table Text × List Effect)
judge_outcome agent hints (returned (head, effects)) =
    let (found, hints') = judge_head agent head hints in returned (found, hints', effects)
judge_outcome agent hints (thrown e) = thrown e
judge_outcome agent hints (thrown_pointer e) = thrown_pointer e

unfoldable pub is_http : Library → Text → Bool
is_http lib url =
    text_eq (lib.scheme url) (codes "http") || text_eq (lib.scheme url) (codes "https")

-- Filter: the download for a URL, the hints, and what asking for the headers did.
unfoldable pub filter :
    Library
    → Text
    → Transfer
    → Text
    → Table Text
    → Outcome (Option CurlDownloader × Table Text × List Effect)
unfolding judge_outcome
filter lib agent t url hints =
    if is_http lib url || text_eq (lib.scheme url) (codes "ftp")
    then if text_eq (lib.extension url) (codes "torrent")
      then returned (none, hints, [])
      else if is_http lib url
      then judge_outcome agent hints
          (request_head lib t (head_downloader lib agent (lib.url_text url)))
      else returned (some (new_curl agent [] [] []), hints, [])
    else returned (none, hints, [])

unfoldable pub provides_service : Text → Bool
provides_service service = text_eq service (codes "http") || text_eq service (codes "ftp")
