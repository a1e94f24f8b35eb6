-- ===== src/CurlDownloader/Filter/Requests.antt =====
-- CurlDownloader.cpp, Filter: what asking for the headers can do to the file system.
use mathlib.Core.List.{append-nil}
use filetransferdaemon.Prelude.{
  ◌≡◌, refl, ◌∙◌, true, false, some, List, [], ◌∷◌, Text, codes, Table, text_eq, index, is_empty,
  after_last, arith, if◌then◌else◌, Bool-cases,
}
use filetransferdaemon.Downloader.{queued, downloaded, complete}
use filetransferdaemon.Platform.{Library, Effect, Outcome, returned, thrown, thrown_pointer}
use filetransferdaemon.CurlDownloader.{CurlDownloader, new_curl, with_base, start_download, target}
use filetransferdaemon.CurlDownloader.Run.{Transfer, run, end_run}
use filetransferdaemon.CurlDownloader.Run.Traces.{unlinked, unlinked-append, unlinked-calls_of}
use filetransferdaemon.CurlDownloader.Run.Cleanup.{run_cleanup, is_downloaded}
use filetransferdaemon.CurlDownloader.Filter.{
  head_downloader, request_head, run_head, judge_head, judge_outcome, filter, is_http, torrent_type,
}

-- What the HEAD download is when its thread starts.
started : Library → Text → Text → CurlDownloader
unfolding head_downloader
started lib agent url =
    let c = head_downloader lib agent url in
    with_base c
      (record c.base { destination_name = after_last b'/' (lib.url_text url); status = queued })

head-started :
    (lib : Library) (agent url : Text)
    → is_empty (lib.url_text url) ≡ false
    → start_download true (head_downloader lib agent url) ≡ returned (started lib agent url)
unfolding start_download head_downloader started is_empty
head-started lib agent url h = rw h refl

started-target :
    (lib : Library) (agent url : Text)
    → target (started lib agent url) ≡ b'/' ∷ after_last b'/' (lib.url_text url)
unfolding target started
started-target lib agent url = refl

run_head-unlinked :
    (lib : Library) (t : Transfer) (c : CurlDownloader)
    → c.status ≡ queued
    → c.my_dest ≡ true
    → unlinked (run_head lib t c).1
      ≡ (if is_downloaded (run_head lib t c).0.status then [] else target c ∷ [])
unfolding run_head end_run complete
run_head-unlinked lib t c q own = ground (
  arith,
  run_cleanup lib t c q,
  unlinked-append (run lib t c).1 (end_run (run lib t c).0).1,
  unlinked-calls_of (complete (run lib t c).0.base).1,
  append-nil (unlinked (run lib t c).1),
)

started_own :
    (lib : Library) (agent url : Text)
    → ((started lib agent url).status ≡ queued) × ((started lib agent url).my_dest ≡ true)
unfolding started
started_own lib agent url = (refl, refl)

-- Asking for the headers of a URL removes the file of the root directory that is named like the
-- URL's last part, unless the answer is a success.
pub head_failure_unlinks_root :
    (lib : Library) (agent url : Text) (t : Transfer)
    → is_empty (lib.url_text url) ≡ false
    → (c : CurlDownloader) × (effects : List Effect) × (request_head lib t
          (head_downloader lib agent url)
        ≡ returned (c, effects))
      × (unlinked effects ≡ (
          if is_downloaded c.status then [] else (b'/' ∷ after_last b'/' (lib.url_text url)) ∷ []))
unfolding request_head
head_failure_unlinks_root lib agent url t h =
    let c = started lib agent url in
    let own = started_own lib agent url in
    (
      (run_head lib t c).0,
      (run_head lib t c).1,
      rw (head-started lib agent url h, request_head),
      run_head-unlinked lib t c own.0 own.1 ∙ rw (started-target lib agent url),
    )

judged :
    (agent : Text) (head : CurlDownloader) (hints hints' : Table Text) (c : CurlDownloader)
    → judge_head agent head hints ≡ (some c, hints')
    → (c ≡ new_curl agent [] [] [])
      × (head.status ≡ downloaded)
      × (text_eq (index (codes "content-type") head.headers).0 torrent_type ≡ false)
unfolding judge_head
judged agent head hints hints' c h =
    ground (arith, Bool-cases (text_eq (index (codes "content-type") head.headers).0 torrent_type))

outcome_some :
    (agent : Text) (hints hints' : Table Text) (r : Outcome (CurlDownloader × List Effect))
    (c : CurlDownloader) (effects : List Effect)
    → judge_outcome agent hints r ≡ returned (some c, hints', effects)
    → (head : CurlDownloader) × (r ≡ returned (head, effects))
      × (judge_head agent head hints ≡ (some c, hints'))
unfolding judge_outcome
outcome_some agent hints hints' (returned (head, es)) c effects h =
    (head, ground arith, ground arith)
outcome_some agent hints hints' (thrown e) c effects h = cc
outcome_some agent hints hints' (thrown_pointer e) c effects h = cc

-- Filter gives a download for an HTTP URL only if the request for its headers ended as downloaded,
-- with another content type than a torrent's; what it gives is then a fresh download.
pub filter-some :
    (lib : Library) (agent url : Text) (t : Transfer) (hints hints' : Table Text)
    (c : CurlDownloader) (effects : List Effect)
    → is_http lib url ≡ true
    → filter lib agent t url hints ≡ returned (some c, hints', effects)
    → (c ≡ new_curl agent [] [] [])
      × (head : CurlDownloader) × (request_head lib t (head_downloader lib agent (lib.url_text url))
          ≡ returned (head, effects))
      × (head.status ≡ downloaded)
      × (text_eq (index (codes "content-type") head.headers).0 torrent_type ≡ false)
unfolding filter
filter-some lib agent url t hints hints' c effects http h =
    let (head, answered, judged_it) =
      outcome_some agent hints hints'
        (request_head lib t (head_downloader lib agent (lib.url_text url))) c effects
        (ground arith) in
    let (fresh, ended, other) = judged agent head hints hints' c judged_it in
    (fresh, head, answered, ended, other)
