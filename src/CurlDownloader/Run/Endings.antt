-- ===== src/CurlDownloader/Run/Endings.antt =====
-- CurlDownloader.cpp, Run: how a transfer ends, what it removes and whom it tells.
pub mod Kept
use mathlib.Core.List.{Mem, mem-append_left, mem-append_right, mem-cons_self}
use filetransferdaemon.Prelude.{
  ℕ, ◌≡◌, ◌≢◌, refl, sym, ◌∙◌, ap, Bool, true, false, ◌||◌, Option, none, some, List, [], ◌∷◌, ◌++◌,
  map, Text, codes, is_empty, after_last, arith, if◌then◌else◌, Bool-cases, inl, inr,
}
use filetransferdaemon.Downloader.{
  Downloader, Status, queued, in_progress, cancel_in_progress, cancel_done, downloaded, failed,
  not_started, status_eq, ok, reap_ok, complete, invoke_callbacks,
}
use filetransferdaemon.Platform.{Library, Effect, unlink, emit, call, returned}
use filetransferdaemon.CurlDownloader.{CurlDownloader, new_curl, with_base, start_download, target}
use filetransferdaemon.CurlDownloader.Run.{
  Transfer, CurlCode, curle_ok, curle_obsolete, curle_obsolete10, curle_other, check_response,
  perform, settle, notify, run, end_run, calls_of, late, on_events,
}
use Kept.{Kin, any_canceled, Performed, perform-Performed, IsUndisturbed, perform-callbacks}

abbrev pub verdict : CurlCode → Status
verdict curle_ok = downloaded
verdict curle_obsolete = cancel_done
verdict curle_obsolete10 = failed
verdict (curle_other n) = failed

-- A queued transfer that is cancelled before, during or just after the transfer ends as cancelled,
-- and any other by libcurl's result, where an HTTP response above 299 counts as a failure.
pub status-run :
    (lib : Library) (t : Transfer) (c : CurlDownloader)
    → c.status ≡ queued
    → (run lib t c).0.status ≡ (
        if c.cancel || (any_canceled t.events || t.late_cancel)
        then cancel_done
        else verdict (check_response lib c.url t.response t.result))
unfolding run settle
status-run lib t c q =
    let p = perform-Performed lib t c q in ground (arith, p.status, p.cancel, p.code)

settle-Kin : (code : CurlCode) (c : CurlDownloader) → Kin c (settle code c).0
unfolding settle
settle-Kin curle_ok c = ground arith
settle-Kin curle_obsolete c = ground arith
settle-Kin curle_obsolete10 c = ground arith
settle-Kin (curle_other n) c = ground arith

pub run-Kin :
    (lib : Library) (t : Transfer) (c : CurlDownloader) → c.status ≡ queued → Kin c (run lib t c).0
unfolding run
run-Kin lib t c q = ground (
  arith,
  perform-Performed lib t c q,
  settle-Kin (perform lib t c).1 (late t (perform lib t c).0),
)

settle-callbacks :
    (code : CurlCode) (c : CurlDownloader) → (settle code c).0.callbacks ≡ c.callbacks
unfolding settle
settle-callbacks curle_ok c = ground arith
settle-callbacks curle_obsolete c = ground arith
settle-callbacks curle_obsolete10 c = ground arith
settle-callbacks (curle_other n) c = ground arith

-- Only who cancels a transfer registers a callback while it runs.
pub run-callbacks :
    (lib : Library) (t : Transfer) (c : CurlDownloader)
    → IsUndisturbed t
    → (run lib t c).0.callbacks ≡ c.callbacks
unfolding run
run-callbacks lib t c h =
    settle-callbacks (perform lib t c).1 (late t (perform lib t c).0) ∙ perform-callbacks lib t c h

-- A queued transfer that nobody completed or cancels may be reaped when Run has ended, and Run has then called
-- exactly the callbacks that were registered on it.
pub reaped_after_run :
    (lib : Library) (t : Transfer) (c : CurlDownloader)
    → c.status ≡ queued
    → c.reap_status ≡ ok
    → IsUndisturbed t
    → (reap_ok (end_run (run lib t c).0).0.base ≡ true)
      × ((end_run (run lib t c).0).1 ≡ calls_of (invoke_callbacks c.callbacks))
unfolding end_run complete reap_ok
reaped_after_run lib t c q r h = ground (arith, run-Kin lib t c q, run-callbacks lib t c h)
