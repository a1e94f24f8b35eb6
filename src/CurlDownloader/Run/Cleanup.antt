-- ===== src/CurlDownloader/Run/Cleanup.antt =====
-- CurlDownloader.cpp, Run: the files that a transfer removes, and the slots that it tells.
use mathlib.Core.List.{append-nil}
use filetransferdaemon.Prelude.{◌≡◌, Bool, true, false, ◌||◌, [], ◌∷◌, map, arith, if◌then◌else◌}
use filetransferdaemon.Downloader.{Status, downloaded, cancel_done, failed, queued, status_eq}
use filetransferdaemon.Platform.{Library, unlink, emit}
use filetransferdaemon.CurlDownloader.{CurlDownloader, target}
use filetransferdaemon.CurlDownloader.Run.{
  Transfer, CurlCode, curle_ok, curle_obsolete, curle_obsolete10, curle_other, perform, settle,
  notify, run, late,
}
use filetransferdaemon.CurlDownloader.Run.Traces.{
  unlinked, emitted, unlinked-append, emitted-append, unlinked-map-emit, emitted-map-emit,
}
use filetransferdaemon.CurlDownloader.Run.Endings.{run-Kin}

abbrev pub is_downloaded : Status → Bool
is_downloaded downloaded = true
is_downloaded _ = false

abbrev pub is_failed : Status → Bool
is_failed failed = true
is_failed _ = false

settle_quiet :
    (code : CurlCode) (c : CurlDownloader)
    → (unlinked (settle code c).1 ≡ []) × (emitted (settle code c).1 ≡ [])
unfolding settle
settle_quiet curle_ok c = ground arith
settle_quiet curle_obsolete c = ground arith
settle_quiet curle_obsolete10 c = ground arith
settle_quiet (curle_other n) c = ground arith

settle-ends :
    (code : CurlCode) (c : CurlDownloader)
    → is_downloaded (settle code c).0.status
        || (status_eq (settle code c).0.status cancel_done || is_failed (settle code c).0.status)
      ≡ true
unfolding settle
settle-ends curle_ok c = ground arith
settle-ends curle_obsolete c = ground arith
settle-ends curle_obsolete10 c = ground arith
settle-ends (curle_other n) c = ground arith

notify-unlinked :
    (c : CurlDownloader)
    → unlinked (notify c)
      ≡ (if is_downloaded c.status then [] else if c.my_dest then target c ∷ [] else [])
unfolding notify
notify-unlinked c = ground (
  arith,
  unlinked-map-emit c.signal_done,
  unlinked-map-emit c.signal_failed,
  unlinked-append (map emit c.signal_done) (unlink (target c) ∷ []),
  unlinked-append (map emit c.signal_done) [],
)

notify-emitted :
    (c : CurlDownloader)
    → is_downloaded c.status || (status_eq c.status cancel_done || is_failed c.status) ≡ true
    → emitted (notify c) ≡ (if is_failed c.status then c.signal_failed else c.signal_done)
unfolding notify
notify-emitted c h = ground (
  arith,
  emitted-map-emit c.signal_done,
  emitted-map-emit c.signal_failed,
  append-nil c.signal_done,
  emitted-append (map emit c.signal_done) (unlink (target c) ∷ []),
  emitted-append (map emit c.signal_done) [],
)

-- A transfer that does not end as downloaded removes its target file, exactly once and nothing
-- else, if the file is its own; one that ends as downloaded removes nothing. SignalFailed is
-- emitted if the transfer failed, and SignalDone in every other case, never both.
pub run_cleanup :
    (lib : Library) (t : Transfer) (c : CurlDownloader)
    → c.status ≡ queued
    → (unlinked (run lib t c).1 ≡ (
        if is_downloaded (run lib t c).0.status
        then []
        else if c.my_dest
        then target c ∷ []
        else []))
      × (emitted (run lib t c).1
          ≡ (if is_failed (run lib t c).0.status then c.signal_failed else c.signal_done))
unfolding run target
run_cleanup lib t c q =
    let p = (perform lib t c).0 in
    let code = (perform lib t c).1 in
    let s = settle code (late t p) in
    ground (
      arith,
      run-Kin lib t c q,
      unlinked-append s.1 (notify s.0),
      emitted-append s.1 (notify s.0),
      settle_quiet code (late t p),
      settle-ends code (late t p),
      notify-unlinked s.0,
      notify-emitted s.0,
    )
