-- ===== src/Tests/Heap.antt =====
-- Concrete turns of the daemon, and its downloads before and after.
use filetransferdaemon.Prelude.{
  ℕ, ◌≡◌, refl, sym, ◌∙◌, true, false, Bool-cases, inl, inr, none, some, [], ◌∷◌, Text, codes,
  text_eq, text_eq_iff, arith, lookup,
}
use filetransferdaemon.Json.{Request}
use filetransferdaemon.Downloader.{
  downloaded, queued, ok, app_dl_done, call_done, push_callback, reap_ok, is_call_done,
}
use filetransferdaemon.Object.{Object, curl, destroy_waits}
use filetransferdaemon.FtdApp.{FtdApp, returns, downloads}
use filetransferdaemon.FtdApp.Adding.{add_download}
use filetransferdaemon.FtdApp.Adding.Answers.{Refused}
use filetransferdaemon.FtdApp.Canceling.{deferred_remove, may_delete, remove_address}
use filetransferdaemon.FtdApp.Heap.{IsValid, is_listed}
use filetransferdaemon.FtdApp.Heap.Removing.{Struck, deferred_remove_strikes}
use filetransferdaemon.FtdApp.Heap.Growing.{duplicate_fails}
use filetransferdaemon.Daemon.{Daemon, serve, message}
use filetransferdaemon.Daemon.Turns.{Turn, round, start, turn, IsPlainTurn}
use filetransferdaemon.Daemon.Turns.Agreement.{reach-IsValid}
use filetransferdaemon.Daemon.Shelves.{Change, shelves, turn_refines}
use filetransferdaemon.Daemon.Automatic.{run_thread}
use filetransferdaemon.Daemon.Automatic.Twice.{RemovesTwice, cancelled_removed_twice}
use filetransferdaemon.Daemon.Automatic.Removal.{RemovesItself, automatic_removal}
use filetransferdaemon.CurlDownloader.{CurlDownloader}
use filetransferdaemon.Tests.{
  lib, world, app, request, download, curl_download, stream, good_transfer,
}

abbrev ended : Object
ended = curl (curl_download (download downloaded call_done) (some stream))

-- AddDownload for the user "tor" of a URL that is new, and of one that is not.
abbrev pub add_new : Request
add_new = request 1 (
    (codes "uuid", codes "u-2")
    ∷ (codes "url", codes "ftp://h/b.bin")
    ∷ (codes "user", codes "tor")
    ∷ [])

abbrev add_again : Request
add_again = request 1 (
    (codes "uuid", codes "u-2")
    ∷ (codes "url", codes "ftp://h/a.bin")
    ∷ (codes "user", codes "tor")
    ∷ [])

abbrev pub empty : Daemon
empty = record {
  app = record (app ended) { transfers = []; heap = λ p. none; fresh = 0 };
  do_shutdown = false;
}

abbrev pub next_daemon : Daemon
next_daemon = (serve world 3 (message 10 (some add_new)) empty).0

pub adds : Turn empty next_daemon
adds = round world 3 (message 10 (some add_new))

pub adds-IsPlainTurn : IsPlainTurn world.uid_to_user adds
unfolding request lookup text_eq lib adds
adds-IsPlainTurn = (refl, (refl, refl))

reach-IsValid_example : IsValid world.uid_to_user next_daemon.app
reach-IsValid_example =
    reach-IsValid world.uid_to_user (turn start adds) (refl, λ p. refl) (tt, adds-IsPlainTurn)

turn_refines_example : Change (shelves empty.app) (shelves next_daemon.app)
turn_refines_example =
    turn_refines world.uid_to_user start adds (refl, λ p. refl) tt adds-IsPlainTurn

-- The only download of `app`.
pub listed_app :
    (o : Object) (u : Text) (p : ℕ) → is_listed (app o) u p ≡ true → (p ≡ 0) × (codes "tor" ≡ u)
unfolding downloads lookup text_eq
listed_app o u p i = elim (Bool-cases (text_eq (codes "tor") u)) [
  | inl own ↦ (ground (arith, rw own at i), (text_eq_iff (codes "tor") u).0 own)
  | inr other ↦ absurd (cc (rw other at i))
]

there_app : (o x : Object) (p : ℕ) → (app o).heap p ≡ some x → p ≡ 0
unfolding text_eq
there_app o x p e = ground arith

pub app-IsValid : (o : Object) → IsValid world.uid_to_user (app o)
unfolding text_eq downloads lookup
app-IsValid o = record {
  present = λ u p i. (o, rw (listed_app o u p i).0 refl);
  below = λ u p i. omega (arith, (listed_app o u p i).0);
  at_home = λ u p x i e. (listed_app o u p i).1;
  listed = λ p x e. rw (there_app o x p e) refl;
  nodup = λ u. elim (Bool-cases (text_eq (codes "tor") u)) [
    | inl own ↦ ground arith
    | inr other ↦ ground arith
  ];
  one_url = λ u v p q x y i j e f same. (listed_app o u p i).0 ∙ sym (listed_app o v q j).0;
}

deferred_remove_strikes_example :
    Struck 0 (app ended) (deferred_remove world 0 (app ended)).0
    × ((deferred_remove world 0 (app ended)).1 ≡ returns)
unfolding text_eq may_delete destroy_waits reap_ok is_call_done
deferred_remove_strikes_example =
    deferred_remove_strikes world 0 ended (app ended) (app-IsValid ended) refl refl

duplicate_fails_example :
    (a' : FtdApp) × (add_download world 3 add_again (app ended) ≡ some (a', returns))
    × Refused (app ended) a'
unfolding text_eq request lookup
duplicate_fails_example =
    duplicate_fails world 3 add_again world.uid_to_user (app ended) 0 1 ended (app-IsValid ended)
      refl refl refl

-- A queued download that removes itself.
abbrev self_removing : CurlDownloader
self_removing =
    curl_download
      (record (download queued ok) {
        callbacks = [];
        signal_done = app_dl_done 0 ∷ [];
        signal_failed = app_dl_done 0 ∷ [];
      })
      (some stream)

automatic_removal_example :
    RemovesItself world 0
      (app (curl self_removing))
      (run_thread world good_transfer 0 self_removing (app (curl self_removing)))
unfolding text_eq
automatic_removal_example =
    automatic_removal world good_transfer 0 self_removing (codes "tor") (app (curl self_removing))
      (app-IsValid (curl self_removing)) refl refl refl refl refl refl refl refl
      (λ q x i e same. (listed_app (curl self_removing) (codes "tor") q i).0) (refl, refl)

-- The same download when a request has cancelled it before its thread runs.
abbrev cancelled_too : CurlDownloader
cancelled_too = record self_removing {
  base = record self_removing.base { callbacks = (remove_address, 0 ∷ []) ∷ []; cancel = true };
}

cancelled_removed_twice_example :
    RemovesTwice world 0
      (app (curl cancelled_too))
      (run_thread world good_transfer 0 cancelled_too (app (curl cancelled_too)))
unfolding text_eq push_callback
cancelled_removed_twice_example =
    cancelled_removed_twice world good_transfer 0 cancelled_too (codes "tor")
      (app (curl cancelled_too)) (app-IsValid (curl cancelled_too)) refl refl refl refl refl refl
      refl refl (λ q x i e same. (listed_app (curl cancelled_too) (codes "tor") q i).0) (refl, refl)
