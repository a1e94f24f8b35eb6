-- ===== src/Daemon/Automatic/Twice.antt =====
-- CurlDownloader.cpp and FtdApp.cpp together: a download that removes itself and is also cancelled by
-- a request is removed twice.
use mathlib.Core.List.{append_assoc}
use filetransferdaemon.Prelude.{
  ℕ, ◌≡◌, refl, ◌∙◌, ap, none, some, List, [], ◌∷◌, ◌++◌, Text, ==_iff,
}
use filetransferdaemon.Downloader.{app_dl_done, queued, ok, conclude, push_callback}
use filetransferdaemon.World.{World}
use filetransferdaemon.Object.{Object, curl}
use filetransferdaemon.CurlDownloader.{CurlDownloader}
use filetransferdaemon.CurlDownloader.Run.{Transfer, run}
use filetransferdaemon.CurlDownloader.Run.Endings.{run-Kin, run-callbacks}
use filetransferdaemon.CurlDownloader.Run.Endings.Kept.{IsUndisturbed}
use filetransferdaemon.FtdApp.{FtdApp, Ending, Work, remove, returns, store}
use filetransferdaemon.FtdApp.Canceling.{deferred_remove, add_work, remove_address}
use filetransferdaemon.FtdApp.Heap.{IsValid}
use filetransferdaemon.Daemon.Automatic.{on_effects, run_thread}
use filetransferdaemon.Daemon.Automatic.Search.{IsOnly, Only, Only-store, worked-IsValid}
use filetransferdaemon.Daemon.Automatic.Removal.{
  RemovesItself, deferred-RemovesItself, gone, ran, concluded_may, thread_cancels,
  removals_deferred,
}

-- Two removals of one address wait, and after the first one nothing stands there any more.
abbrev pub RemovesTwice : World → ℕ → FtdApp → FtdApp × Ending → Type 0
RemovesTwice w p a (b, ending) =
    (ending ≡ returns)
    × (b.work ≡ a.work ++ remove p ∷ remove p ∷ [])
    × ((deferred_remove w p b).1 ≡ returns)
    × ((deferred_remove w p b).0.heap p ≡ none)

deferred-RemovesTwice :
    (w : World) (p : ℕ) (a b : FtdApp)
    → RemovesItself w p (add_work (remove p ∷ []) a) (b, returns)
    → RemovesTwice w p a (b, returns)
unfolding add_work
deferred-RemovesTwice w p a b (back, work, struck, ends) = (
  refl,
  work ∙ append_assoc a.work (remove p ∷ []) (remove p ∷ []),
  ends,
  struck.heap p ∙ rw ((==_iff p p).1 refl) refl,
)

Only-worked :
    (p : ℕ) (o : Object) (a b : FtdApp) (jobs : List Work)
    → Only p o a b
    → Only p o (add_work jobs a) (add_work jobs b)
unfolding add_work
Only-worked p o a b jobs k = record {
  at = k.at;
  others = k.others;
  lists = k.lists;
  fresh = k.fresh;
  work = ap (λ x. x ++ jobs) k.work;
}

-- While the tables and the heap agree: a queued download through libcurl that removes itself, on
-- which Remove is registered, as CancelDownload does for a request, and nothing else, that nobody
-- has completed or cancels once it runs, whose user is known by one name and who has no other
-- download with its UUID. Its thread defers two removals of its address; the first one deletes the
-- download, so the second one is left with an address at which nothing stands.
pub cancelled_removed_twice :
    (w : World) (t : Transfer) (p : ℕ) (c : CurlDownloader) (n : Text) (a : FtdApp)
    → IsValid w.uid_to_user a
    → a.heap p ≡ some (curl c)
    → c.status ≡ queued
    → c.reap_status ≡ ok
    → c.callbacks ≡ push_callback remove_address p []
    → c.signal_done ≡ app_dl_done p ∷ []
    → c.signal_failed ≡ app_dl_done p ∷ []
    → w.pw_name c.user ≡ some n
    → w.uid_to_user c.user ≡ n
    → IsOnly p n c.uuid a
    → IsUndisturbed t
    → RemovesTwice w p a (run_thread w t p c a)
unfolding conclude
cancelled_removed_twice w t p c n a v e q may once done failed known named alone alone_runs =
    let c' = (run w.lib t c).0 in
    let k = run-Kin w.lib t c q in
    let (left, ends) = thread_cancels w t p c n a v e q may done failed known named alone in
    let b = (on_effects w (run w.lib t c).1 (store a p (curl c'))).0 in
    let deferred =
      removals_deferred w p c' n a (k.reap ∙ may) b (run-callbacks w.lib t c alone_runs ∙ once)
        left in
    let c'' = record (gone w p c' n) { base = conclude (gone w p c' n).base } in
    let jobs = remove p ∷ [] in
    let kept =
      Only-worked p (curl c'') a (store b p (curl c'')) jobs
        (Only-store p (curl (gone w p c' n)) (curl c'') a b left) in
    rw (ran w t p c a ends, deferred)
      (deferred-RemovesTwice w p a (add_work jobs (add_work jobs (store b p (curl c'')))) (
        deferred-RemovesItself w p (curl c) (curl c'') (add_work jobs a)
          (add_work jobs (store b p (curl c''))) (worked-IsValid w.uid_to_user a jobs v)
          (unfold add_work in e) (record { url = k.url; user = k.user })
          (concluded_may w (gone w p c' n)) kept))
