-- ===== src/Daemon/Automatic/Removal.antt =====
-- CurlDownloader.cpp and FtdApp.cpp together: a download that removes itself is gone in the end.
use mathlib.Core.List.{append-nil}
use filetransferdaemon.Prelude.{
  ℕ, ◌≡◌, refl, sym, ◌∙◌, ap, Bool, true, some, List, [], ◌∷◌, ◌++◌, Text, arith, ◌==◌, ==_iff,
  if◌then◌else◌, Bool-cases, inl, inr,
}
use filetransferdaemon.Downloader.{
  Slot, app_dl_done, queued, ok, complete, claim, conclude, invoke_callbacks, reap_ok,
  push_callback, is_ok, is_call_done, cancel_download,
}
use filetransferdaemon.Downloader.Owner.{Keeps}
use filetransferdaemon.Platform.{Effect, emit}
use filetransferdaemon.World.{World}
use filetransferdaemon.Object.{Object, curl, base}
use filetransferdaemon.Object
use filetransferdaemon.CurlDownloader.{CurlDownloader}
use filetransferdaemon.CurlDownloader.Run.{Transfer, run}
use filetransferdaemon.CurlDownloader.Run.Traces.{emitted}
use filetransferdaemon.CurlDownloader.Run.Cleanup.{run_cleanup, is_failed}
use filetransferdaemon.CurlDownloader.Run.Endings.{run-Kin, run-callbacks}
use filetransferdaemon.CurlDownloader.Run.Endings.Kept.{IsUndisturbed}
use filetransferdaemon.FtdApp.{FtdApp, remove, Ending, returns, store, touch}
use filetransferdaemon.FtdApp.Adding.Answers.{downloads-touch}
use filetransferdaemon.FtdApp.Canceling.{
  dl_done, cancel_object, deferred_remove, may_delete, add_work, remove_address,
}
use filetransferdaemon.FtdApp.Canceling.Removal.{cancel_found-ok}
use filetransferdaemon.FtdApp.Heap.{IsValid}
use filetransferdaemon.FtdApp.Heap.Frames.{Alike-IsValid, touch-Alike, touch-heap}
use filetransferdaemon.FtdApp.Heap.Removing.{Struck, deferred_remove_strikes}
use filetransferdaemon.Daemon.Automatic.{
  on_slot, on_effect, on_effects, on_calls, complete_at, run_thread,
}
use filetransferdaemon.Daemon.Automatic.Search.{
  Struck-before, worked-IsValid, Only, Left, Only-Alike, Only-store, Only-effects, touch-work, told,
  on_effects-quiet, locate_itself, cancel_request_named, cancel_named-found, IsOnly,
}

module _ (w : World) (p : ℕ) (c : CurlDownloader) (n : Text) where
  abbrev pub marked : CurlDownloader
  marked = record c {
    base = record c.base { callbacks = push_callback remove_address p c.callbacks };
  }

  dl_done-cancels :
      (a : FtdApp)
      → IsValid w.uid_to_user a
      → a.heap p ≡ some (curl c)
      → w.pw_name c.user ≡ some n
      → w.uid_to_user c.user ≡ n
      → IsOnly p n c.uuid a
      → c.reap_status ≡ ok
      → dl_done w p a ≡ (cancel_object w p (curl marked) (touch n a), returns)
  unfolding dl_done
  dl_done-cancels a v e known named alone may =
      let found = locate_itself w.uid_to_user a p (curl c) v e (rw named alone) in
      rw (e, dl_done, known, dl_done, cancel_request_named w n c.uuid c.url a)
        (cancel_named-found w n c.uuid c.url p (curl c) a (rw named at found) e
          ∙ cancel_found-ok w p (curl c) (touch n a) may)

  -- The download once it was cancelled.
  abbrev pub gone : CurlDownloader
  gone = record marked { base = record marked.base { cancel = true } }

  cancel_object-Only :
      (a b : FtdApp)
      → Only p (curl c) a b
      → Only p (curl gone) a (cancel_object w p (curl marked) (touch n b))
  unfolding cancel_object Object.cancel_download cancel_download add_work
  cancel_object-Only a b k = record {
    at = ground arith;
    others = λ q other. rw (other, touch-heap n b) (k.others q other);
    lists = λ u. downloads-touch n b u ∙ k.lists u;
    fresh = (touch-Alike n b).fresh ∙ k.fresh;
    work = append-nil (touch n b).work ∙ touch-work n b ∙ k.work;
  }

  module _ (a : FtdApp) (v : IsValid w.uid_to_user a) (o : CurlDownloader)
      (e : a.heap p ≡ some (curl o)) (keeps : Keeps o.base c.base)
      (known : w.pw_name c.user ≡ some n) (named : w.uid_to_user c.user ≡ n)
      (alone : IsOnly p n c.uuid a) (may : c.reap_status ≡ ok) where
    -- The other downloads are those of before.
    still_alone : (b : FtdApp) → Only p (curl c) a b → IsOnly p n c.uuid b
    still_alone b k q x i g same = elim (Bool-cases (q == p)) [
      | inl here ↦ (==_iff q p).0 here
      | inr other ↦ alone q x (rw (k.lists n) at i) (sym (k.others q other) ∙ g) same
    ]

    dl_done-Left : (b : FtdApp) → Only p (curl c) a b → Left p (curl gone) a (dl_done w p b)
    dl_done-Left b k =
        let valid =
          Alike-IsValid w.uid_to_user a b (Only-Alike p (curl o) (curl c) a b e keeps k) v in
        rw (dl_done-cancels b valid k.at known named (still_alone b k) may)
          (cancel_object-Only a b k, refl)

    on_effects-signal :
        (b : FtdApp) (es : List Effect)
        → emitted es ≡ app_dl_done p ∷ []
        → Only p (curl c) a b
        → Left p (curl gone) a (on_effects w es b)
    unfolding on_effects on_effect on_slot
    on_effects-signal b [] h k = absurd (cc)
    on_effects-signal b (emit s ∷ es) h k =
        let is : s ≡ app_dl_done p = cc in
        let rest : emitted es ≡ [] = cc in
        let (left, ends) = dl_done-Left b k in
        rw (is, told w p b es ends)
          (on_effects-quiet w p (curl gone) a (dl_done w p b).0 es rest left)
    on_effects-signal b (x ∷ es) h k =
        on_effects-signal _ es h (Only-effects p (curl c) a b (b.effects ++ x ∷ []) k)

  -- Complete calls Remove, which defers the removal.
  removal_deferred :
      (a : FtdApp)
      → c.reap_status ≡ ok
      → (b : FtdApp) → c.callbacks ≡ []
      → Only p (curl gone) a b
      → complete_at p (b.heap p) b
        ≡ add_work (remove p ∷ []) (store b p (curl (record gone { base = conclude gone.base })))
  unfolding complete_at on_calls complete claim conclude is_ok invoke_callbacks push_callback
  removal_deferred a may b none_yet k = rw (k.at, complete_at, none_yet, may) refl

  -- With Remove registered before, it calls it twice.
  pub removals_deferred :
      (a : FtdApp)
      → c.reap_status ≡ ok
      → (b : FtdApp) → c.callbacks ≡ push_callback remove_address p []
      → Only p (curl gone) a b
      → complete_at p (b.heap p) b
        ≡ add_work (remove p ∷ []) (
            add_work (remove p ∷ []) (store b p (curl (record gone { base = conclude gone.base }))))
  unfolding complete_at on_calls complete claim conclude is_ok invoke_callbacks push_callback
  removals_deferred a may b once k = rw (k.at, complete_at, once, may) refl

-- The thread returned and deferred one removal, which strikes the download out.
abbrev pub RemovesItself : World → ℕ → FtdApp → FtdApp × Ending → Type 0
RemovesItself w p a (b, ending) =
    (ending ≡ returns)
    × (b.work ≡ a.work ++ remove p ∷ [])
    × Struck p a (deferred_remove w p b).0
    × ((deferred_remove w p b).1 ≡ returns)

pub deferred-RemovesItself :
    (w : World) (p : ℕ) (o o' : Object) (a b : FtdApp)
    → IsValid w.uid_to_user a
    → a.heap p ≡ some o
    → Keeps (base o) (base o')
    → may_delete w o' ≡ true
    → Only p o' a b
    → RemovesItself w p a (add_work (remove p ∷ []) b, returns)
unfolding add_work
deferred-RemovesItself w p o o' a b v e keeps ended k =
    let valid = Alike-IsValid w.uid_to_user a b (Only-Alike p o o' a b e keeps k) v in
    let b' = add_work (remove p ∷ []) b in
    let (struck, back) =
      deferred_remove_strikes w p o' b' (worked-IsValid w.uid_to_user b (remove p ∷ []) valid) k.at
        ended in
    (
      refl,
      ap (λ x. x ++ remove p ∷ []) k.work,
      Struck-before p o' a b (deferred_remove w p b').0 (remove p ∷ []) k struck,
      back,
    )

one_signal : (b : Bool) {x y : List Slot} (s : List Slot) → y ≡ s → x ≡ s → (if b then x else y) ≡ s
one_signal b s e f = ground arith

pub concluded_may :
    (w : World) (c : CurlDownloader)
    → may_delete w (curl (record c { base = conclude c.base })) ≡ true
unfolding may_delete reap_ok Object.destroy_waits conclude is_call_done
concluded_may w c = refl

pub ran :
    (w : World) (t : Transfer) (p : ℕ) (c : CurlDownloader) (a : FtdApp)
    → let r = on_effects w (run w.lib t c).1 (store a p (curl (run w.lib t c).0)) in
      r.1 ≡ returns → run_thread w t p c a ≡ (complete_at p (r.0.heap p) r.0, returns)
unfolding run_thread
ran w t p c a h = rw (h, run_thread) refl

-- Whatever ends the transfer, one signal has dlDone cancel the download.
pub thread_cancels :
    (w : World) (t : Transfer) (p : ℕ) (c : CurlDownloader) (n : Text) (a : FtdApp)
    → IsValid w.uid_to_user a
    → a.heap p ≡ some (curl c)
    → c.status ≡ queued
    → c.reap_status ≡ ok
    → c.signal_done ≡ app_dl_done p ∷ []
    → c.signal_failed ≡ app_dl_done p ∷ []
    → w.pw_name c.user ≡ some n
    → w.uid_to_user c.user ≡ n
    → IsOnly p n c.uuid a
    → let (c', es) = run w.lib t c in
      Left p (curl (gone w p c' n)) a (on_effects w es (store a p (curl c')))
thread_cancels w t p c n a v e q may done failed known named alone =
    let c' = (run w.lib t c).0 in
    let es = (run w.lib t c).1 in
    let k = run-Kin w.lib t c q in
    let signal : emitted es ≡ app_dl_done p ∷ [] =
      (run_cleanup w.lib t c q).1
      ∙ one_signal (is_failed c'.status) (app_dl_done p ∷ []) done failed in
    let begun : Only p (curl c') a (store a p (curl c')) =
      Only-store p (curl c) (curl c') a a
        (record { at = e; others = λ r h. refl; lists = λ u. refl; fresh = refl; work = refl }) in
    on_effects-signal w p c' n a v c e (record { url = k.url; user = k.user }) (rw k.user known)
      (rw k.user named) (rw k.uuid alone) (k.reap ∙ may) _ es signal begun

-- While the tables and the heap agree: a queued download through libcurl that removes itself, that
-- nobody has completed or registered a callback on, that nobody cancels during or just after the
-- transfer, whose user is known by one name and who has no other download with its UUID. Whether
-- the transfer succeeds or fails, its thread defers one removal, and that removal strikes out the
-- download and no other.
pub automatic_removal :
    (w : World) (t : Transfer) (p : ℕ) (c : CurlDownloader) (n : Text) (a : FtdApp)
    → IsValid w.uid_to_user a
    → a.heap p ≡ some (curl c)
    → c.status ≡ queued
    → c.reap_status ≡ ok
    → c.callbacks ≡ []
    → c.signal_done ≡ app_dl_done p ∷ []
    → c.signal_failed ≡ app_dl_done p ∷ []
    → w.pw_name c.user ≡ some n
    → w.uid_to_user c.user ≡ n
    → IsOnly p n c.uuid a
    → IsUndisturbed t
    → RemovesItself w p a (run_thread w t p c a)
unfolding conclude
automatic_removal w t p c n a v e q may none_yet done failed known named alone alone_runs =
    let c' = (run w.lib t c).0 in
    let k = run-Kin w.lib t c q in
    let (left, ends) = thread_cancels w t p c n a v e q may done failed known named alone in
    let b = (on_effects w (run w.lib t c).1 (store a p (curl c'))).0 in
    let deferred =
      removal_deferred w p c' n a (k.reap ∙ may) b (run-callbacks w.lib t c alone_runs ∙ none_yet)
        left in
    let c'' = record (gone w p c' n) { base = conclude (gone w p c' n).base } in
    rw (ran w t p c a ends, deferred)
      (deferred-RemovesItself w p (curl c) (curl c'') a (store b p (curl c'')) v e
        (record { url = k.url; user = k.user }) (concluded_may w (gone w p c' n))
        (Only-store p (curl (gone w p c' n)) (curl c'') a b left))
