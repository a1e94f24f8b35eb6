-- ===== src/FtdApp/Canceling/Removal.antt =====
-- FtdApp.cpp: what becomes of a download that is cancelled or removes itself.
use mathlib.Core.List.{Perm}
use filetransferdaemon.Prelude.{
  Bool-cases, ◌⊎◌, inl, inr, ℕ, ◌≡◌, refl, true, false, none, some, ◌∷◌, ◌++◌, arith, ap,
  text_eq_refl, ◌∙◌,
}
use filetransferdaemon.Downloader.{
  Downloader, ok, call_in_progress, call_done, register_completion_callback, register_locked,
  push_callback, is_ok, is_call_done, complete,
}
use filetransferdaemon.Downloader
use filetransferdaemon.Downloader.Completion.{complete-calls, invoke_callbacks-push_callback}
use filetransferdaemon.SocketFdDownloader
use filetransferdaemon.TorrentDownloader
use filetransferdaemon.World.{World}
use filetransferdaemon.Object.{
  Object, curl, upload, torrent, base, destroy, with_base, cancel_download,
}
use filetransferdaemon.FtdApp.{FtdApp, returns, waits, downloads, touch, find_first, has_url}
use filetransferdaemon.FtdApp.Adding.Answers.{downloads-insert}
use filetransferdaemon.FtdApp.Canceling.{
  cancel_found, cancel_object, deferred_remove, remove_object, delete_object, remove_address,
  erase_url, may_delete,
}

-- The object at `p` and its files are deleted, and its user's list is without it.
abbrev Removed : World → ℕ → Object → FtdApp → Type 0
Removed w p o a =
    ((deferred_remove w p a).0.heap p ≡ none)
    × ((deferred_remove w p a).0.effects ≡ a.effects ++ (destroy w o).0)
    × ((deferred_remove w p a).1 ≡ returns)
    × (downloads (w.uid_to_user (base o).user) (deferred_remove w p a).0.transfers
        ≡ erase_url a.heap (base o).url (
            downloads (w.uid_to_user (base o).user)
              (touch (w.uid_to_user (base o).user) a).transfers))

deferred_remove-Removed :
    (w : World) (p q : ℕ) (o : Object) (a : FtdApp)
    → a.heap p ≡ some o
    → find_first a.heap
        (has_url (base o).url)
        (downloads (w.uid_to_user (base o).user) (touch (w.uid_to_user (base o).user) a).transfers)
      ≡ some q
    → may_delete w o ≡ true
    → Removed w p o a
unfolding deferred_remove remove_object delete_object
deferred_remove-Removed w p q o a h e may =
    rw (h, e, may, deferred_remove, remove_object)
      (
        ground arith,
        unfold touch in ground arith,
        refl,
        downloads-insert (w.uid_to_user (base o).user) (w.uid_to_user (base o).user) _ _
            ∙ rw (text_eq_refl (w.uid_to_user (base o).user)) refl,
      )

deferred_remove-waits :
    (w : World) (p q : ℕ) (o : Object) (a : FtdApp)
    → a.heap p ≡ some o
    → find_first a.heap
        (has_url (base o).url)
        (downloads (w.uid_to_user (base o).user) (touch (w.uid_to_user (base o).user) a).transfers)
      ≡ some q
    → may_delete w o ≡ false
    → ((deferred_remove w p a).0.heap p ≡ some o) × ((deferred_remove w p a).1 ≡ waits)
unfolding deferred_remove remove_object
deferred_remove-waits w p q o a h e not_yet =
    rw (h, e, not_yet, deferred_remove, remove_object) ((unfold touch in ground arith), refl)

-- DeferredRemove of a download that is still listed under its URL: if it gets through,
-- it deletes the object and its files and strikes it off its user's list; if not, it keeps the
-- object and waits, with transfermutex held.
deferred_remove_lem :
    (w : World) (p q : ℕ) (o : Object) (a : FtdApp)
    → a.heap p ≡ some o
    → find_first a.heap
        (has_url (base o).url)
        (downloads (w.uid_to_user (base o).user) (touch (w.uid_to_user (base o).user) a).transfers)
      ≡ some q
    → (may_delete w o ≡ true) × Removed w p o a
      ⊎ (may_delete w o ≡ false)
        × ((deferred_remove w p a).0.heap p ≡ some o)
        × ((deferred_remove w p a).1 ≡ waits)
deferred_remove_lem w p q o a h e = elim (Bool-cases (may_delete w o)) [
  | inl may ↦ inl (may, deferred_remove-Removed w p q o a h e may)
  | inr not_yet ↦
      let (kept, waiting) = deferred_remove-waits w p q o a h e not_yet in
      inr (not_yet, kept, waiting)
]

-- The virtual CancelDownload leaves the callbacks and the state of Complete alone.
cancel_download-Kept :
    (w : World) (o : Object)
    → ((base (cancel_download w o).0).callbacks ≡ (base o).callbacks)
      × ((base (cancel_download w o).0).reap_status ≡ (base o).reap_status)
unfolding cancel_download Downloader.cancel_download SocketFdDownloader.cancel_download
    TorrentDownloader.cancel_download TorrentDownloader.change_permissions
cancel_download-Kept w (curl c) = (refl, refl)
cancel_download-Kept w (upload c) = ground arith
cancel_download-Kept w (torrent t) = ground arith

with_base-base : (o : Object) (d : Downloader) → base (with_base o d) ≡ d
with_base-base (curl c) d = refl
with_base-base (upload c) d = refl
with_base-base (torrent t) d = refl

-- The object that cancelling an object leaves in its place.
abbrev cancelled : World → ℕ → Object → Object
cancelled w p o =
    (cancel_download w (
      with_base o
        (record (base o) { callbacks = push_callback remove_address p (base o).callbacks }))).0

cancel_object-heap :
    (w : World) (p : ℕ) (o : Object) (a : FtdApp)
    → (cancel_object w p o a).heap p ≡ some (cancel_download w o).0
unfolding cancel_object
cancel_object-heap w p o a = ground arith

pub cancel_found-ok :
    (w : World) (p : ℕ) (o : Object) (a : FtdApp)
    → (base o).reap_status ≡ ok
    → cancel_found w p o a ≡ (
      cancel_object w p
          (with_base o
            (record (base o) { callbacks = push_callback remove_address p (base o).callbacks }))
          a,
      returns,
    )
unfolding cancel_found register_locked is_ok
cancel_found-ok w p o a h = rw h refl

-- A download that is cancelled before Complete began stays on the heap, and when it completes it
-- calls FtdApp::Remove with its address once more than it would have otherwise, and every other
-- callback as often.
pub cancelled_calls_remove :
    (w : World) (p : ℕ) (o : Object) (a : FtdApp)
    → (base o).reap_status ≡ ok
    → ((cancel_found w p o a).1 ≡ returns)
      × (o' : Object) × ((cancel_found w p o a).0.heap p ≡ some o')
      × Perm (complete (base o')).1 ((remove_address, p) ∷ (complete (base o)).1)
cancelled_calls_remove w p o a h =
    let d = record (base o) { callbacks = push_callback remove_address p (base o).callbacks } in
    let (callbacks, reap) = cancel_download-Kept w (with_base o d) in
    let set = with_base-base o d in
    (
      rw (cancel_found-ok w p o a h) refl,
      cancelled w p o,
      rw (cancel_found-ok w p o a h) (cancel_object-heap w p (with_base o d) a),
      rw
          (
            complete-calls (base (cancelled w p o)) (reap ∙ ap (λ b. b.reap_status) set ∙ h),
            complete-calls (base o) h,
            callbacks,
            set,
          )
          (invoke_callbacks-push_callback remove_address p (base o).callbacks),
    )
