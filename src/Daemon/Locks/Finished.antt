-- ===== src/Daemon/Locks/Finished.antt =====
-- FtdApp.cpp and TorrentDownloader.cpp: a torrent that has finished and removes itself stops the
-- daemon.
use filetransferdaemon.Prelude.{
  ℕ, ◌≡◌, refl, ◌∙◌, ap, true, false, none, some, List, [], ◌∷◌, ◌++◌, Text, arith, insert, lookup,
  text_eq, text_lt, ◌==◌, ==_iff, Bool-cases, inl, inr,
}
use filetransferdaemon.Json.{text_object}
use filetransferdaemon.Downloader.{
  Downloader, ok, app_dl_done, reap_ok, register_completion_callback, register_locked, is_ok,
  is_call_done, complete, claim, conclude, downloaded,
}
use filetransferdaemon.TorrentDownloader.{TorrentDownloader, download_done}
use filetransferdaemon.TorrentDownloader.Ending.{farewell}
use filetransferdaemon.TorrentDownloader.Files.Owner.{download_done-Keeps}
use filetransferdaemon.World.{World}
use filetransferdaemon.Object.{Object, torrent, base}
use filetransferdaemon.FtdApp.{FtdApp, store, downloads, touch, find_first, has_url}
use filetransferdaemon.FtdApp.Adding.Answers.{downloads-touch}
use filetransferdaemon.FtdApp.Canceling.{locate, remove_address}
use filetransferdaemon.FtdApp.Heap.{IsValid}
use filetransferdaemon.FtdApp.Heap.Frames.{Alike-IsValid, store-Alike, touch-heap, touch-Alike}
use filetransferdaemon.FtdApp.Heap.Removing.{find_first_itself}
use filetransferdaemon.Daemon.Automatic.Search.{IsOnly, locate_itself}
use filetransferdaemon.Daemon.Locks.{
  transfermutex, dlmutex, LockStep, locks, unlocks, manager_locks, destroy_locks, remove_locks,
  found_locks, named_locks, request_locks, cancel_locks, slot_locks, slots_locks, finished_locks,
  Holders, Steps,
}
use filetransferdaemon.Daemon.Locks.Blocked.{Steps-IsBlocked, blocks}

-- What Complete and the status make of a torrent that nobody completed.
record IsDone (p : ℕ) (t d : TorrentDownloader) : Type 0 where
  may : reap_ok d.base ≡ true
  refuses : (register_completion_callback (some remove_address) p d.base).1 ≡ false
  status : d.status ≡ downloaded
  uuid : d.uuid ≡ t.uuid

download_done-IsDone :
    (p : ℕ) (t : TorrentDownloader) → t.reap_status ≡ ok → IsDone p t (download_done t).0
unfolding download_done complete claim conclude reap_ok is_call_done register_completion_callback
    register_locked is_ok
download_done-IsDone p t fresh = ground arith

destroy_locks-downloaded :
    (d : TorrentDownloader)
    → d.status ≡ downloaded
    → destroy_locks (torrent d) ≡ manager_locks ++ manager_locks
unfolding destroy_locks farewell
destroy_locks-downloaded d e = rw e refl

-- What RemoveDownload of a download that has finished does.
abbrev removal : List LockStep
removal = locks transfermutex ∷ ((manager_locks ++ manager_locks) ++ unlocks transfermutex ∷ [])

remove_locks-done :
    (w : World) (p : ℕ) (t d : TorrentDownloader) (a : FtdApp)
    → IsDone p t d
    → find_first a.heap
        (has_url d.url)
        (downloads (w.uid_to_user d.user) (touch (w.uid_to_user d.user) a).transfers)
      ≡ some p
    → remove_locks w (torrent d) a ≡ removal
unfolding remove_locks
remove_locks-done w p t d a k e =
    rw (e, remove_locks, k.may, destroy_locks-downloaded d k.status) refl

found_locks-done :
    (w : World) (p : ℕ) (t d : TorrentDownloader) (a : FtdApp)
    → IsDone p t d
    → find_first a.heap
        (has_url d.url)
        (downloads (w.uid_to_user d.user) (touch (w.uid_to_user d.user) a).transfers)
      ≡ some p
    → found_locks w p (torrent d) a ≡ unlocks transfermutex ∷ (removal ++ locks transfermutex ∷ [])
unfolding found_locks
found_locks-done w p t d a k e =
    rw (k.refuses, found_locks)
      (ap (λ l. unlocks transfermutex ∷ (l ++ locks transfermutex ∷ []))
        (remove_locks-done w p t d a k e))

named_locks-found :
    (w : World) (n uuid url : Text) (p : ℕ) (o : Object) (a : FtdApp)
    → locate uuid url a.heap (downloads n a.transfers) ≡ some p
    → a.heap p ≡ some o
    → named_locks w n uuid url a
      ≡ locks transfermutex ∷ (found_locks w p o (touch n a) ++ unlocks transfermutex ∷ [])
unfolding named_locks
named_locks-found w n uuid url p o a found e =
    rw (downloads-touch n a n, named_locks, found, named_locks, e) refl

-- dlDone asks for the user's name, the URL and the UUID.
cancel_locks-named :
    (w : World) (n : Text) (d : Downloader) (a : FtdApp)
    → cancel_locks w (some n) d a ≡ named_locks w n d.uuid d.url a
unfolding cancel_locks request_locks text_object insert lookup text_eq text_lt
cancel_locks-named w n d a = refl

slots_locks-one :
    (w : World) (p : ℕ) (o : Object) (n : Text) (a : FtdApp)
    → a.heap p ≡ some o
    → w.pw_name (base o).user ≡ some n
    → slots_locks w (app_dl_done p ∷ []) a ≡ named_locks w n (base o).uuid (base o).url a ++ []
unfolding slots_locks slot_locks
slots_locks-one w p o n a e known =
    rw (e, slots_locks, known) (ap (λ l. l ++ []) (cancel_locks-named w n (base o) a))

-- What the thread would have to do after it wants dlmutex for the second time.
abbrev remainder : List LockStep
remainder =
    unlocks dlmutex
    ∷ (manager_locks
        ++ unlocks transfermutex
          ∷ locks transfermutex
          ∷ unlocks transfermutex
          ∷ unlocks dlmutex
          ∷ [])

-- dlDone of a torrent that is done and listed.
done_locks :
    (w : World) (p : ℕ) (t d : TorrentDownloader) (a : FtdApp)
    → IsDone p t d
    → IsValid w.uid_to_user a
    → a.heap p ≡ some (torrent d)
    → IsOnly p (w.uid_to_user d.user) d.uuid a
    → named_locks w (w.uid_to_user d.user) d.uuid d.url a
      ≡ locks transfermutex
        ∷ ((unlocks transfermutex ∷ (removal ++ locks transfermutex ∷ []))
            ++ unlocks transfermutex ∷ [])
done_locks w p t d a k v e alone =
    let n = w.uid_to_user d.user in
    let a' = touch n a in
    let e' : a'.heap p ≡ some (torrent d) = rw (touch-heap n a) e in
    let v' = Alike-IsValid w.uid_to_user a a' (touch-Alike n a) v in
    named_locks-found w n d.uuid d.url p (torrent d) a
      (locate_itself w.uid_to_user a p (torrent d) v e alone) e
    ∙ ap (λ l. locks transfermutex ∷ (l ++ unlocks transfermutex ∷ []))
        (found_locks-done w p t d a' k
          (rw (downloads-touch n a' n) (find_first_itself w.uid_to_user a' p (torrent d) v' e')))

module _ (w : World) (p : ℕ) (t : TorrentDownloader) (a : FtdApp) (v : IsValid w.uid_to_user a)
    (e : a.heap p ≡ some (torrent t)) (fresh : t.reap_status ≡ ok)
    (signals : t.signal_done ≡ app_dl_done p ∷ [])
    (known : w.pw_name t.user ≡ some (w.uid_to_user t.user))
    (alone : IsOnly p (w.uid_to_user t.user) t.uuid a) where
  abbrev done : TorrentDownloader
  done = (download_done t).0

  finished_takes :
      (l : List LockStep) × (finished_locks w p t a
        ≡ locks dlmutex
          ∷ locks transfermutex
          ∷ unlocks transfermutex
          ∷ locks transfermutex
          ∷ locks dlmutex
          ∷ l)
  unfolding finished_locks
  finished_takes =
      let k = download_done-IsDone p t fresh in
      let keep = download_done-Keeps t in
      let b = store a p (torrent done) in
      let vb =
        Alike-IsValid w.uid_to_user a b
          (store-Alike a p (torrent t) (torrent done) e keep.url keep.user) v in
      let at : b.heap p ≡ some (torrent done) = ground arith in
      let known' : w.pw_name done.user ≡ some (w.uid_to_user done.user) = rw keep.user known in
      let alone' : IsOnly p (w.uid_to_user done.user) done.uuid b = λ q x i g same.
        elim (Bool-cases (q == p)) [
          | inl here ↦ (==_iff q p).0 here
          | inr other ↦ alone q x (rw keep.user at i) (rw other at g) (same ∙ k.uuid)
        ] in
      (
        remainder,
        ap (λ ss. locks dlmutex ∷ (slots_locks w ss b ++ unlocks dlmutex ∷ [])) signals
            ∙ ap (λ l. locks dlmutex ∷ (l ++ unlocks dlmutex ∷ []))
                (slots_locks-one w p (torrent done) (w.uid_to_user done.user) b at known')
            ∙ ap (λ l. locks dlmutex ∷ ((l ++ []) ++ unlocks dlmutex ∷ []))
                (done_locks w p t done b k vb at alone'),
      )

  -- A torrent that removes itself, that nobody has completed, whose user is known by one name and who
  -- has no other download with its UUID: the thread that handles its alert of having finished, from
  -- when both mutexes are free, can come to hold transfermutex and dlmutex for ever, whatever any
  -- thread does from then on.
  pub finished_torrent_blocks :
      (i : ℕ) (s : Holders)
      → s.owner transfermutex ≡ none
      → s.owner dlmutex ≡ none
      → s.rest i ≡ finished_locks w p t a
      → (u : Holders) × Steps s u
        × ((z : Holders)
            → Steps u z
            → (z.owner transfermutex ≡ some i) × (z.owner dlmutex ≡ some i))
  finished_torrent_blocks i s free free' at =
      let (l, is) = finished_takes in
      let (u, r, b) = blocks i l s free free' (at ∙ is) in
      (u, r, λ z r'. let b' = Steps-IsBlocked i l r' b in (b'.transfer, b'.dl))
