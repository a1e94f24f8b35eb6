-- ===== src/Daemon/Locks.antt =====
-- FtdApp.cpp and TorrentDownloader.cpp: which of transfermutex and dlmutex the operations take, in
-- order, when a torrent has finished and removes itself. Both are of libeutils' default kind: the
-- thread that holds one and takes it again waits for itself. The mutexes of libeutils and of the base
-- class are left out.
pub mod Blocked
pub mod Finished
use filetransferdaemon.Prelude.{
  ℕ, ◌≡◌, ◌&&◌, Option, none, some, List, [], ◌∷◌, ◌++◌, Text, codes, insert, ◌==◌, if◌then◌else◌,
}
use filetransferdaemon.Json.{Request, text_object}
use filetransferdaemon.Downloader.{
  Downloader, Slot, app_dl_done, watcher_failed, http_done, http_failed, reap_ok,
  register_completion_callback,
}
use filetransferdaemon.TorrentDownloader.{TorrentDownloader, download_done}
use filetransferdaemon.TorrentDownloader.Ending.{
  Farewell, remove_torrent, cancel_and_wait, just_wait, nothing, farewell,
}
use filetransferdaemon.World.{World}
use filetransferdaemon.Object.{Object, curl, upload, torrent, base}
use filetransferdaemon.FtdApp.{FtdApp, store, downloads, touch, find_first, has_url}
use filetransferdaemon.FtdApp.Adding.{valid_text}
use filetransferdaemon.FtdApp.Canceling.{locate, remove_address}
use filetransferdaemon.Daemon.Automatic.{on_slot}

pub data Lock : Type 0 where
  transfermutex dlmutex : Lock

-- What a thread does next. One that sleeps until a download may be reaped is not followed further.
pub data LockStep : Type 0 where
  locks unlocks : Lock → LockStep
  sleeps : LockStep

-- An operation of TorrentDownloadManager that holds dlmutex throughout, such as UnregisterHandle or
-- RemoveDownload.
abbrev pub manager_locks : List LockStep
manager_locks = locks dlmutex ∷ unlocks dlmutex ∷ []

wait_locks : Downloader → List LockStep
wait_locks d = if reap_ok d then [] else sleeps ∷ []

farewell_locks : Farewell → Downloader → List LockStep
unfolding wait_locks
farewell_locks remove_torrent d = manager_locks
farewell_locks cancel_and_wait d = wait_locks d
farewell_locks just_wait d = wait_locks d
farewell_locks nothing d = []

-- The destructor.
unfoldable pub destroy_locks : Object → List LockStep
unfolding farewell_locks
destroy_locks (curl c) = []
destroy_locks (upload c) = []
destroy_locks (torrent t) = farewell_locks (farewell t.status) t.base ++ manager_locks

-- RemoveDownload.
unfoldable pub remove_locks : World → Object → FtdApp → List LockStep
unfolding destroy_locks
remove_locks w o a =
    let user = w.uid_to_user (base o).user in
    locks transfermutex
    ∷ elim (find_first a.heap (has_url (base o).url) (downloads user (touch user a).transfers)) [
      | none ↦ unlocks transfermutex ∷ []
      | some q ↦
          if reap_ok (base o) then destroy_locks o ++ unlocks transfermutex ∷ [] else sleeps ∷ []
    ]

-- CancelDownload, once the download is found: one that is completed is removed at once.
unfoldable pub found_locks : World → ℕ → Object → FtdApp → List LockStep
unfolding remove_locks
found_locks w p o a =
    if (register_completion_callback (some remove_address) p (base o)).1
    then []
    else unlocks transfermutex ∷ (remove_locks w o a ++ locks transfermutex ∷ [])

unfoldable pub named_locks : World → Text → Text → Text → FtdApp → List LockStep
unfolding found_locks
named_locks w user uuid url a =
    let a' = touch user a in
    locks transfermutex
    ∷ (elim (locate uuid url a.heap (downloads user a'.transfers)) [
      | none ↦ []
      | some p ↦ elim (a.heap p) [ none ↦ [] | some o ↦ found_locks w p o a' ]
    ]
        ++ unlocks transfermutex ∷ [])

unfoldable pub request_locks : World → Request → FtdApp → List LockStep
unfolding named_locks
request_locks w req a =
    if valid_text req (codes "user")
      && (valid_text req (codes "url") && valid_text req (codes "uuid"))
    then named_locks w (req.as_string (codes "user")) (req.as_string (codes "uuid"))
        (req.as_string (codes "url")) a
    else []

-- dlDone and DownloadFailed, for a user of that name.
unfoldable pub cancel_locks : World → Option Text → Downloader → FtdApp → List LockStep
unfolding request_locks
cancel_locks w none d a = []
cancel_locks w (some name) d a =
    request_locks w
      (text_object
        (insert (codes "uuid") d.uuid (insert (codes "url") d.url (insert (codes "user") name []))))
      a

object_locks : World → (Downloader → Option Text) → Option Object → FtdApp → List LockStep
unfolding cancel_locks
object_locks w name none a = []
object_locks w name (some o) a = cancel_locks w (name (base o)) (base o) a

unfoldable pub slot_locks : World → Slot → FtdApp → List LockStep
unfolding object_locks
slot_locks w (app_dl_done p) a = object_locks w (λ d. w.pw_name d.user) (a.heap p) a
slot_locks w (watcher_failed p) a = object_locks w (λ d. some (w.uid_to_user d.user)) (a.heap p) a
slot_locks w (http_done p) a = []
slot_locks w (http_failed p) a = []

unfoldable pub slots_locks : World → List Slot → FtdApp → List LockStep
unfolding slot_locks
slots_locks w [] a = []
slots_locks w (s ∷ ss) a = slot_locks w s a ++ slots_locks w ss (on_slot w s a).0

-- HandleAlerts, when the torrent at `p` has finished: DownloadDone runs while dlmutex is held.
unfoldable pub finished_locks : World → ℕ → TorrentDownloader → FtdApp → List LockStep
unfolding slots_locks
finished_locks w p t a =
    locks dlmutex
    ∷ (slots_locks w t.signal_done (store a p (torrent (download_done t).0))
        ++ unlocks dlmutex ∷ [])

-- Who holds each mutex, and what each thread has still to do.
pub record Holders : Type 0 where
  pub owner : Lock → Option ℕ
  pub rest : ℕ → List LockStep

abbrev pub hold : Lock → Option ℕ → (Lock → Option ℕ) → Lock → Option ℕ
hold transfermutex x f transfermutex = x
hold transfermutex x f dlmutex = f dlmutex
hold dlmutex x f transfermutex = f transfermutex
hold dlmutex x f dlmutex = x

abbrev pub set_rest : ℕ → List LockStep → (ℕ → List LockStep) → ℕ → List LockStep
set_rest i l f j = if i == j then l else f j

-- A free mutex is taken, the own one is given back, or a thread that is done begins another operation.
pub data Step (s : Holders) : Holders → Type 0 where
  takes :
      (i : ℕ) (m : Lock) (l : List LockStep)
      → s.rest i ≡ locks m ∷ l
      → s.owner m ≡ none
      → Step s (record { owner = hold m (some i) s.owner; rest = set_rest i l s.rest })
  gives :
      (i : ℕ) (m : Lock) (l : List LockStep)
      → s.rest i ≡ unlocks m ∷ l
      → s.owner m ≡ some i
      → Step s (record { owner = hold m none s.owner; rest = set_rest i l s.rest })
  begins :
      (i : ℕ) (l : List LockStep)
      → s.rest i ≡ []
      → Step s (record { owner = s.owner; rest = set_rest i l s.rest })

pub data Steps (s : Holders) : Holders → Type 0 where
  none_yet : Steps s s
  further : {t u : Holders} → Steps s t → Step t u → Steps s u
