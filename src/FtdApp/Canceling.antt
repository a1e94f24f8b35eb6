-- ===== src/FtdApp/Canceling.antt =====
-- FtdApp.cpp, CancelDownload, dlDone and the removal of a download from the deferred-work queue.
pub mod Removal
pub mod Silence
use filetransferdaemon.Prelude.{
  ℕ, Bool, true, false, not, ◌&&◌, ◌||◌, Option, none, some, List, [], ◌∷◌, ◌++◌, map, Text, Table,
  codes, text_eq, insert, is_empty, ◌==◌, if◌then◌else◌,
}
use filetransferdaemon.Json.{Request, text_object}
use filetransferdaemon.Downloader.{Downloader, register_completion_callback, reap_ok}
use filetransferdaemon.TorrentDownloader.{Job}
use filetransferdaemon.Platform.{Effect}
use filetransferdaemon.World.{World}
use filetransferdaemon.Object.{
  Object, base, with_base, cancel_download, destroy, destroy_waits, leave_manager,
}
use filetransferdaemon.FtdApp.{
  FtdApp, Work, remove, torrent_job, Ending, returns, waits, store, downloads, touch, find_first,
  has_uuid, has_url, on_object,
}
use filetransferdaemon.FtdApp.Adding.{valid_text}

-- The address of FtdApp::Remove.
abbrev pub remove_address : ℕ
remove_address = 1

-- erase(lIt), at the first download with the URL.
unfoldable pub erase_url : (ℕ → Option Object) → Text → List ℕ → List ℕ
erase_url heap url [] = []
erase_url heap url (p ∷ ps) =
    let rest = erase_url heap url ps in if on_object (has_url url) (heap p) then ps else p ∷ rest

-- delete(dl), for a destructor that need not wait.
unfoldable pub delete_object : World → ℕ → Object → FtdApp → FtdApp
unfolding destroy leave_manager
delete_object w p o a =
    let (effects, jobs) = destroy w o in
    record a {
      heap = λ q. if q == p then none else a.heap q;
      effects = a.effects ++ effects;
      work = a.work ++ map (torrent_job p) jobs;
      torrents = leave_manager p o a.torrents;
    }

-- Whether RemoveDownload gets through: the download may be reaped, and its destructor does not wait.
unfoldable pub may_delete : World → Object → Bool
unfolding destroy_waits reap_ok
may_delete w o = reap_ok (base o) && not (destroy_waits w o)

-- RemoveDownload of the object `o` at `p`: it waits until the download may be reaped. Either wait
-- holds transfermutex, so the tables are left here as they were.
unfoldable pub remove_object : World → ℕ → Object → FtdApp → FtdApp × Ending
unfolding delete_object may_delete
remove_object w p o a =
    let user = w.uid_to_user (base o).user in
    let a' = touch user a in
    let url = (base o).url in
    elim (find_first a.heap (has_url url) (downloads user a'.transfers)) [
      | none ↦ (a', returns)
      | some q ↦
          if may_delete w o
          then (
            delete_object w p o (record a' {
              transfers =
                  insert user (erase_url a.heap url (downloads user a'.transfers)) a'.transfers;
            }),
            returns,
          )
          else (a', waits)
    ]

-- DeferredRemove. The address of an object that is gone changes nothing here; in the program it is
-- undefined what happens then.
unfoldable pub deferred_remove : World → ℕ → FtdApp → FtdApp × Ending
unfolding remove_object
deferred_remove w p a = elim (a.heap p) [ none ↦ (a, returns) | some o ↦ remove_object w p o a ]

-- Remove, which Complete calls: it only defers the removal.
unfoldable pub add_work : List Work → FtdApp → FtdApp
add_work jobs a = record a { work = a.work ++ jobs }

-- The virtual CancelDownload of the object at `p`, with its callback registered.
unfoldable pub cancel_object : World → ℕ → Object → FtdApp → FtdApp
unfolding add_work
cancel_object w p o a =
    let (o', effects, jobs) = cancel_download w o in
    add_work (map (torrent_job p) jobs) (store (record a { effects = a.effects ++ effects }) p o')

-- The download to cancel was found at `p`.
unfoldable pub cancel_found : World → ℕ → Object → FtdApp → FtdApp × Ending
unfolding cancel_object register_completion_callback
cancel_found w p o a =
    let (d, registered) = register_completion_callback (some remove_address) p (base o) in
    if registered then (cancel_object w p (with_base o d) a, returns) else deferred_remove w p a

-- The search: by the UUID if there is one, and by the URL if that finds nothing.
unfoldable pub locate : Text → Text → (ℕ → Option Object) → List ℕ → Option ℕ
locate uuid url heap ps =
    let by_url = find_first heap (has_url url) ps in
    if is_empty uuid
    then by_url
    else elim (find_first heap (has_uuid uuid) ps) [ none ↦ by_url | some p ↦ some p ]

unfoldable pub cancel_named : World → Text → Text → Text → FtdApp → FtdApp × Ending
cancel_named w user uuid url a =
    let a' = touch user a in
    elim (locate uuid url a.heap (downloads user a'.transfers)) [
      | none ↦ (a', returns)
      | some p ↦ elim (a.heap p) [ none ↦ (a', returns) | some o ↦ cancel_found w p o a' ]
    ]

-- CancelDownload: no answer is sent.
unfoldable pub cancel_request : World → Request → FtdApp → FtdApp × Ending
unfolding cancel_named
cancel_request w req a =
    if valid_text req (codes "user")
      && (valid_text req (codes "url") && valid_text req (codes "uuid"))
    then cancel_named w (req.as_string (codes "user")) (req.as_string (codes "uuid"))
        (req.as_string (codes "url")) a
    else (a, returns)

-- dlDone, connected to both signals of a download that removes itself.
unfoldable pub dl_done : World → ℕ → FtdApp → FtdApp × Ending
unfolding cancel_request
dl_done w p a = elim (a.heap p) [
  | none ↦ (a, returns)
  | some o ↦ elim (w.pw_name (base o).user) [
    | none ↦ (a, returns)
    | some name ↦
        cancel_request w
          (text_object (
            insert (codes "uuid") (base o).uuid
              (insert (codes "url") (base o).url (insert (codes "user") name []))))
          a
  ]
]
