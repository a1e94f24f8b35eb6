-- ===== src/Daemon/Automatic.antt =====
-- CurlDownloader.cpp and FtdApp.cpp together: the end of a transfer as the daemon sees it, from Run
-- over the signals and Complete to the deferred-work queue. The slots run in the thread of the
-- transfer; libsigc++ calls them in the order in which they were connected.
pub mod Search
pub mod Removal
pub mod Twice
use filetransferdaemon.Prelude.{ℕ, Option, none, some, List, [], ◌∷◌, ◌++◌, ◌==◌, if◌then◌else◌}
use filetransferdaemon.Downloader.{
  Slot, app_dl_done, watcher_failed, http_done, http_failed, complete,
}
use filetransferdaemon.Platform.{Effect, emit}
use filetransferdaemon.World.{World}
use filetransferdaemon.Object.{Object, curl, base, with_base}
use filetransferdaemon.CurlDownloader.{CurlDownloader}
use filetransferdaemon.CurlDownloader.Run.{Transfer, run}
use filetransferdaemon.DirWatcher.Adding.{download_failed}
use filetransferdaemon.FtdApp.{FtdApp, remove, Ending, returns, store}
use filetransferdaemon.FtdApp.Canceling.{dl_done, add_work, remove_address}

failed_at : World → Option Object → FtdApp → FtdApp × Ending
failed_at w none a = (a, returns)
failed_at w (some o) a = download_failed w (base o) a

-- One slot. The two of a torrent belong to the download of its torrent file, which is in no table.
unfoldable pub on_slot : World → Slot → FtdApp → FtdApp × Ending
unfolding failed_at
on_slot w (app_dl_done p) a = dl_done w p a
on_slot w (watcher_failed p) a = failed_at w (a.heap p) a
on_slot w (http_done p) a = (a, returns)
on_slot w (http_failed p) a = (a, returns)

unfoldable pub on_effect : World → Effect → FtdApp → FtdApp × Ending
unfolding on_slot
on_effect w (emit s) a = on_slot w s a
on_effect w e a = (record a { effects = a.effects ++ e ∷ [] }, returns)

-- What Run does to the system, in order, up to a slot that does not return.
unfoldable pub on_effects : World → List Effect → FtdApp → FtdApp × Ending
on_effects w [] a = (a, returns)
on_effects w (e ∷ es) a =
    let (a', ending) = on_effect w e a in
    elim ending [ returns ↦ on_effects w es a' | other ↦ (a', other) ]

-- InvokeCallbacks. FtdApp::Remove is the only callback that the daemon registers.
unfoldable pub on_calls : List (ℕ × ℕ) → FtdApp → FtdApp
unfolding add_work
on_calls [] a = a
on_calls ((cb, payload) ∷ cs) a =
    on_calls cs (if cb == remove_address then add_work (remove payload ∷ []) a else a)

pub complete_at : ℕ → Option Object → FtdApp → FtdApp
unfolding on_calls
complete_at p none a = a
complete_at p (some o) a =
    let (d, calls) = complete (base o) in on_calls calls (store a p (with_base o d))

-- The thread of the transfer at `p`, when no other one comes between.
unfoldable pub run_thread : World → Transfer → ℕ → CurlDownloader → FtdApp → FtdApp × Ending
unfolding on_effects complete_at
run_thread w t p c a =
    let (c', effects) = run w.lib t c in
    let (a', ending) = on_effects w effects (store a p (curl c')) in
    elim ending [ returns ↦ (complete_at p (a'.heap p) a', returns) | other ↦ (a', other) ]
