-- ===== src/FtdApp/Stopping.antt =====
-- FtdApp.cpp, ShutDown: every download is stopped and, once it may be reaped, deleted.
pub mod Deletion
use filetransferdaemon.Prelude.{ℕ, Option, none, some, List, [], ◌∷◌, ◌++◌, map, Table}
use filetransferdaemon.World.{World}
use filetransferdaemon.Object.{Object, stop_download}
use filetransferdaemon.FtdApp.{FtdApp, torrent_job}
use filetransferdaemon.FtdApp.Canceling.{delete_object, add_work}

-- StopDownload of the object at `p`, then the other threads until it may be reaped: they leave it
-- as `settled` says.
unfoldable pub stop_object : World → (ℕ → Object → Object) → ℕ → Object → FtdApp → FtdApp
unfolding add_work delete_object
stop_object w settled p o a =
    let (o', effects, jobs) = stop_download w o in
    delete_object w p (settled p o')
      (add_work (map (torrent_job p) jobs) (record a { effects = a.effects ++ effects }))

unfoldable pub stop_at : World → (ℕ → Object → Object) → ℕ → Option Object → FtdApp → FtdApp
unfolding stop_object
stop_at w settled p none a = a
stop_at w settled p (some o) a = stop_object w settled p o a

unfoldable pub stop_list : World → (ℕ → Object → Object) → List ℕ → FtdApp → FtdApp
unfolding stop_at
stop_list w settled [] a = a
stop_list w settled (p ∷ ps) a = stop_list w settled ps (stop_at w settled p (a.heap p) a)

unfoldable pub stop_all : World → (ℕ → Object → Object) → Table (List ℕ) → FtdApp → FtdApp
stop_all w settled [] a = a
stop_all w settled ((user, ps) ∷ m) a = stop_all w settled m (stop_list w settled ps a)

unfoldable pub shut_down : World → (ℕ → Object → Object) → FtdApp → FtdApp
unfolding stop_all
shut_down w settled a = record (stop_all w settled a.transfers a) { transfers = [] }
