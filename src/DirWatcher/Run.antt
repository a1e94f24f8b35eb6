-- ===== src/DirWatcher/Run.antt =====
-- DirWatcher.cpp, LoadInitial and Run.
use filetransferdaemon.Prelude.{ℕ, Option, List, [], ◌∷◌, Text, if◌then◌else◌}
use filetransferdaemon.TorrentDownloader.{Added}
use filetransferdaemon.TorrentDownloader.Files.{Place}
use filetransferdaemon.World.{World}
use filetransferdaemon.FtdApp.{FtdApp}
use filetransferdaemon.DirWatcher.{
  DirWatcher, Event, Reaction, watches, adds, ignores, react, look_up, add_watch, add_watches,
  add_home_watch,
}
use filetransferdaemon.DirWatcher.Adding.{Found, add_download}

-- What is found out about a file when it is added.
pub record Arrival : Type 0 where
  pub found : Found
  pub answer : Added
  pub uuid : Text
  pub file_uuid : Text

unfoldable arrive : World → Place → Text → Arrival → FtdApp → FtdApp
unfolding add_download
arrive w e path x a = add_download w e x.answer x.uuid x.file_uuid path x.found a

-- LoadInitial, on the files that the two calls of Glob find, in this order: those that the daemon
-- saved, and those of the users.
unfoldable load_initial : World → Place → List (Text × Arrival) → FtdApp → FtdApp
unfolding arrive
load_initial w e [] a = a
load_initial w e ((path, x) ∷ files) a = load_initial w e files (arrive w e path x a)

on_reaction :
    World
    → Place
    → (Text → Option ℕ)
    → Arrival
    → Reaction
    → DirWatcher × FtdApp
    → DirWatcher × FtdApp
unfolding arrive add_watch
on_reaction w e watch x (watches path) (d, a) = (add_watch watch path d, a)
on_reaction w e watch x (adds path) (d, a) = (d, arrive w e path x a)
on_reaction w e watch x ignores (d, a) = (d, a)

-- The events that the reads of Run give, in order.
unfoldable pub on_events :
    World
    → Place
    → (Text → Option ℕ)
    → List (Event × Arrival)
    → DirWatcher × FtdApp
    → DirWatcher × FtdApp
unfolding on_reaction react look_up
on_events w e watch [] s = s
on_events w e watch ((item, x) ∷ rest) s =
    on_events w e watch rest
      (on_reaction w e watch x (react e.config item s.0) (look_up item s.0, s.1))

-- Run: the files that are there, the watches, and then the events.
unfoldable pub run :
    World
    → Place
    → (Text → Option ℕ)
    → List (Text × Arrival)
    → List Text
    → List (Event × Arrival)
    → DirWatcher × FtdApp
    → DirWatcher × FtdApp
unfolding load_initial on_events add_watches add_home_watch
run w e watch files dirs events (d, a) =
    let a' = load_initial w e files a in
    if d.has_inotify
    then on_events w e watch events (add_home_watch watch (add_watches watch dirs d), a')
    else (d, a')
