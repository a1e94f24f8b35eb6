-- ===== src/DirWatcher.antt =====
-- bubba-ftd/src/DirWatcher.h and DirWatcher.cpp: the thread that adds the torrent files of users. The
-- watches are by their inotify descriptors; what the kernel and the file system answer is given.
pub mod Adding
pub mod Run
pub mod Laws
pub mod Files
use filetransferdaemon.Prelude.{
  ℕ, ◌+◌, ◌-◌, Bool, true, false, ◌&&◌, Option, none, some, List, [], ◌∷◌, ◌++◌, Text, codes,
  text_eq, lookup_at, insert_at, is_empty, ◌==◌, starts_with, if◌then◌else◌,
}
use filetransferdaemon.FtdConfig.{FtdConfig, get_string_or_default, or_default}
use filetransferdaemon.TorrentDownloadManager
use filetransferdaemon.Object.{torrent}

pub record DirWatcher : Type 0 where
  pub has_inotify : Bool
  pub do_run : Bool
  pub iwatches : List (ℕ × Text)
  pub baseglob : Text

prefixed : Option Text → Option Text
prefixed none = none
prefixed (some dir) = some (b'/' ∷ (dir ++ codes "/"))

unfoldable new_watcher : FtdConfig → Bool → DirWatcher
unfolding prefixed
new_watcher cfg has_inotify = record {
  has_inotify = has_inotify;
  do_run = true;
  iwatches = [];
  baseglob =
      codes "/home/*"
      ++ or_default (codes "/torrents/")
          (prefixed (cfg.get_string (codes "torrent") (codes "torrentdir")));
}

unfoldable pub stop : DirWatcher → DirWatcher
stop d = record d { do_run = false }

note_watch : Option ℕ → Text → DirWatcher → DirWatcher
note_watch none path d = d
note_watch (some w) path d = record d { iwatches = insert_at w path d.iwatches }

-- AddWatch; `watch` is inotify_add_watch.
unfoldable pub add_watch : (Text → Option ℕ) → Text → DirWatcher → DirWatcher
unfolding note_watch
add_watch watch path d = note_watch (watch path) path d

unfoldable pub add_home_watch : (Text → Option ℕ) → DirWatcher → DirWatcher
unfolding add_watch
add_home_watch watch d = add_watch watch (codes "/home/") d

-- AddWatches, on the directories that Glob finds, of which there are none when it throws.
unfoldable pub add_watches : (Text → Option ℕ) → List Text → DirWatcher → DirWatcher
add_watches watch [] d = d
add_watches watch (dir ∷ dirs) d = add_watches watch dirs (add_watch watch dir d)

-- The first watch of a path, and the watches without it.
unfoldable pub find_watch : Text → List (ℕ × Text) → Option ℕ
find_watch path [] = none
find_watch path ((w, p) ∷ m) =
    let rest = find_watch path m in if text_eq p path then some w else rest

unfoldable pub erase_watch : ℕ → List (ℕ × Text) → List (ℕ × Text)
erase_watch w [] = []
erase_watch w ((v, p) ∷ m) = let rest = erase_watch w m in if v == w then m else (v, p) ∷ rest

-- DelWatch; `removes` is whether inotify_rm_watch succeeds.
unfoldable pub del_watch : (ℕ → Bool) → Text → DirWatcher → DirWatcher
unfolding find_watch erase_watch
del_watch removes path d = elim (find_watch path d.iwatches) [
  | none ↦ d
  | some w ↦ if removes w then record d { iwatches = erase_watch w d.iwatches } else d
]

-- One inotify_event: the descriptor, the mask and the name; `item->len` is 0 for an empty name.
pub record Event : Type 0 where
  pub wd : ℕ
  pub creates : Bool
  pub any_mask : Bool
  pub name : Text

-- What Run does for one event: a new watch, a download to add, or nothing.
pub data Reaction : Type 0 where
  watches adds : Text → Reaction
  ignores : Reaction

watched : ℕ → List (ℕ × Text) → Text
watched wd m = or_default [] (lookup_at wd m)

-- iwatches[item->wd] of an event with a name: an unknown descriptor gets an empty path.
unfoldable pub look_up : Event → DirWatcher → DirWatcher
look_up item d = if is_empty item.name then d else elim (lookup_at item.wd d.iwatches) [
  | none ↦ record d { iwatches = insert_at item.wd [] d.iwatches }
  | some path ↦ d
]

-- item->mask && (IN_CREATE|IN_MOVED_TO): whether there is any mask at all.
unfoldable pub react : FtdConfig → Event → DirWatcher → Reaction
unfolding watched get_string_or_default
react cfg item d =
    if is_empty item.name
    then ignores
    else if text_eq (watched item.wd d.iwatches) (codes "/home/")
    then (let path =
          codes "/home/"
          ++ (item.name
              ++ b'/'
                ∷ (get_string_or_default cfg (codes "torrent") (codes "torrentdir")
                      (codes "torrents")
                    ++ codes "/")) in
        if item.creates then watches path else ignores)
    else if item.any_mask
    then if starts_with (codes ".ftdtr") item.name
      then ignores
      else adds (watched item.wd d.iwatches ++ item.name)
    else ignores
