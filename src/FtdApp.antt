-- ===== src/FtdApp.antt =====
-- bubba-ftd/src/FtdApp.h and FtdApp.cpp: the transfers of all users. This file has the state and
-- the private helpers; the requests are in the children. Each operation is one step,
-- though AddDownload takes transfermutex in its helpers only. Downloads are objects on a heap, known by their address;
-- an address that no object has matches nothing.
pub mod Adding
pub mod Canceling
pub mod Listing
pub mod Throttling
pub mod Stopping
pub mod Heap
use filetransferdaemon.Prelude.{
  ℕ, ℤ, pos, Bool, true, false, ◌&&◌, Option, none, some, List, [], ◌∷◌, ◌++◌, Text, Table, codes,
  text_eq, lookup, insert, ◌==◌, if◌then◌else◌,
}
use filetransferdaemon.Json.{Json, int, object, end, member}
use filetransferdaemon.Commands.{CmdType, cmd_ok, cmd_fail, cmd_code}
use filetransferdaemon.Platform.{Effect}
use filetransferdaemon.Object.{Object, base}
use filetransferdaemon.TorrentDownloader.{Job}
use filetransferdaemon.TorrentDownloadManager.{TorrentDownloadManager}

-- The managers that the daemon adds.
pub data Manager : Type 0 where
  socket_fd_manager curl_manager torrent_manager : Manager

-- The deferred-work queue: DeferredRemove of a download, or a job of a torrent.
pub data Work : Type 0 where
  remove : ℕ → Work
  torrent_job : ℕ → Job → Work

pub record FtdApp : Type 0 where
  pub transfers : Table (List ℕ)
  pub managers : List Manager
  pub torrents : TorrentDownloadManager
  pub heap : ℕ → Option Object
  pub fresh : ℕ
  pub work : List Work
  pub sent : List Json
  pub effects : List Effect

-- How an operation ends: it returns, throws a std::runtime_error object or pointer, or waits for another
-- thread while it holds transfermutex.
pub data Ending : Type 0 where
  returns : Ending
  throws throws_pointer : Text → Ending
  waits : Ending

abbrev pub store : FtdApp → ℕ → Object → FtdApp
store a p o = record a { heap = λ q. if q == p then some o else a.heap q }

-- this->transfers[user], which makes an empty entry for a new user.
unfoldable pub downloads : Text → Table (List ℕ) → List ℕ
downloads user m = elim (lookup user m) [ none ↦ [] | some ps ↦ ps ]

unfoldable pub touch : Text → FtdApp → FtdApp
touch user a = elim (lookup user a.transfers) [
  | none ↦ record a { transfers = insert user [] a.transfers }
  | some ps ↦ a
]

abbrev pub on_object : (Object → Bool) → Option Object → Bool
on_object test none = false
on_object test (some o) = test o

abbrev pub has_uuid : Text → Object → Bool
has_uuid uuid o = text_eq (base o).uuid uuid

abbrev pub has_url : Text → Object → Bool
has_url url o = text_eq (base o).url url

-- The loops over one list of downloads: the first that passes the test.
unfoldable pub find_first : (ℕ → Option Object) → (Object → Bool) → List ℕ → Option ℕ
find_first heap test [] = none
find_first heap test (p ∷ ps) =
    let rest = find_first heap test ps in if on_object test (heap p) then some p else rest

unfoldable pub is_found : Option ℕ → Bool
is_found none = false
is_found (some p) = true

unfoldable pub find_by_uuid : Text → Text → FtdApp → FtdApp × Bool
unfolding is_found
find_by_uuid uuid user a =
    let a' = touch user a in
    (a', is_found (find_first a.heap (has_uuid uuid) (downloads user a'.transfers)))

unfoldable pub any_url : (ℕ → Option Object) → Text → Table (List ℕ) → Bool
unfolding is_found
any_url heap url [] = false
any_url heap url ((user, ps) ∷ m) =
    let rest = any_url heap url m in
    if is_found (find_first heap (has_url url) ps) then true else rest

unfoldable pub find_by_url : Text → FtdApp → Bool
unfolding any_url
find_by_url url a = any_url a.heap url a.transfers

unfoldable pub send_json_value : Json → FtdApp → FtdApp
send_json_value val a = record a { sent = a.sent ++ val ∷ [] }

abbrev pub reply : CmdType → Json
reply cmd = object (member (codes "cmd") (int (pos (cmd_code cmd))) end)

unfoldable pub send_ok : FtdApp → FtdApp
unfolding send_json_value
send_ok a = send_json_value (reply cmd_ok) a

unfoldable pub send_fail : FtdApp → FtdApp
unfolding send_json_value
send_fail a = send_json_value (reply cmd_fail) a

unfoldable pub register_download : Text → ℕ → FtdApp → FtdApp
register_download user p a = record a {
  transfers = insert user (downloads user a.transfers ++ p ∷ []) a.transfers;
}

unfoldable pub add_filter : Manager → FtdApp → FtdApp
add_filter mgr a = record a { managers = a.managers ++ mgr ∷ [] }
