-- ===== src/Downloader.antt =====
-- bubba-ftd/src/Downloader.h and Downloader.cpp: the base class of all downloads.
-- Byte counts are whole numbers below 2 ^ 53, which a double holds exactly, and are ℕ here. A
-- function or object address is a number; NULL is `none`. The mutexes are modelled in Threads.
pub mod Completion
pub mod Threads
pub mod Races
pub mod Waiting
pub mod Owner
use filetransferdaemon.Prelude.{
  ℕ, ◌≡◌, Bool, true, false, ◌&&◌, ◌||◌, Option, none, some, List, [], ◌∷◌, ◌++◌, map, Text, Table,
  ◌==◌, ltb, if◌then◌else◌,
}
use filetransferdaemon.Json.{Json, null}

pub data Status : Type 0 where
  not_started queued downloaded cancel_in_progress cancel_done in_progress failed : Status

Status-discrete : Discrete Status
Status-discrete = hlevel

unfoldable pub status_code : Status → ℕ
status_code not_started = 0
status_code queued = 1
status_code downloaded = 2
status_code cancel_in_progress = 3
status_code cancel_done = 4
status_code in_progress = 5
status_code failed = 6

unfoldable pub status_eq : Status → Status → Bool
unfolding status_code
status_eq a b = status_code a == status_code b

-- callbackstate; `ok` is OK.
pub data CallbackState : Type 0 where
  ok call_in_progress call_done : CallbackState

-- What a SignalDone or SignalFailed is connected to; a number is the bound object.
pub data Slot : Type 0 where
  app_dl_done watcher_failed : ℕ → Slot
  http_done http_failed : ℕ → Slot

-- map<callback_t,list<void*> >, in the order of its keys.
abbrev pub Callbacks : Type 0
Callbacks = List (ℕ × List ℕ)

pub record Downloader : Type 0 where
  pub url : Text
  pub destination_path : Text
  pub destination_name : Text
  pub info : Json
  pub user : ℕ
  pub group : ℕ
  pub uuid : Text
  pub size : ℕ
  pub received : ℕ
  pub status : Status
  pub tip : Bool
  pub cancel : Bool
  pub reap_status : CallbackState
  pub policy : ℕ
  pub hints : Table Text
  pub callbacks : Callbacks
  pub signal_done : List Slot
  pub signal_failed : List Slot

-- uid_t and gid_t of a download whose owner was not set.
abbrev pub no_owner : ℕ
no_owner = 0xffff

-- The constructor, with `url` as the URL object keeps it.
unfoldable pub new_downloader : Text → Text → Text → Text → Downloader
new_downloader url dest name uuid = record {
  url = url;
  destination_path = dest;
  destination_name = name;
  info = null;
  user = no_owner;
  group = no_owner;
  uuid = uuid;
  size = 0;
  received = 0;
  status = not_started;
  tip = false;
  cancel = false;
  reap_status = ok;
  policy = 0;
  hints = [];
  callbacks = [];
  signal_done = [];
  signal_failed = [];
}

-- The base class's Progress does nothing, and no subclass overrides it.
unfoldable pub update_progress : ℕ → ℕ → Downloader → Downloader × Bool
update_progress dltotal dlnow d =
    let d' = record d { size = dltotal; received = dlnow } in
    if d.cancel then (record d' { status = cancel_in_progress }, true) else (d', false)

unfoldable pub set_info : Json → Downloader → Downloader
set_info info d = record d { info = info }

unfoldable pub cancel_download : Downloader → Downloader
cancel_download d = record d { cancel = true }

unfoldable pub is_ok : CallbackState → Bool
is_ok ok = true
is_ok call_in_progress = false
is_ok call_done = false

unfoldable pub is_call_done : CallbackState → Bool
is_call_done call_done = true
is_call_done ok = false
is_call_done call_in_progress = false

unfoldable pub reap_ok : Downloader → Bool
unfolding is_call_done status_eq
reap_ok d = is_call_done d.reap_status || status_eq d.status not_started && d.cancel

-- True if the caller is put to sleep on the condition.
unfoldable pub wait_for_completion : Downloader → Bool
unfolding reap_ok
wait_for_completion d = if reap_ok d then false else true

-- this->callbacks[cb].push_back(data)
unfoldable pub push_callback : ℕ → ℕ → Callbacks → Callbacks
push_callback cb payload [] = (cb, payload ∷ []) ∷ []
push_callback cb payload ((k, ds) ∷ m) =
    let rest = push_callback cb payload m in
    if k == cb
    then (k, ds ++ payload ∷ []) ∷ m
    else if ltb cb k
    then (cb, payload ∷ []) ∷ (k, ds) ∷ m
    else (k, ds) ∷ rest

-- What RegisterCompletionCallback does while it holds cbmutex.
unfoldable pub register_locked : ℕ → ℕ → Downloader → Downloader × Bool
unfolding is_ok
register_locked cb payload d =
    if is_ok d.reap_status
    then (record d { callbacks = push_callback cb payload d.callbacks }, true)
    else (d, false)

unfoldable pub register_completion_callback : Option ℕ → ℕ → Downloader → Downloader × Bool
unfolding register_locked
register_completion_callback none payload d = (d, false)
register_completion_callback (some cb) payload d = register_locked cb payload d

-- The calls that InvokeCallbacks makes, in order: a function and its argument.
unfoldable pub invoke_callbacks : Callbacks → List (ℕ × ℕ)
invoke_callbacks [] = []
invoke_callbacks ((cb, ds) ∷ m) = map (λ payload. (cb, payload)) ds ++ invoke_callbacks m

-- The first critical section of Complete; the answer is `proceed`.
unfoldable pub claim : Downloader → Downloader × Bool
unfolding is_ok
claim d =
    if is_ok d.reap_status then (record d { reap_status = call_in_progress }, true) else (d, false)

-- The last critical section of Complete.
unfoldable pub conclude : Downloader → Downloader
conclude d = record d { reap_status = call_done }

unfoldable pub complete : Downloader → Downloader × List (ℕ × ℕ)
unfolding claim conclude invoke_callbacks
complete d =
    let (claimed, proceed) = claim d in
    if proceed then (conclude claimed, invoke_callbacks claimed.callbacks) else (claimed, [])
