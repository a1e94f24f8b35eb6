-- ===== src/Daemon.antt =====
-- bubba-ftd/src/filetransferdaemon.cpp: the main loop of the daemon, from the filters it adds to its
-- shutdown. A request arrives as what the Json reader makes of it.
pub mod Replies
pub mod Turns
pub mod Shelves
pub mod Automatic
pub mod Locks
pub mod Shutdown
use filetransferdaemon.Prelude.{
  ℕ, ℤ, pos, negsuc, ◌+◌, Bool, true, false, not, ◌&&◌, ◌||◌, Option, none, some, List, [], ◌∷◌,
  Text, codes, ◌==◌, if◌then◌else◌,
}
use filetransferdaemon.Json.{Json, Request}
use filetransferdaemon.Commands.{
  CmdType, cmd_code, list_downloads, get_upload_throttle, set_upload_throttle,
  get_download_throttle, set_download_throttle, cmd_shutdown,
}
use filetransferdaemon.Commands
use filetransferdaemon.World.{World}
use filetransferdaemon.Object.{Object}
use filetransferdaemon.FtdApp.{
  FtdApp, Ending, returns, throws, throws_pointer, waits, socket_fd_manager, curl_manager,
  torrent_manager, add_filter, send_ok, send_fail,
}
use filetransferdaemon.FtdApp.Adding.{add_download}
use filetransferdaemon.FtdApp.Canceling.{cancel_request}
use filetransferdaemon.FtdApp.Listing.{list_request}
use filetransferdaemon.FtdApp.Throttling.{
  get_download_request, get_upload_request, set_download_request, set_upload_request,
}
use filetransferdaemon.FtdApp.Stopping.{shut_down}

pub record Daemon : Type 0 where
  pub app : FtdApp
  pub do_shutdown : Bool

-- SIGINT is 2 and SIGTERM is 15.
unfoldable pub sighandler : ℕ → Daemon → Daemon
sighandler signum d = if signum == 2 || signum == 15 then record d { do_shutdown = true } else d

-- What Accept and Receive answer: no connection, a signal during the wait for one, a connection
-- without data, or `r` bytes and what the reader makes of them.
pub data Arrival : Type 0 where
  no_connection no_data : Arrival
  signal : ℕ → Arrival
  message : ℕ → Option Request → Arrival

-- How one round of the loop ends: the loop goes on to its condition, an exception that is caught
-- nowhere ends the process, a thread waits for ever, a search for a name goes on for ever, or the
-- round writes behind its buffer.
pub data Round : Type 0 where
  done : Round
  dies : Text → Round
  hangs : Round
  endless : Round
  overflows : Round

abbrev pub buffer_size : ℕ
buffer_size = 16384

-- The case labels of the switch.
abbrev pub is_case : ℕ → CmdType → Bool
unfolding cmd_code
is_case n cmd = n == cmd_code cmd

unfoldable pub command : ℤ → Option CmdType
command (negsuc n) = none
command (pos n) =
    if is_case n Commands.add_download
    then some Commands.add_download
    else if is_case n Commands.cancel_download
    then some Commands.cancel_download
    else if is_case n list_downloads
    then some list_downloads
    else if is_case n get_download_throttle
    then some get_download_throttle
    else if is_case n set_download_throttle
    then some set_download_throttle
    else if is_case n get_upload_throttle
    then some get_upload_throttle
    else if is_case n set_upload_throttle
    then some set_upload_throttle
    else if is_case n cmd_shutdown
    then some cmd_shutdown
    else none

after : Ending → Round
after returns = done
after (throws e) = dies e
-- catch(std::runtime_error* err), which only logs.
after (throws_pointer e) = done
after waits = hangs

after_call : Bool → FtdApp × Ending → Daemon × Round
unfolding after
after_call stopping (a, end) = (record { app = a; do_shutdown = stopping }, after end)

unfoldable pub after_search : Daemon → Option (FtdApp × Ending) → Daemon × Round
unfolding after_call
after_search d none = (d, endless)
after_search d (some result) = after_call d.do_shutdown result

-- The switch. `fuel` is for AddDownload.
unfoldable pub dispatch : World → ℕ → Option CmdType → Request → Daemon → Daemon × Round
unfolding after_call after_search
dispatch w fuel (some Commands.add_download) req d = after_search d (add_download w fuel req d.app)
dispatch w fuel (some Commands.cancel_download) req d =
    after_call d.do_shutdown (cancel_request w req d.app)
dispatch w fuel (some list_downloads) req d = (record d { app = list_request w req d.app }, done)
dispatch w fuel (some get_download_throttle) req d =
    (record d { app = get_download_request req d.app }, done)
dispatch w fuel (some set_download_throttle) req d =
    (record d { app = set_download_request req d.app }, done)
dispatch w fuel (some get_upload_throttle) req d =
    (record d { app = get_upload_request req d.app }, done)
dispatch w fuel (some set_upload_throttle) req d =
    (record d { app = set_upload_request req d.app }, done)
dispatch w fuel (some cmd_shutdown) req d =
    (record { app = send_ok d.app; do_shutdown = true }, done)
dispatch w fuel (some Commands.cmd_ok) req d = (record d { app = send_fail d.app }, done)
dispatch w fuel (some Commands.cmd_fail) req d = (record d { app = send_fail d.app }, done)
dispatch w fuel none req d = (record d { app = send_fail d.app }, done)

unfoldable pub read_command : Request → Option CmdType
unfolding command
read_command req = elim (req.as_int (codes "cmd")) [ none ↦ none | some n ↦ command n ]

-- The tests of the message before the switch.
unfoldable pub handle : World → ℕ → Option Request → Daemon → Daemon × Round
unfolding dispatch read_command
handle w fuel none d = (record d { app = send_fail d.app }, done)
handle w fuel (some req) d =
    if not (req.is_member (codes "cmd"))
    then (record d { app = send_fail d.app }, done)
    else if not (req.is_int (codes "cmd"))
    then (record d { app = send_fail d.app }, done)
    else dispatch w fuel (read_command req) req d

-- One round of the loop.
unfoldable pub serve : World → ℕ → Arrival → Daemon → Daemon × Round
unfolding handle sighandler
serve w fuel no_connection d = (d, done)
serve w fuel no_data d = (d, done)
serve w fuel (signal signum) d = (sighandler signum d, done)
serve w fuel (message r parsed) d =
    if r == buffer_size then (d, overflows) else handle w fuel parsed d

unfoldable pub go_on : Bool → Round → Bool
go_on stopping done = not stopping
go_on stopping _ = false

-- The do loop, on the arrivals in order with the answers that each round gets; it also ends with
-- the arrivals, when Accept waits.
unfoldable pub loop : ℕ → List (World × Arrival) → Daemon → Daemon × Round
unfolding serve go_on
loop fuel [] d = (d, done)
loop fuel ((w, x) ∷ xs) d =
    let (d', round) = serve w fuel x d in
    let rest = loop fuel xs d' in if go_on d'.do_shutdown round then rest else (d', round)

-- AddFilter of the three managers, in the order that FindDownloader asks them.
unfoldable pub add_filters : FtdApp → FtdApp
add_filters a =
    add_filter torrent_manager (add_filter curl_manager (add_filter socket_fd_manager a))

unfoldable stop : World → (ℕ → Object → Object) → Daemon × Round → Daemon × Round
stop w settled (d, done) =
    if d.do_shutdown then (record d { app = shut_down w settled d.app }, done) else (d, done)
stop w settled (d, dies e) = (d, dies e)
stop w settled (d, hangs) = (d, hangs)
stop w settled (d, endless) = (d, endless)
stop w settled (d, overflows) = (d, overflows)

-- From the filters to the end of main, without the shutdown of libtorrent.
unfoldable pub main :
    World → (ℕ → Object → Object) → ℕ → List (World × Arrival) → FtdApp → Daemon × Round
unfolding stop
main w settled fuel arrivals a =
    stop w settled (loop fuel arrivals (record { app = add_filters a; do_shutdown = false }))
