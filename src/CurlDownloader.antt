-- ===== src/CurlDownloader.antt =====
-- bubba-ftd/src/CurlDownloader.h and CurlDownloader.cpp: downloads through libcurl.
-- The transfer itself is the library's: the model is given the calls that libcurl makes back and
-- its result, and runs the daemon's code on them. The locked callbacks are single steps.
pub mod Run
pub mod Headers
pub mod Filter
use filetransferdaemon.Prelude.{
  ℕ, ◌+◌, ◌≡◌, Bool, true, false, not, ◌&&◌, ◌||◌, Option, none, some, List, [], ◌∷◌, ◌++◌, Text,
  Table, codes, length, is_empty, text_eq, after_last, insert, ◌==◌, ltb, if◌then◌else◌,
}
use filetransferdaemon.Json.{Json, real, str, object, end, member}
use filetransferdaemon.Downloader.{
  Downloader, new_downloader, no_owner, set_info, update_progress, cancel_download, queued,
  not_started, status_eq, Status,
}
use filetransferdaemon.Platform.{Library, Outcome, returned, thrown, thrown_pointer}

-- An iostream: the file that it writes, if it is one, its state, and what was written to it.
pub record Stream : Type 0 where
  pub file : Option Text
  pub good : Bool
  pub bytes : Text

pub record CurlDownloader : Type 0 where
  pub base : Downloader
  pub open base use *
  pub timeout : ℕ
  pub ctimeout : ℕ
  pub user_agent : Text
  pub my_dest : Bool
  pub headers_only : Bool
  pub headers : Table Text
  pub dest : Option Stream

-- `agent` is the USER_AGENT of the build. The constructor of the base class takes a name third.
unfoldable pub new_curl : Text → Text → Text → Text → CurlDownloader
unfolding new_downloader
new_curl agent url destination uuid = record {
  base = new_downloader url destination uuid [];
  timeout = 0;
  ctimeout = 0;
  user_agent = agent;
  my_dest = true;
  headers_only = false;
  headers = [];
  dest = none;
}

abbrev pub with_base : CurlDownloader → Downloader → CurlDownloader
with_base c d = record c { base = d }

abbrev curl_info : ℕ → Json
curl_info speed =
    object (member (codes "type") (str (codes "curl")) (member (codes "speed") (real speed) end))

set_speed : Option ℕ → Downloader → Downloader
set_speed none d = d
set_speed (some speed) d = set_info (curl_info speed) d

-- CbProgress; `speed` is what curl_easy_getinfo reports, if it succeeds. True aborts the transfer.
unfoldable pub cb_progress : Option ℕ → ℕ → ℕ → CurlDownloader → CurlDownloader × Bool
unfolding set_speed set_info update_progress
cb_progress speed dltotal dlnow c =
    if c.cancel
    then (c, false)
    else (let (d, ret) = update_progress dltotal dlnow (set_speed speed c.base) in
        (with_base c d, ret))

-- One write to a good stream; `fits` is whether the write succeeds.
write_stream : Bool → Text → CurlDownloader → Stream → CurlDownloader × ℕ
write_stream true content c s =
    (record c { dest = some (record s { bytes = s.bytes ++ content }) }, length content)
write_stream false content c s = (record c { dest = some (record s { good = false }) }, 0)

write_dest : Bool → Text → CurlDownloader → Option Stream → CurlDownloader × ℕ
unfolding write_stream
write_dest fits content c none = (c, 0)
write_dest fits content c (some s) = if s.good then write_stream fits content c s else (c, 0)

-- WriteContent; the answer is the number of bytes taken, and libcurl stops at another number than
-- it offered.
unfoldable pub write_content : Bool → Text → CurlDownloader → CurlDownloader × ℕ
unfolding write_dest
write_content fits content c = if c.cancel then (c, 0) else write_dest fits content c c.dest

unfoldable set_stream : Option Stream → CurlDownloader → Outcome CurlDownloader
set_stream none c = returned (record c { my_dest = true; dest = none })
set_stream (some s) c = elim c.dest [
  | none ↦ returned (record c { my_dest = false; dest = some s })
  | some t ↦ thrown (codes "Stream already set")
]

unfoldable set_user_agent : Text → CurlDownloader → CurlDownloader
unfolding status_eq
set_user_agent s c = if status_eq c.status not_started then record c { user_agent = s } else c

-- The file that a transfer writes and removes.
unfoldable pub target : CurlDownloader → Text
target c = c.destination_path ++ b'/' ∷ c.destination_name

default_name : CurlDownloader → CurlDownloader
default_name c =
    if is_empty c.destination_path && is_empty c.destination_name
    then with_base c (record c.base { destination_name = after_last b'/' c.url })
    else c

open_dest : Bool → CurlDownloader → Option Stream → CurlDownloader
unfolding target
open_dest opens c (some s) = c
open_dest opens c none = if c.headers_only then c else record c {
  dest = some (record { file = some (target c); good = opens; bytes = [] });
  my_dest = true;
}

-- StartDownload, up to the start of the thread that executes Run; `opens` is whether the file can
-- be opened.
unfoldable pub start_download : Bool → CurlDownloader → Outcome CurlDownloader
unfolding default_name open_dest
start_download opens c =
    if is_empty c.url
    then thrown (codes "No URL to download")
    else (let named = default_name c in
        let opened = open_dest opens named named.dest in
        returned (with_base opened (record opened.base { status = queued })))
