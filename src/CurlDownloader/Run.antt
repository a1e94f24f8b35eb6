-- ===== src/CurlDownloader/Run.antt =====
-- CurlDownloader.cpp, Run: the thread of one transfer, from its options to the removal of what it
-- left behind. Complete, which ends Run, is that of the base class.
pub mod Endings
pub mod Traces
pub mod Cleanup
pub mod Content
pub mod Owner
use filetransferdaemon.Prelude.{
  ℕ, Bool, true, false, not, ◌&&◌, ◌||◌, Option, none, some, List, [], ◌∷◌, ◌++◌, map, Text, codes,
  is_empty, text_eq, ◌==◌, ltb, if◌then◌else◌,
}
use filetransferdaemon.Downloader.{
  Downloader, Slot, Status, queued, in_progress, cancel_in_progress, cancel_done, downloaded,
  failed, not_started, status_eq, no_owner, cancel_download, register_completion_callback, complete,
}
use filetransferdaemon.Platform.{Library, Effect, unlink, chown, flush, emit, call}
use filetransferdaemon.CurlDownloader.{
  CurlDownloader, Stream, with_base, cb_progress, write_content, target,
}
use filetransferdaemon.CurlDownloader.Headers.{on_header}

data CurlOption : Type 0 where
  use_url use_agent : Text → CurlOption
  write_function progress_function header_function no_body : CurlOption
  forbid_reuse no_signal follow_location : CurlOption
  connect_timeout total_timeout max_redirs : ℕ → CurlOption

abbrev when : Bool → List CurlOption → List CurlOption
when true os = os
when false os = []

-- The options of the handle, in the order in which they are set.
unfoldable run_options : CurlDownloader → List CurlOption
run_options c =
    use_url c.url ∷ write_function ∷ progress_function ∷ []
    ++ when c.headers_only (header_function ∷ no_body ∷ [])
    ++ when (ltb 0 c.timeout) (
        connect_timeout (if c.ctimeout == 0 then 60 else c.ctimeout) ∷ total_timeout c.timeout ∷ [])
    ++ when (ltb 0 c.ctimeout && c.timeout == 0) (connect_timeout c.ctimeout ∷ [])
    ++ when (not (is_empty c.user_agent)) (use_agent c.user_agent ∷ [])
    ++ forbid_reuse ∷ no_signal ∷ follow_location ∷ max_redirs 5 ∷ []

-- What happens to the object while libcurl performs: its callbacks, and a cancel from elsewhere,
-- with the callback that FtdApp registers before it, if it does.
pub data Event : Type 0 where
  progress : Option ℕ → ℕ → ℕ → Event
  content : Bool → Text → Event
  header : Bool → Text → Event
  canceled : Option (ℕ × ℕ) → Event

-- StopDownload, or CancelDownload after RegisterCompletionCallback.
unfoldable pub cancel_from : Option (ℕ × ℕ) → Downloader → Downloader
cancel_from none d = cancel_download d
cancel_from (some (cb, payload)) d =
    cancel_download (register_completion_callback (some cb) payload d).0

unfoldable pub on_event : Library → Event → CurlDownloader → CurlDownloader
unfolding cancel_from
on_event lib (progress speed dltotal dlnow) c = (cb_progress speed dltotal dlnow c).0
on_event lib (content fits bytes) c = (write_content fits bytes c).0
on_event lib (header rhs_first line) c = (on_header lib rhs_first line c).0
on_event lib (canceled by) c = with_base c (cancel_from by c.base)

unfoldable pub on_events : Library → List Event → CurlDownloader → CurlDownloader
on_events lib [] c = c
on_events lib (e ∷ es) c = on_events lib es (on_event lib e c)

-- CURLcode, as far as Run tells its values apart.
pub data CurlCode : Type 0 where
  curle_ok curle_obsolete curle_obsolete10 : CurlCode
  curle_other : ℕ → CurlCode

-- What the environment does in one Run: the events of the transfer, its result, the response code
-- if curl_easy_getinfo has one, and whether another thread cancels once the transfer is over, with
-- the callback that it registers before.
pub record Transfer : Type 0 where
  pub events : List Event
  pub result : CurlCode
  pub response : Option ℕ
  pub late_cancel : Bool
  pub late_callback : Option (ℕ × ℕ)

is_http : Library → Text → Bool
is_http lib url =
    text_eq (lib.scheme url) (codes "http") || text_eq (lib.scheme url) (codes "https")

unfoldable pub check_response : Library → Text → Option ℕ → CurlCode → CurlCode
unfolding is_http
check_response lib url none code = code
check_response lib url (some rescode) code =
    if is_http lib url && ltb 299 rescode then curle_obsolete10 else code

abbrev pub set_status : Status → Bool → CurlDownloader → CurlDownloader
set_status s tip c = with_base c (record c.base { status = s; tip = tip })

-- A download may have been cancelled before its thread runs.
may_start : CurlDownloader → Bool
unfolding status_eq
may_start c = status_eq c.status queued && not c.cancel

unfoldable pub perform : Library → Transfer → CurlDownloader → CurlDownloader × CurlCode
unfolding may_start check_response
perform lib t c =
    if may_start c
    then (let c' = on_events lib t.events (set_status in_progress true c) in
        (set_status c'.status false c', check_response lib c'.url t.response t.result))
    else (c, curle_obsolete)

unfoldable pub late : Transfer → CurlDownloader → CurlDownloader
unfolding cancel_from
late t c = if t.late_cancel then with_base c (cancel_from t.late_callback c.base) else c

or_root : ℕ → ℕ
or_root n = if n == no_owner then 0 else n

flush_dest : Option Stream → List Effect
flush_dest none = []
flush_dest (some s) = flush ∷ []

-- A transfer that went fine and was not cancelled.
settle_ok : CurlDownloader → CurlDownloader × List Effect
unfolding or_root flush_dest target
settle_ok c = (
  set_status downloaded c.tip c,
  flush_dest c.dest
      ++ (if not (c.user == no_owner && c.group == no_owner) && not c.headers_only
          then chown (target c) (or_root c.user) (or_root c.group) ∷ []
          else []),
)

settle_code : CurlCode → CurlDownloader → CurlDownloader × List Effect
unfolding settle_ok
settle_code curle_ok c = settle_ok c
settle_code curle_obsolete c = (set_status cancel_done c.tip c, [])
settle_code curle_obsolete10 c = (set_status failed c.tip c, [])
settle_code (curle_other n) c = (set_status failed c.tip c, [])

unfoldable pub settle : CurlCode → CurlDownloader → CurlDownloader × List Effect
unfolding settle_code status_eq
settle code c =
    if c.cancel || status_eq c.status cancel_in_progress
    then (set_status cancel_done c.tip c, [])
    else settle_code code c

unlink_own : CurlDownloader → List Effect
unfolding target
unlink_own c = if c.my_dest then unlink (target c) ∷ [] else []

unfoldable pub notify : CurlDownloader → List Effect
unfolding unlink_own status_eq
notify c =
    if status_eq c.status downloaded
    then map emit c.signal_done
    else if status_eq c.status cancel_done
    then map emit c.signal_done ++ unlink_own c
    else unlink_own c ++ map emit c.signal_failed

-- Run up to the call of Complete: the object, and what was done to the rest of the system.
unfoldable pub run : Library → Transfer → CurlDownloader → CurlDownloader × List Effect
unfolding perform late settle notify
run lib t c =
    let (performed, code) = perform lib t c in
    let (settled, effects) = settle code (late t performed) in (settled, effects ++ notify settled)

unfoldable pub calls_of : List (ℕ × ℕ) → List Effect
calls_of [] = []
calls_of ((cb, payload) ∷ cs) = call cb payload ∷ calls_of cs

-- Complete, on the object as the slots that Run emitted to have left it.
unfoldable pub end_run : CurlDownloader → CurlDownloader × List Effect
unfolding complete calls_of
end_run c = let (d, calls) = complete c.base in (with_base c d, calls_of calls)
