-- ===== src/CurlDownloader/Run/Owner.antt =====
-- CurlDownloader.cpp, Run: the download stays the user's own.
use filetransferdaemon.Prelude.{arith}
use filetransferdaemon.Downloader.{cancel_download, register_completion_callback, register_locked}
use filetransferdaemon.Downloader.Owner.{Keeps}
use filetransferdaemon.Platform.{Library}
use filetransferdaemon.CurlDownloader.{CurlDownloader, cb_progress, write_content}
use filetransferdaemon.CurlDownloader.Headers.{on_header}
use filetransferdaemon.CurlDownloader.Run.{
  Event, progress, content, header, canceled, cancel_from, on_event, CurlCode, settle, curle_ok,
  curle_obsolete, curle_obsolete10, curle_other,
}

pub on_event-Keeps :
    (lib : Library) (e : Event) (c : CurlDownloader) → Keeps c.base (on_event lib e c).base
unfolding on_event cb_progress write_content on_header cancel_from cancel_download
    register_completion_callback register_locked
on_event-Keeps lib (progress speed dltotal dlnow) c = ground arith
on_event-Keeps lib (content fits bytes) c = ground arith
on_event-Keeps lib (header rhs_first line) c = ground arith
on_event-Keeps lib (canceled by) c = ground arith

pub settle-Keeps : (code : CurlCode) (c : CurlDownloader) → Keeps c.base (settle code c).0.base
unfolding settle
settle-Keeps curle_ok c = ground arith
settle-Keeps curle_obsolete c = ground arith
settle-Keeps curle_obsolete10 c = ground arith
settle-Keeps (curle_other n) c = ground arith
