-- ===== src/CurlDownloader/Run/Content.antt =====
-- CurlDownloader.cpp, WriteContent: what a transfer leaves in its stream.
use mathlib.Core.List.{append-nil, append_assoc}
use filetransferdaemon.Prelude.{
  ◌≡◌, true, false, not, ◌||◌, Option, none, some, List, [], ◌∷◌, ◌++◌, Text, arith, if◌then◌else◌,
}
use filetransferdaemon.Platform.{Library}
use filetransferdaemon.Downloader.{cancel_download, register_completion_callback, register_locked}
use filetransferdaemon.CurlDownloader.{CurlDownloader, Stream, cb_progress, write_content}
use filetransferdaemon.CurlDownloader.Headers.{on_header}
use filetransferdaemon.CurlDownloader.Run.{
  Event, progress, content, header, canceled, cancel_from, on_event, on_events,
}

-- The content that arrives before the first cancel and before the first write that fails.
abbrev pub delivered : List Event → Text
delivered [] = []
delivered (progress speed dltotal dlnow ∷ es) = delivered es
delivered (content true bytes ∷ es) = bytes ++ delivered es
delivered (content false bytes ∷ es) = []
delivered (header rhs_first line ∷ es) = delivered es
delivered (canceled by ∷ es) = []

abbrev pub bytes_of : Option Stream → Text
bytes_of none = []
bytes_of (some s) = s.bytes

-- The stream holds what it held, followed by exactly what was delivered; on a stream that is not
-- good, and for a download that is cancelled, nothing is added.
pub bytes-on_events :
    (lib : Library) (es : List Event) (c : CurlDownloader) (s : Stream)
    → c.dest ≡ some s
    → bytes_of (on_events lib es c).dest
      ≡ s.bytes ++ (if c.cancel || not s.good then [] else delivered es)
unfolding on_events on_event cb_progress write_content on_header cancel_from cancel_download
    register_completion_callback register_locked
bytes-on_events lib [] c s h = ground (arith, append-nil s.bytes)
bytes-on_events lib (progress speed dltotal dlnow ∷ es) c s h =
    ground (arith, bytes-on_events lib es (cb_progress speed dltotal dlnow c).0 s)
bytes-on_events lib (content true bytes ∷ es) c s h = ground (
  arith,
  append_assoc s.bytes bytes (delivered es),
  bytes-on_events lib es (write_content true bytes c).0 s,
  bytes-on_events lib es (write_content true bytes c).0 (record s { bytes = s.bytes ++ bytes }),
)
bytes-on_events lib (content false bytes ∷ es) c s h = ground (
  arith,
  bytes-on_events lib es (write_content false bytes c).0 s,
  bytes-on_events lib es (write_content false bytes c).0 (record s { good = false }),
)
bytes-on_events lib (header rhs_first line ∷ es) c s h =
    ground (arith, bytes-on_events lib es (on_header lib rhs_first line c).0 s)
bytes-on_events lib (canceled by ∷ es) c s h =
    ground (arith, bytes-on_events lib es (on_event lib (canceled by) c) s)
