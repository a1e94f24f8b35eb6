-- ===== src/SocketFdDownloader/Run/Owner.antt =====
-- SocketFdDownloader.cpp, Run: the upload stays the user's own.
use filetransferdaemon.Prelude.{arith, Bool, List, [], ◌∷◌, Text}
use filetransferdaemon.Downloader.Owner.{Keeps, Keeps-refl, Keeps-trans}
use filetransferdaemon.Platform.{Library}
use filetransferdaemon.SocketFdDownloader.{SocketFdDownloader, filter_fields, cancel_download}
use filetransferdaemon.SocketFdDownloader.Files.{FileSystem}
use filetransferdaemon.SocketFdDownloader.Run.{
  Part, field_added, file_added, canceled, on_part, on_parts, Post, receive, settle,
}

cancel_download-Keeps : (c : SocketFdDownloader) → Keeps c.base (cancel_download c).base
unfolding cancel_download
cancel_download-Keeps c = ground arith

pub on_part-Keeps :
    (lib : Library) (fs : FileSystem) (p : Part) (c : SocketFdDownloader)
    → Keeps c.base (on_part lib fs p c).base
unfolding on_part filter_fields cancel_download
on_part-Keeps lib fs (field_added name value) c = ground arith
on_part-Keeps lib fs (file_added file name) c = Keeps-refl c.base
on_part-Keeps lib fs canceled c = cancel_download-Keeps c

on_parts-Keeps :
    (lib : Library) (fs : FileSystem) (ps : List Part) (c : SocketFdDownloader)
    → Keeps c.base (on_parts lib fs ps c).base
unfolding on_parts
on_parts-Keeps lib fs [] c = Keeps-refl c.base
on_parts-Keeps lib fs (p ∷ ps) c =
    Keeps-trans (on_part-Keeps lib fs p c) (on_parts-Keeps lib fs ps (on_part lib fs p c))

pub receive-Keeps :
    (lib : Library) (fs : FileSystem) (uldir : Text) (post : Post) (c : SocketFdDownloader)
    → Keeps c.base (receive lib fs uldir post c).0.base
unfolding receive
receive-Keeps lib fs uldir post c = ground (
  arith,
  on_parts-Keeps lib fs post.parts
      (record c { fd = post.handed; cgi = record c.cgi { upload_directory = uldir } }),
)

pub settle-Keeps :
    (lib : Library) (fs : FileSystem) (c : SocketFdDownloader) (err : Bool)
    → Keeps c.base (settle lib fs c err).0.base
unfolding settle
settle-Keeps lib fs c err = ground arith
