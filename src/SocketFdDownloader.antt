-- ===== src/SocketFdDownloader.antt =====
-- bubba-ftd/src/SocketFdDownloader.h and SocketFdDownloader.cpp: uploads. The CGI program hands
-- the daemon its connection, and ECGI of libeutils parses the post into temporary files. `Cgi` is
-- what the daemon asks of that object; the fields that it reports come from the environment.
pub mod Files
pub mod Run
pub mod Laws
use filetransferdaemon.Prelude.{
  ℕ, ◌-◌, Bool, true, false, not, ◌&&◌, ◌||◌, Option, none, some, List, [], ◌∷◌, ◌++◌, Text, Table,
  codes, text_eq, lookup, insert, is_empty, if◌then◌else◌,
}
use filetransferdaemon.Downloader.{
  Downloader, new_downloader, Status, queued, cancel_in_progress, cancel_done, downloaded, failed,
  status_eq,
}
use filetransferdaemon.Json.{Json, str, object, end, member}
use filetransferdaemon.Platform.{Library}

pub record Cgi : Type 0 where
  pub file_names : List (Text × Text)
  pub fields : Table Text
  pub upload_directory : Text
  pub download_size : ℕ
  pub received_size : ℕ
  pub current_filename : Text
  pub upload_canceled : Bool

pub record SocketFdDownloader : Type 0 where
  pub base : Downloader
  pub open base use *
  pub fd : ℕ
  pub cgi : Cgi

abbrev no_cgi : Cgi
no_cgi = record {
  file_names = [];
  fields = [];
  upload_directory = [];
  download_size = 0;
  received_size = 0;
  current_filename = [];
  upload_canceled = false;
}

unfoldable new_socket_fd : SocketFdDownloader
unfolding new_downloader
new_socket_fd = record { base = new_downloader [] [] [] []; fd = 0; cgi = no_cgi }

abbrev pub with_base : SocketFdDownloader → Downloader → SocketFdDownloader
with_base c d = record c { base = d }

abbrev pub set_status : Status → SocketFdDownloader → SocketFdDownloader
set_status s c = with_base c (record c.base { status = s })

unfoldable pub start_download : SocketFdDownloader → SocketFdDownloader
start_download c = set_status queued c

has_ended : Status → Bool
unfolding status_eq
has_ended s = status_eq s cancel_done || (status_eq s downloaded || status_eq s failed)

unfoldable pub cancel_download : SocketFdDownloader → SocketFdDownloader
unfolding has_ended
cancel_download c =
    if not (has_ended c.status)
    then (let c' = set_status cancel_in_progress c in
        record c' { cgi = record c.cgi { upload_canceled = true } })
    else c

unfoldable pub stop_download : SocketFdDownloader → SocketFdDownloader
unfolding cancel_download
stop_download c = cancel_download c

unfoldable pub get_info : SocketFdDownloader → Json
get_info c = object (
    member (codes "type") (str (codes "upload"))
      (member (codes "name") (str c.cgi.current_filename) end))

-- cgi.field(k)
unfoldable pub field : Text → Cgi → Text
field k cgi = elim (lookup k cgi.fields) [ none ↦ [] | some v ↦ v ]

set_path : Library → Text → SocketFdDownloader → SocketFdDownloader
set_path lib value c =
    if is_empty value
    then c
    else with_base c (record c.base { destination_path = lib.url_decode value })

-- FilterFields; `writable path uid` is FileUtils::IsWritable for that user's name.
unfoldable pub filter_fields :
    Library → (Text → ℕ → Bool) → Text → SocketFdDownloader → SocketFdDownloader
unfolding set_path field cancel_download
filter_fields lib writable name c =
    if text_eq name (codes "UUID")
    then with_base c (record c.base { uuid = field name c.cgi })
    else if text_eq name (codes "UPLOADPATH")
    then (let c' = set_path lib (field name c.cgi) c in
        if writable c'.destination_path c'.user then c' else cancel_download c')
    else c

-- SocketFdDownloadManager::Filter.
unfoldable pub filter : Library → Text → Option SocketFdDownloader
unfolding new_socket_fd
filter lib url = if text_eq (lib.scheme url) (codes "upload") then some new_socket_fd else none
