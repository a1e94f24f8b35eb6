-- ===== src/Tests.antt =====
-- Concrete libraries, worlds, downloads and requests, on which the children evaluate the program.
mod Downloads
mod Transfers
mod Requests
mod Torrents
mod Heap
mod Locks
mod Lost
mod Rounds
mod Sessions
mod Clients
use filetransferdaemon.Prelude.{
  ℕ, pos, Bool, true, false, Option, none, some, List, [], ◌∷◌, ◌++◌, Text, Table, codes, text_eq,
  split_first, lookup, if◌then◌else◌,
}
use filetransferdaemon.Json.{Json, null, Request}
use filetransferdaemon.Downloader.{
  Downloader, queued, cancel_in_progress, not_started, ok, call_done, call_in_progress,
  CallbackState, Status, watcher_failed, http_done,
}
use filetransferdaemon.Platform.{Library, Effect}
use filetransferdaemon.World.{World}
use filetransferdaemon.CurlDownloader.{CurlDownloader, Stream}
use filetransferdaemon.CurlDownloader.Run.{
  Transfer, progress, content, header, canceled, curle_ok, curle_other,
}
use filetransferdaemon.SocketFdDownloader.{SocketFdDownloader, Cgi}
use filetransferdaemon.SocketFdDownloader.Files.{FileSystem}
use filetransferdaemon.TorrentDownloader.{TorrentDownloader}
use filetransferdaemon.TorrentDownloadManager.{TorrentDownloadManager}
use filetransferdaemon.Object.{Object, curl}
use filetransferdaemon.FtdApp.{FtdApp, socket_fd_manager, curl_manager, torrent_manager}

abbrev scheme_of : Option (Text × Text) → Text
scheme_of none = []
scheme_of (some (s, rest)) = s

abbrev split_at_sign : Option (Text × Text) → Text → List Text
split_at_sign none t = t ∷ []
split_at_sign (some (a, b)) t = a ∷ b ∷ []

abbrev pub lib : Library
unfolding split_first
lib = record {
  url_text = λ u. u;
  scheme = λ u. scheme_of (split_first b':' u);
  extension = λ u. codes "bin";
  url_path = λ u. u;
  to_lower = λ t. t;
  trimmed = λ t cs. t;
  split = λ t c. split_at_sign (split_first c t) t;
  url_decode = λ t. t;
}

-- A transfer of five bytes that is cancelled in between, one that succeeds, and one that fails.
abbrev pub canceled_transfer : Transfer
canceled_transfer = record {
  events = content true (codes "ab") ∷ canceled none ∷ content true (codes "cde") ∷ [];
  result = curle_ok;
  response = some 200;
  late_cancel = false;
  late_callback = none;
}

abbrev pub good_transfer : Transfer
good_transfer = record {
  events = progress none 5 2 ∷ content true (codes "abcde") ∷ [];
  result = curle_ok;
  response = some 200;
  late_cancel = false;
  late_callback = none;
}

abbrev pub failed_transfer : Transfer
failed_transfer = record {
  events = [];
  result = curle_other 7;
  response = none;
  late_cancel = false;
  late_callback = none;
}

abbrev pub download : Status → CallbackState → Downloader
download s r = record {
  url = codes "ftp://h/a.bin";
  destination_path = codes "/home/tor/downloads";
  destination_name = codes "a.bin";
  info = null;
  user = 1000;
  group = 100;
  uuid = codes "u-1";
  size = 0;
  received = 0;
  status = s;
  tip = false;
  cancel = false;
  reap_status = r;
  policy = 0;
  hints = [];
  callbacks = (5, 7 ∷ []) ∷ [];
  signal_done = http_done 1 ∷ [];
  signal_failed = watcher_failed 2 ∷ [];
}

abbrev pub stream : Stream
stream = record { file = some (codes "/home/tor/downloads/a.bin"); good = true; bytes = [] }

abbrev pub curl_download : Downloader → Option Stream → CurlDownloader
curl_download d s = record {
  base = d;
  timeout = 0;
  ctimeout = 0;
  user_agent = codes "ftd";
  my_dest = true;
  headers_only = false;
  headers = [];
  dest = s;
}

abbrev pub file_system : FileSystem
file_system = record {
  writable = λ path uid. true;
  same_device = λ a b. true;
  can_rename = λ a b. true;
  can_copy = λ a b. true;
  can_unlink = λ a. true;
}

abbrev pub upload_download : Downloader → SocketFdDownloader
upload_download d = record {
  base = d;
  fd = 4;
  cgi = record {
    file_names = (codes "/tmp/x1", codes "photo") ∷ (codes "/tmp/x2", codes "film") ∷ [];
    fields = [];
    upload_directory = codes "/tmp";
    download_size = 10;
    received_size = 3;
    current_filename = codes "film";
    upload_canceled = false;
  };
}

abbrev pub torrent_download : Downloader → TorrentDownloader
torrent_download d = record {
  base = d;
  handle = 3;
  is_valid = true;
  fetching = false;
  torrent_filename = codes "/home/tor/torrents/.ftd1";
  resume_filename = codes "/home/tor/torrents/.ftdr1";
  errmsg = [];
  delete_torrent = true;
  perm_changed = false;
}

abbrev pub world : World
world = record {
  lib = lib;
  agent = codes "ftd";
  exists = λ p. text_eq p (codes "/home/tor/");
  can_mkdir = λ p. true;
  knows_user = λ u. true;
  users_group = some 100;
  user_to_uid = λ u. 1000;
  uid_to_user = λ n. codes "tor";
  pw_name = λ n. some (codes "tor");
  download_dir = none;
  head = good_transfer;
  opens = true;
  torrent_names = codes "film/a" ∷ [];
  found = λ p. p ∷ [];
  torrent_status = λ h. none;
}

abbrev pub torrents : TorrentDownloadManager
torrents = record {
  is_running = true;
  reported = λ n. n;
  is_version_0_12 = true;
  download_limit = pos 0;
  upload_limit = pos 0;
  config_download = none;
  config_upload = none;
  can_write = true;
  handle_map = (3, 30) ∷ [];
  downloaders = 30 ∷ [];
}

-- The daemon with one download of the user "tor", at the address 0.
abbrev pub app : Object → FtdApp
app o = record {
  transfers = (codes "tor", 0 ∷ []) ∷ [];
  managers = socket_fd_manager ∷ curl_manager ∷ torrent_manager ∷ [];
  torrents = torrents;
  heap = λ p. if text_eq (p ∷ []) (0 ∷ []) then some o else none;
  fresh = 1;
  work = [];
  sent = [];
  effects = [];
}

abbrev is_there : Option Text → Bool
is_there none = false
is_there (some v) = true

abbrev or_none : Option Text → Text
or_none none = []
or_none (some v) = v

-- A request with string members, and one number under every other key.
abbrev pub request : ℕ → Table Text → Request
unfolding lookup
request n m = record {
  is_member = λ k. true;
  is_string = λ k. is_there (lookup k m);
  is_integral = λ k. true;
  is_int = λ k. true;
  as_string = λ k. or_none (lookup k m);
  as_uint = λ k. some n;
  as_int = λ k. some (pos n);
}
