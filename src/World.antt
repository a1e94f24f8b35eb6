-- ===== src/World.antt =====
-- The answers that one request of the daemon gets from what it calls: the operating system, the
-- users of the machine, the configuration and the transfers that it starts.
use filetransferdaemon.Prelude.{ℕ, Bool, Option, List, Text}
use filetransferdaemon.Platform.{Library}
use filetransferdaemon.CurlDownloader.Run.{Transfer}
use filetransferdaemon.TorrentDownloader.Info.{TorrentStatus}

pub record World : Type 0 where
  pub lib : Library
  pub agent : Text
  -- Whether a path exists, and what making a directory does.
  pub exists : Text → Bool
  pub can_mkdir : Text → Bool
  -- The users and the group "users"; `download_dir` is general/downloaddir of the configuration.
  pub knows_user : Text → Bool
  pub users_group : Option ℕ
  pub user_to_uid : Text → ℕ
  pub uid_to_user : ℕ → Text
  pub pw_name : ℕ → Option Text
  pub download_dir : Option Text
  -- The transfer of a HEAD request, and whether a file can be opened for writing.
  pub head : Transfer
  pub opens : Bool
  -- The files of a torrent, what is found under their names, and what libtorrent
  -- says of a handle, `none` for one that is not valid.
  pub torrent_names : List Text
  pub found : Text → List Text
  pub torrent_status : ℕ → Option TorrentStatus
