-- ===== src/Commands.antt =====
-- bubba-ftd/src/Commands.h: the command numbers of the protocol and the download policies.
use filetransferdaemon.Prelude.{ℕ}

pub data CmdType : Type 0 where
  cmd_ok cmd_fail add_download cancel_download list_downloads : CmdType
  get_upload_throttle set_upload_throttle get_download_throttle set_download_throttle : CmdType
  cmd_shutdown : CmdType

-- The enumeration counts from 0.
unfoldable pub cmd_code : CmdType → ℕ
cmd_code cmd_ok = 0
cmd_code cmd_fail = 1
cmd_code add_download = 2
cmd_code cancel_download = 3
cmd_code list_downloads = 4
cmd_code get_upload_throttle = 5
cmd_code set_upload_throttle = 6
cmd_code get_download_throttle = 7
cmd_code set_download_throttle = 8
cmd_code cmd_shutdown = 9

abbrev pub dlp_none : ℕ
dlp_none = 0

abbrev pub dlp_autoremove : ℕ
dlp_autoremove = 1

abbrev pub dlp_hidden : ℕ
dlp_hidden = 2
