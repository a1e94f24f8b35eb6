-- ===== src/Upload.antt =====
-- bubba-ftd/src/upload.cpp: the CGI program that hands an upload to the daemon. What it reads from the
-- session, the daemon and the downloader's thread is given; the page that it prints is the result.
pub mod Results
pub mod Environ
use filetransferdaemon.Prelude.{
  ℕ, ℤ, ◌+◌, pos, negsuc, Bool, true, false, not, ◌&&◌, Option, none, some, List, [], ◌∷◌, ◌++◌,
  Text, codes, starts_with, is_empty, ◌==◌, if◌then◌else◌,
}
use filetransferdaemon.Json.{Json, int, str, object, end, member}
use filetransferdaemon.Commands.{cmd_code, cmd_ok, dlp_autoremove, dlp_hidden}
use filetransferdaemon.Commands
use filetransferdaemon.FtdClient.{reply_cmd, is_code}

-- One request of the web server. `zero_fd` is whether mkstemp answers descriptor 0, which is all
-- that is tested of it. The answers are the first bytes that each Receive gets.
pub record Visit : Type 0 where
  pub cookie : Text
  pub is_valid : Bool
  pub user : Text
  pub is_multi : Bool
  pub zero_fd : Bool
  pub tmp_name : Text
  pub uuid : Text
  pub connects : Bool
  pub reply : Json
  pub fd_answer : Text
  pub boundary_answer : Text
  pub length_answer : Text
  pub last_answer : Text

-- The page: `result`, and `what` if there is one.
pub record Page : Type 0 where
  pub result : Bool
  pub what : Option Text

good : Page
good = record { result = true; what = none }

failed : Text → Page
failed what = record { result = false; what = some what }

-- throw new runtime_error, caught at the end of the upload.
thrown : Text → Page
unfolding failed
thrown e = failed (codes "Caught runtime exception [" ++ (e ++ codes "]"))

-- DLP_AUTOREMOVE|DLP_HIDDEN, of two flags that have no bit in common.
unfoldable pub message : Visit → Json
unfolding cmd_code
message v = object (
    member (codes "cmd") (int (pos (cmd_code Commands.add_download))) (
      member (codes "uuid") (str v.uuid) (
        member (codes "policy") (int (pos (dlp_autoremove + dlp_hidden))) (
          member (codes "user") (str v.user)
            (member (codes "url") (str (codes "upload:///" ++ v.tmp_name)) end)))))

-- rbuf[0]!='!'
is_ack : Text → Bool
unfolding starts_with
is_ack answer = starts_with (codes "!") answer

-- The answers on the socket of the upload. The last one is taken for a failure if it is not "err":
-- strncmp is 0 for equal texts.
unfoldable pub hand_over : Visit → Page
unfolding thrown good starts_with is_ack
hand_over v =
    if not (is_ack v.fd_answer)
    then thrown (codes "Transfer of fd failed")
    else if not (is_ack v.boundary_answer)
    then thrown (codes "Transfer of boundary failed")
    else if not (is_ack v.length_answer)
    then thrown (codes "Transfer of content length failed")
    else if not (starts_with (codes "err") v.last_answer)
    then thrown (codes "Upload failed")
    else good

-- An answer of the daemon without a command is passed over.
unfoldable pub on_reply : Visit → Page
unfolding hand_over reply_cmd is_code cmd_code good thrown
on_reply v = elim (reply_cmd v.reply) [
  | none ↦ good
  | some n ↦
      if is_code n (cmd_code cmd_ok)
      then hand_over v
      else thrown (codes "Send upload command failed")
]

-- The page of a user who is logged in; `none` is the return of -1 without a page.
unfoldable pub post : Visit → Option Page
unfolding on_reply failed thrown
post v =
    if not v.is_multi
    then some (failed (codes "Missing multipart post (This is no upload)"))
    else if v.zero_fd
    then none
    else if not v.connects
    then some (thrown (codes "Unable to connect to server daemon"))
    else some (on_reply v)

unfoldable pub main : Visit → Option Page
unfolding post failed
main v =
    if is_empty v.cookie
    then some (failed (codes "No session"))
    else if v.is_valid && not (is_empty v.user)
    then post v
    else some (failed (codes "Not logged in"))
