-- ===== src/FtdClient.antt =====
-- bubba-ftd/src/ftdclient.cpp: the command line client, from the request that it builds to its exit
-- code. What the daemon answers is given, line by line, as what the Json reader makes of it; the
-- options of popt are a record.
pub mod Exits
use filetransferdaemon.Prelude.{
  ℕ, ℤ, pos, negsuc, ◌≡◌, refl, Bool, true, false, not, ◌&&◌, ◌||◌, Option, none, some, List, [],
  ◌∷◌, ◌++◌, Text, codes, text_eq, ◌==◌, if◌then◌else◌,
}
use filetransferdaemon.Json.{Json, int, ulong, boolean, str, object, end, member, Members}
use filetransferdaemon.Commands.{cmd_code, cmd_ok, cmd_fail, dlp_none}
use filetransferdaemon.Commands

-- The options of the command line.
pub record Options : Type 0 where
  pub uuid : Option Text
  pub user : Option Text
  pub url : Option Text
  pub cancel : Bool
  pub list : Bool
  pub add : Bool

or_empty : Option Text → Text
or_empty none = []
or_empty (some t) = t

command : ℕ → Members → Json
command n rest = object (member (codes "cmd") (int (pos n)) rest)

unfoldable cancel_message : Text → Option Text → Option Text → Json
unfolding or_empty command cmd_code
cancel_message user uuid url = command (cmd_code Commands.cancel_download) (
    member (codes "user") (str user)
      (member (codes "uuid") (str (or_empty uuid)) (member (codes "url") (str (or_empty url)) end)))

unfoldable list_message : Text → Json
unfolding command cmd_code
list_message user =
    command (cmd_code Commands.list_downloads)
      (member (codes "user") (str user) (member (codes "uuid") (str []) end))

unfoldable add_message : Text → Text → Text → Json
unfolding command cmd_code
add_message user uuid url = command (cmd_code Commands.add_download) (
    member (codes "user") (str user) (
      member (codes "uuid") (str uuid)
        (member (codes "url") (str url) (member (codes "policy") (int (pos dlp_none)) end))))

-- asInt() of a value for which isIntegral() holds, and `none` of another. A number that is not an int,
-- for which asInt throws, stays what it is: an unknown reply.
as_int : Json → Option ℤ
as_int (int n) = some n
as_int (ulong n) = some (pos n)
as_int (boolean true) = some (pos 1)
as_int (boolean false) = some (pos 0)
as_int _ = none

find_cmd : Members → Option ℤ
unfolding as_int
find_cmd end = none
find_cmd (member k v rest) =
    let later = find_cmd rest in if text_eq k (codes "cmd") then as_int v else later

-- rep["cmd"].asInt(), of a reply that is an object with a whole number there. A reply is null when
-- the daemon closes the connection.
unfoldable pub reply_cmd : Json → Option ℤ
unfolding find_cmd
reply_cmd (object ms) = find_cmd ms
reply_cmd _ = none

unfoldable pub is_code : ℤ → ℕ → Bool
is_code (pos m) n = m == n
is_code (negsuc m) n = false

-- The end of add_download and of cancel_download: any answer but OK is 1.
unfoldable pub judge : Option ℤ → ℕ
unfolding is_code cmd_code
judge none = 1
judge (some n) = if is_code n (cmd_code cmd_ok) then 0 else 1

unfoldable pub judge_reply : Json → ℕ
unfolding judge reply_cmd
judge_reply rep = judge (reply_cmd rep)

-- What was sent, and the number that the function returns.
unfoldable pub add_download : Text → Text → Text → Json → List Json × ℕ
unfolding add_message judge_reply
add_download user uuid url rep = (add_message user uuid url ∷ [], judge_reply rep)

unfoldable pub cancel_download : Text → Option Text → Option Text → Json → List Json × ℕ
unfolding cancel_message judge_reply
cancel_download user none none rep = ([], 1)
cancel_download user uuid url rep = (cancel_message user uuid url ∷ [], judge_reply rep)

-- Whether the loop of list_downloads reads on after a reply.
unfoldable pub reads_on : Json → Bool
unfolding reply_cmd is_code cmd_code
reads_on rep = elim (reply_cmd rep) [
  | none ↦ false
  | some n ↦ is_code n (cmd_code Commands.list_downloads)
]

-- The loop: the downloads that are printed, and whether it still waits when the replies end.
unfoldable pub read_list : List Json → List Json × Bool
unfolding reads_on
read_list [] = ([], true)
read_list (rep ∷ reps) =
    let (shown, waits) = read_list reps in
    if reads_on rep then (rep ∷ shown, waits) else ([], false)

or_tor : Option Text → Text
or_tor none = codes "tor"
or_tor (some user) = user

-- How main ends: its exit code and what it sent; an option without its value sends nothing. The
-- results of add_download and cancel_download are not looked at.
unfoldable run_add : Options → Text → Json → List Json
unfolding add_download or_tor
run_add o uuid rep = elim o.url [
  | none ↦ []
  | some url ↦ (add_download (or_tor o.user) uuid url rep).0
]

unfoldable run_cancel : Options → Json → List Json
unfolding cancel_download or_tor
run_cancel o rep = (cancel_download (or_tor o.user) o.uuid o.url rep).0

unfoldable pub main : Options → Bool → Text → (add_reply cancel_reply : Json) → List Json × ℕ
unfolding run_add run_cancel list_message or_tor
main o connects uuid add_reply cancel_reply =
    if not o.list && (not o.add && not o.cancel)
    then ([], 1)
    else if not connects
    then ([], 1)
    else if o.list
    then (list_message (or_tor o.user) ∷ [], 0)
    else (
      (if o.add then run_add o uuid add_reply else [])
          ++ (if o.cancel then run_cancel o cancel_reply else []),
      0,
    )
