-- ===== src/FtdApp/Listing.antt =====
-- FtdApp.cpp, ListDownloads, ListUserDownloads, GetDownloadByUUID and SendDownload.
pub mod Answers
pub mod Records
use filetransferdaemon.Prelude.{
  ℕ, pos, Bool, true, false, not, ◌&&◌, Option, none, some, List, [], ◌∷◌, ◌++◌, Text, Table, codes,
  text_eq, lookup, is_empty, if◌then◌else◌,
}
use filetransferdaemon.Json.{Json, Request, int, ulong, str, object, end, member}
use filetransferdaemon.Commands.{list_downloads, cmd_code}
use filetransferdaemon.Downloader.{status_code}
use filetransferdaemon.World.{World}
use filetransferdaemon.Object.{Object, base, sizes, get_info}
use filetransferdaemon.FtdApp.{
  FtdApp, store, downloads, touch, find_first, has_uuid, send_json_value, send_ok, send_fail,
}
use filetransferdaemon.FtdApp.Adding.{valid_text}
use filetransferdaemon.FtdApp.Throttling.{to_signed}

-- The record of one download. The status is read before GetInfo, which may change it.
unfoldable pub describe : Text → Object → Json → Json
unfolding cmd_code status_code sizes to_signed
describe user o info =
    let d = base o in
    let (size, downloaded) = sizes o in
    object (
      member (codes "cmd") (int (pos (cmd_code list_downloads))) (
        member (codes "url") (str d.url) (
          member (codes "user") (str user) (
            member (codes "size") (ulong size) (
              member (codes "downloaded") (ulong downloaded) (
                member (codes "uuid") (str d.uuid) (
                  member (codes "status") (int (pos (status_code d.status))) (
                    member (codes "name") (str d.destination_name) (
                      member (codes "info") info
                        (member (codes "policy") (int (to_signed d.policy)) end))))))))))

-- SendDownload.
unfoldable pub send_download : World → Text → ℕ → Object → FtdApp → FtdApp
unfolding describe send_json_value
send_download w user p o a =
    let (o', info) = get_info w o in send_json_value (describe user o info) (store a p o')

unfoldable pub send_at : World → Text → ℕ → Option Object → FtdApp → FtdApp
unfolding send_download
send_at w user p none a = a
send_at w user p (some o) a = send_download w user p o a

unfoldable pub send_list : World → Text → List ℕ → FtdApp → FtdApp
unfolding send_at
send_list w user [] a = a
send_list w user (p ∷ ps) a = send_list w user ps (send_at w user p (a.heap p) a)

unfoldable pub list_user_downloads : World → Text → FtdApp → FtdApp
unfolding send_list
list_user_downloads w user a = elim (lookup user a.transfers) [
  | none ↦ a
  | some ps ↦ send_list w user ps a
]

unfoldable pub list_all : World → Table (List ℕ) → FtdApp → FtdApp
unfolding list_user_downloads
list_all w [] a = a
list_all w ((user, ps) ∷ m) a = list_all w m (list_user_downloads w user a)

unfoldable pub get_download_by_uuid : World → Text → Text → FtdApp → FtdApp
unfolding send_at
get_download_by_uuid w user uuid a =
    let a' = touch user a in
    elim (find_first a.heap (has_uuid uuid) (downloads user a'.transfers)) [
      | none ↦ send_fail a'
      | some p ↦ send_ok (send_at w user p (a.heap p) a')
    ]

unfoldable pub list_request : World → Request → FtdApp → FtdApp
unfolding get_download_by_uuid list_all list_user_downloads
list_request w req a =
    if valid_text req (codes "user") && valid_text req (codes "uuid")
    then (let user = req.as_string (codes "user") in
        let uuid = req.as_string (codes "uuid") in
        if not (is_empty uuid)
        then get_download_by_uuid w user uuid a
        else if text_eq user (codes "*")
        then send_ok (list_all w a.transfers a)
        else send_ok (list_user_downloads w user a))
    else send_fail a
