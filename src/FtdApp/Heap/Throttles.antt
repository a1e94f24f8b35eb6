-- ===== src/FtdApp/Heap/Throttles.antt =====
-- FtdApp.cpp: the requests on the throttles leave the downloads alone.
use filetransferdaemon.Prelude.{ℤ, refl, ◌&&◌, codes, Bool-cases, Option-cases, inl, inr}
use filetransferdaemon.Json.{Request}
use filetransferdaemon.Commands.{CmdType}
use filetransferdaemon.FtdApp.{FtdApp, Manager, socket_fd_manager, curl_manager, torrent_manager}
use filetransferdaemon.FtdApp.Adding.{valid_text, valid_number}
use filetransferdaemon.FtdApp.Throttling.{
  answer_throttle, set_throttle, find_manager_by_service, change_download_throttle,
  change_upload_throttle,
}
use filetransferdaemon.FtdApp.Heap.Frames.{Alike, Alike-trans, same-Alike}
use filetransferdaemon.FtdApp.Heap.Requests.{Alike-refl, send_ok-Alike, send_fail-Alike, sent-Alike}

pub change_download-Alike :
    (n : ℤ) (m : Manager) (a : FtdApp) → Alike a (change_download_throttle n m a)
unfolding change_download_throttle
change_download-Alike n socket_fd_manager a = Alike-refl a
change_download-Alike n curl_manager a = Alike-refl a
change_download-Alike n torrent_manager a = same-Alike a _ refl refl (λ u. refl)

pub change_upload-Alike :
    (n : ℤ) (m : Manager) (a : FtdApp) → Alike a (change_upload_throttle n m a)
unfolding change_upload_throttle
change_upload-Alike n socket_fd_manager a = Alike-refl a
change_upload-Alike n curl_manager a = Alike-refl a
change_upload-Alike n torrent_manager a = same-Alike a _ refl refl (λ u. refl)

pub answer_throttle-Alike :
    (cmd : CmdType) (get : FtdApp → Manager → ℤ) (req : Request) (a : FtdApp)
    → Alike a (answer_throttle cmd get req a)
unfolding answer_throttle
answer_throttle-Alike cmd get req a = elim (Bool-cases (valid_text req (codes "name"))) [
  | inr bad ↦ rw (bad, answer_throttle) (send_fail-Alike a)
  | inl good ↦
      elim (Option-cases (find_manager_by_service a.managers (req.as_string (codes "name")))) [
        | inl e ↦ rw (good, e, answer_throttle) (send_fail-Alike a)
        | inr (m, e) ↦ rw (good, e, answer_throttle) (sent-Alike _ a)
      ]
]

pub set_throttle-Alike :
    (change : ℤ → Manager → FtdApp → FtdApp) (req : Request) (a : FtdApp)
    → ((n : ℤ) (m : Manager) → Alike a (change n m a))
    → Alike a (set_throttle change req a)
unfolding set_throttle
set_throttle-Alike change req a h =
    elim (Bool-cases (valid_text req (codes "name") && valid_number req (codes "size"))) [
      | inr bad ↦ rw (bad, set_throttle) (send_fail-Alike a)
      | inl good ↦ elim (Option-cases (req.as_int (codes "size"))) [
        | inl e ↦ rw (good, e, set_throttle) (send_fail-Alike a)
        | inr (n, e) ↦
            elim (Option-cases
              (find_manager_by_service a.managers (req.as_string (codes "name")))) [
                | inl f ↦ rw (good, e, f, set_throttle) (send_fail-Alike a)
                | inr (m, f) ↦ rw (good, e, f, set_throttle) (Alike-trans (h _ m) (send_ok-Alike _))
              ]
      ]
    ]
