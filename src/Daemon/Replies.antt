-- ===== src/Daemon/Replies.antt =====
-- filetransferdaemon.cpp: which requests are answered, and how the loop ends.
use filetransferdaemon.Prelude.{
  ℕ, ℤ, ◌≡◌, refl, sym, ap, ◌∙◌, inl, inr, Bool, true, false, Bool-cases, Option-cases, Option,
  none, some, [], ◌∷◌, ◌++◌, codes, arith, ◌&&◌,
}
use filetransferdaemon.Json.{Json, Request}
use filetransferdaemon.Commands.{
  CmdType, cmd_code, list_downloads, get_upload_throttle, set_upload_throttle, cmd_ok, cmd_fail,
  get_download_throttle, set_download_throttle, cmd_shutdown,
}
use filetransferdaemon.Commands
use filetransferdaemon.World.{World}
use filetransferdaemon.FtdApp.{
  FtdApp, Ending, returns, throws, throws_pointer, waits, send_ok, send_fail, send_json_value,
  reply, Manager, socket_fd_manager, curl_manager, torrent_manager,
}
use filetransferdaemon.FtdApp.Adding.{add_download, valid_text, valid_number}
use filetransferdaemon.FtdApp.Adding.Pointers.{add_download-throws_pointer}
use filetransferdaemon.FtdApp.Adding.Answers.{add_download_answers}
use filetransferdaemon.FtdApp.Throttling.{
  download_throttle, upload_throttle, find_manager_by_service, throttle_reply, get_download_request,
  get_upload_request, set_download_request, set_upload_request, answer_throttle, set_throttle,
  change_download_throttle, change_upload_throttle,
}
use filetransferdaemon.Daemon.{
  Daemon, Round, done, dispatch, handle, after_search, after_call, after,
}

-- One reply was sent.
abbrev pub AnsweredOnce : FtdApp → FtdApp → Type 0
AnsweredOnce a a' = (j : Json) × (a'.sent ≡ a.sent ++ j ∷ [])

answer_throttle-Once :
    (cmd : CmdType) (get : FtdApp → Manager → ℤ) (req : Request) (a : FtdApp)
    → AnsweredOnce a (answer_throttle cmd get req a)
unfolding answer_throttle send_fail send_json_value
answer_throttle-Once cmd get req a = elim (Bool-cases (valid_text req (codes "name"))) [
  | inl valid ↦
      elim (Option-cases (find_manager_by_service a.managers (req.as_string (codes "name")))) [
        | inl e ↦ (reply cmd_fail, rw (valid, e) refl)
        | inr (m, e) ↦
            (throttle_reply cmd (req.as_string (codes "name")) (get a m), rw (valid, e) refl)
      ]
  | inr invalid ↦ (reply cmd_fail, rw invalid refl)
]

set_throttle-Once :
    (change : ℤ → Manager → FtdApp → FtdApp) (req : Request) (a : FtdApp)
    → ((n : ℤ) (m : Manager) → (change n m a).sent ≡ a.sent)
    → AnsweredOnce a (set_throttle change req a)
unfolding set_throttle send_fail send_ok send_json_value
set_throttle-Once change req a h =
    elim (Bool-cases (valid_text req (codes "name") && valid_number req (codes "size"))) [
      | inl valid ↦ elim (Option-cases (req.as_int (codes "size"))) [
        | inl e ↦ (reply cmd_fail, rw (valid, e) refl)
        | inr (n, e) ↦
            elim (Option-cases
              (find_manager_by_service a.managers (req.as_string (codes "name")))) [
                | inl f ↦ (reply cmd_fail, rw (valid, e, f) refl)
                | inr (m, f) ↦
                    (reply cmd_ok, rw (valid, e, f) (ap (λ s. s ++ reply cmd_ok ∷ []) (h _ m)))
              ]
      ]
      | inr invalid ↦ (reply cmd_fail, rw invalid refl)
    ]

change_download-sent :
    (n : ℤ) (m : Manager) (a : FtdApp) → (change_download_throttle n m a).sent ≡ a.sent
unfolding change_download_throttle
change_download-sent n socket_fd_manager a = refl
change_download-sent n curl_manager a = refl
change_download-sent n torrent_manager a = refl

change_upload-sent :
    (n : ℤ) (m : Manager) (a : FtdApp) → (change_upload_throttle n m a).sent ≡ a.sent
unfolding change_upload_throttle
change_upload-sent n socket_fd_manager a = refl
change_upload-sent n curl_manager a = refl
change_upload-sent n torrent_manager a = refl

send_fail-Once : (a : FtdApp) → AnsweredOnce a (send_fail a)
unfolding send_fail send_json_value
send_fail-Once a = (reply cmd_fail, refl)

send_ok-Once : (a : FtdApp) → AnsweredOnce a (send_ok a)
unfolding send_ok send_json_value
send_ok-Once a = (reply cmd_ok, refl)

moved :
    (a b : FtdApp) (stopping : Bool) (d' : Daemon)
    → ◌≡◌ {A = Daemon × Round} (record { app = b; do_shutdown = stopping }, done) (d', done)
    → AnsweredOnce a b
    → AnsweredOnce a d'.app
moved a b stopping d' h (j, e) = (j, ap (λ x. x.0.app.sent) (sym h) ∙ e)

-- The commands whose requests are answered by one reply.
abbrev is_answered : Option CmdType → Bool
is_answered (some Commands.cancel_download) = false
is_answered (some list_downloads) = false
is_answered _ = true

add_download-Once :
    (w : World) (fuel : ℕ) (req : Request) (d d' : Daemon) (result : Option (FtdApp × Ending))
    → add_download w fuel req d.app ≡ result
    → after_search d result ≡ (d', done)
    → AnsweredOnce d.app d'.app
unfolding after_search after_call after
add_download-Once w fuel req d d' none e h = cc
add_download-Once w fuel req d d' (some (a, returns)) e h =
    elim (add_download_answers w fuel req d.app a e) [
      | inl refused ↦ (reply cmd_fail, ap (λ x. x.0.app.sent) (sym h) ∙ refused.sent)
      | inr accepted ↦ (reply cmd_ok, ap (λ x. x.0.app.sent) (sym h) ∙ accepted.sent)
    ]
add_download-Once w fuel req d d' (some (a, throws x)) e h = cc
add_download-Once w fuel req d d' (some (a, throws_pointer x)) e h =
    absurd (add_download-throws_pointer w fuel req d.app a x e)
add_download-Once w fuel req d d' (some (a, waits)) e h = cc

-- A request other than to cancel or to list, and every command number that is not one, is answered
-- by exactly one reply whenever its round ends and the process goes on.
pub dispatch_answers :
    (w : World) (fuel : ℕ) (cmd : Option CmdType) (req : Request) (d d' : Daemon)
    → is_answered cmd ≡ true
    → dispatch w fuel cmd req d ≡ (d', done)
    → AnsweredOnce d.app d'.app
unfolding dispatch get_download_request get_upload_request set_download_request set_upload_request
dispatch_answers w fuel (some Commands.add_download) req d d' t h =
    add_download-Once w fuel req d d' _ refl h
dispatch_answers w fuel (some Commands.cancel_download) req d d' t h = cc
dispatch_answers w fuel (some list_downloads) req d d' t h = cc
dispatch_answers w fuel (some get_download_throttle) req d d' t h =
    moved d.app _ _ d' h (answer_throttle-Once get_download_throttle download_throttle req d.app)
dispatch_answers w fuel (some set_download_throttle) req d d' t h =
    moved d.app _ _ d' h
      (set_throttle-Once change_download_throttle req d.app (λ n m. change_download-sent n m d.app))
dispatch_answers w fuel (some get_upload_throttle) req d d' t h =
    moved d.app _ _ d' h (answer_throttle-Once get_upload_throttle upload_throttle req d.app)
dispatch_answers w fuel (some set_upload_throttle) req d d' t h =
    moved d.app _ _ d' h
      (set_throttle-Once change_upload_throttle req d.app (λ n m. change_upload-sent n m d.app))
dispatch_answers w fuel (some cmd_shutdown) req d d' t h = moved d.app _ _ d' h (send_ok-Once d.app)
dispatch_answers w fuel (some Commands.cmd_ok) req d d' t h =
    moved d.app _ _ d' h (send_fail-Once d.app)
dispatch_answers w fuel (some Commands.cmd_fail) req d d' t h =
    moved d.app _ _ d' h (send_fail-Once d.app)
dispatch_answers w fuel none req d d' t h = moved d.app _ _ d' h (send_fail-Once d.app)

-- `handle` answers FAIL and changes nothing else for what is not a JSON value, has no command, or
-- whose command is no int.
handle_malformed :
    (w : World) (fuel : ℕ) (parsed : Option Request) (d : Daemon)
    → ((req : Request)
        → parsed ≡ some req
        → (req.is_member (codes "cmd") && req.is_int (codes "cmd")) ≡ false)
    → handle w fuel parsed d ≡ (record d { app = send_fail d.app }, done)
unfolding handle
handle_malformed w fuel none d h = refl
handle_malformed w fuel (some req) d h = ground (arith, h req refl)
