-- ===== src/Daemon/Turns/Requests.antt =====
-- filetransferdaemon.cpp: what one round of the loop does to the downloads.
use filetransferdaemon.Prelude.{
  ℕ, ◌≡◌, refl, ◌||◌, Option, none, some, codes, ◌==◌, Bool-cases, inl, inr,
}
use filetransferdaemon.Json.{Request}
use filetransferdaemon.Commands.{CmdType}
use filetransferdaemon.Commands
use filetransferdaemon.World.{World}
use filetransferdaemon.FtdApp.{FtdApp, Ending}
use filetransferdaemon.FtdApp.Adding.{add_download}
use filetransferdaemon.FtdApp.Throttling.{
  get_download_request, get_upload_request, set_download_request, set_upload_request,
  change_download_throttle, change_upload_throttle, download_throttle, upload_throttle,
}
use filetransferdaemon.FtdApp.Heap.{IsValid}
use filetransferdaemon.FtdApp.Heap.Fate.{Fate, alike, AtMost-Fate, add_download-Fate}
use filetransferdaemon.FtdApp.Heap.Requests.{
  Alike-refl, send_ok-Alike, send_fail-Alike, list_request-Alike, cancel_request-AtMost,
}
use filetransferdaemon.FtdApp.Heap.Throttles.{
  answer_throttle-Alike, set_throttle-Alike, change_download-Alike, change_upload-Alike,
}
use filetransferdaemon.Daemon.{
  Daemon, Arrival, no_connection, no_data, signal, message, dispatch, after_search, handle,
  read_command, serve, sighandler, buffer_size,
}
use filetransferdaemon.Daemon.Turns.{IsPlain, IsPlainArrival}

module _ (w : World) (fuel : ℕ) where
  searched-Fate :
      (req : Request) (d : Daemon) (r : Option (FtdApp × Ending))
      → add_download w fuel req d.app ≡ r
      → IsPlain w req
      → Fate w.uid_to_user d.app (after_search d r).0.app
  unfolding after_search
  searched-Fate req d none h p = alike (Alike-refl d.app)
  searched-Fate req d (some (a, e)) h (known, same_url) =
      add_download-Fate w fuel req d.app a e known same_url h

  dispatch-Fate :
      (cmd : Option CmdType) (req : Request) (d : Daemon)
      → IsPlain w req
      → IsValid w.uid_to_user d.app
      → Fate w.uid_to_user d.app (dispatch w fuel cmd req d).0.app
  unfolding dispatch get_download_request get_upload_request set_download_request set_upload_request
  dispatch-Fate (some Commands.add_download) req d p v = searched-Fate req d _ refl p
  dispatch-Fate (some Commands.cancel_download) req d p v =
      AtMost-Fate w.uid_to_user d.app _ (cancel_request-AtMost w req d.app v)
  dispatch-Fate (some Commands.list_downloads) req d p v = alike (list_request-Alike w req d.app)
  dispatch-Fate (some Commands.get_download_throttle) req d p v =
      alike (answer_throttle-Alike Commands.get_download_throttle download_throttle req d.app)
  dispatch-Fate (some Commands.set_download_throttle) req d p v = alike (
      set_throttle-Alike change_download_throttle req d.app
        (λ n m. change_download-Alike n m d.app))
  dispatch-Fate (some Commands.get_upload_throttle) req d p v =
      alike (answer_throttle-Alike Commands.get_upload_throttle upload_throttle req d.app)
  dispatch-Fate (some Commands.set_upload_throttle) req d p v =
      alike
        (set_throttle-Alike change_upload_throttle req d.app (λ n m. change_upload-Alike n m d.app))
  dispatch-Fate (some Commands.cmd_shutdown) req d p v = alike (send_ok-Alike d.app)
  dispatch-Fate (some Commands.cmd_ok) req d p v = alike (send_fail-Alike d.app)
  dispatch-Fate (some Commands.cmd_fail) req d p v = alike (send_fail-Alike d.app)
  dispatch-Fate none req d p v = alike (send_fail-Alike d.app)

  handle-Fate :
      (parsed : Option Request) (d : Daemon)
      → IsPlainArrival w (message 0 parsed)
      → IsValid w.uid_to_user d.app
      → Fate w.uid_to_user d.app (handle w fuel parsed d).0.app
  unfolding handle
  handle-Fate none d p v = alike (send_fail-Alike d.app)
  handle-Fate (some req) d p v = elim (Bool-cases (req.is_member (codes "cmd"))) [
    | inr out ↦ rw (out, handle) (alike (send_fail-Alike d.app))
    | inl here ↦ elim (Bool-cases (req.is_int (codes "cmd"))) [
      | inr out ↦ rw (here, out, handle) (alike (send_fail-Alike d.app))
      | inl good ↦ rw (here, good, handle) (dispatch-Fate (read_command req) req d p v)
    ]
  ]

  message-Fate :
      (r : ℕ) (parsed : Option Request) (d : Daemon)
      → IsPlainArrival w (message 0 parsed)
      → IsValid w.uid_to_user d.app
      → Fate w.uid_to_user d.app (serve w fuel (message r parsed) d).0.app
  unfolding serve
  message-Fate r parsed d p v = elim (Bool-cases (r == buffer_size)) [
    | inl full ↦ rw (full, serve) (alike (Alike-refl d.app))
    | inr fits ↦ rw (fits, serve) (handle-Fate parsed d p v)
  ]

  pub serve-Fate :
      (x : Arrival) (d : Daemon)
      → IsPlainArrival w x
      → IsValid w.uid_to_user d.app
      → Fate w.uid_to_user d.app (serve w fuel x d).0.app
  unfolding serve sighandler
  serve-Fate no_connection d p v = alike (Alike-refl d.app)
  serve-Fate no_data d p v = alike (Alike-refl d.app)
  serve-Fate (signal n) d p v = elim (Bool-cases (n == 2 || n == 15)) [
    | inl stop ↦ rw (stop, serve, sighandler) (alike (Alike-refl d.app))
    | inr other ↦ rw (other, serve, sighandler) (alike (Alike-refl d.app))
  ]
  serve-Fate (message r none) d p v = message-Fate r none d tt v
  serve-Fate (message r (some req)) d p v = message-Fate r (some req) d p v
