-- ===== src/Tests/Clients.antt =====
-- Concrete runs of the client, of the CGI program and of a thread that waits.
use filetransferdaemon.Prelude.{
  ℕ, ◌≡◌, refl, true, false, some, List, [], ◌∷◌, ◌++◌, codes, lookup, text_eq, is_empty,
}
use filetransferdaemon.Json.{Json}
use filetransferdaemon.Commands.{cmd_ok}
use filetransferdaemon.Downloader.{
  Downloader, queued, in_progress, ok, reap_ok, is_call_done, status_eq,
}
use filetransferdaemon.Downloader.Waiting.{System, Steps, initial, closed, asleep, wakeup_lost}
use filetransferdaemon.Object.{Object, curl}
use filetransferdaemon.FtdApp.{reply, send_ok}
use filetransferdaemon.FtdApp.Listing.{list_user_downloads}
use filetransferdaemon.FtdApp.Listing.Records.{TellsEach}
use filetransferdaemon.FtdClient.{read_list}
use filetransferdaemon.FtdClient.Exits.{list_exit}
use filetransferdaemon.SocketFdDownloader.Run.{Post}
use filetransferdaemon.Upload.{Visit, Page, main}
use filetransferdaemon.Upload.Results.{upload_told_opposite, first_message, last_messages}
use filetransferdaemon.Tests.{world, app, download, curl_download, stream}

abbrev idle : Downloader
idle = download queued ok

wakeup_lost_example :
    (s : System) × Steps (initial idle) s
    × (reap_ok s.dl ≡ true)
    × (s.stage ≡ closed)
    × ((t : System) → Steps s t → t.pc 0 ≡ asleep)
unfolding reap_ok is_call_done status_eq
wakeup_lost_example = wakeup_lost idle refl

abbrev running : Object
running = curl (curl_download (download in_progress ok) (some stream))

abbrev listed : List ℕ
listed = 0 ∷ []

list_exit_example :
    (xs : List Json) × ((send_ok (list_user_downloads world (codes "tor") (app running))).sent
      ≡ (app running).sent ++ (xs ++ reply cmd_ok ∷ []))
    × (read_list (xs ++ reply cmd_ok ∷ []) ≡ (xs, false))
    × TellsEach (codes "tor") (app running).heap listed xs
unfolding lookup text_eq
list_exit_example = list_exit world (codes "tor") listed (app running) refl ((running, refl), tt)

abbrev done_post : Post
done_post = record { answer = λ n. true; handed = 5; has_dir = true; parts = []; throws = false }

abbrev visit : Json → Visit
unfolding first_message last_messages
visit rep = record {
  cookie = codes "c1";
  is_valid = true;
  user = codes "tor";
  is_multi = true;
  zero_fd = false;
  tmp_name = codes "/tmp/bupl123456";
  uuid = codes "u-3";
  connects = true;
  reply = rep;
  fd_answer = codes "!";
  boundary_answer = codes "!";
  length_answer = codes "!";
  last_answer = first_message (last_messages done_post);
}

upload_told_opposite_example :
    (page : Page) × (main (visit (reply cmd_ok)) ≡ some page) × (page.result ≡ done_post.throws)
unfolding is_empty visit
upload_told_opposite_example =
    upload_told_opposite (visit (reply cmd_ok)) done_post
      (record {
        session = refl;
        logged_in = refl;
        multi = refl;
        descriptor = refl;
        connected = refl;
      })
      refl (record { fd = refl; boundary = refl; content_length = refl }) refl
