-- ===== src/FtdApp/Adding/Pointers.antt =====
-- FtdApp.cpp, AddDownload: which exceptions it can throw.
use filetransferdaemon.Prelude.{
  ℕ, ◌≡◌, ◌≢◌, ◌⊎◌, refl, Bool, true, false, Bool-cases, Option-cases, inl, inr, Option, none, some,
  List, [], ◌∷◌, Text, Table, codes, arith,
}
use filetransferdaemon.Json.{Request}
use filetransferdaemon.Platform.{Library, Effect, Outcome, returned, thrown, thrown_pointer}
use filetransferdaemon.World.{World}
use filetransferdaemon.CurlDownloader.{CurlDownloader}
use filetransferdaemon.CurlDownloader
use filetransferdaemon.CurlDownloader.Run.{Transfer}
use filetransferdaemon.CurlDownloader.Filter.{request_head, judge_outcome, head_downloader}
use filetransferdaemon.CurlDownloader.Filter
use filetransferdaemon.Object.{Object, curl, upload, torrent, start_download, start_curl}
use filetransferdaemon.FtdApp.{
  FtdApp, Ending, returns, throws, throws_pointer, waits, Manager, socket_fd_manager, curl_manager,
  torrent_manager, find_by_uuid,
}
use filetransferdaemon.FtdApp.Adding.{
  launch, start, place_found, place_named, place, get_download_dir, add_checked, add_download,
  valid_add,
}
use filetransferdaemon.FtdApp.Adding.Managers.{filter, from_curl, continue, find_downloader}

abbrev is_pointer : {A : Type 0} → Outcome A → Bool
is_pointer (returned a) = false
is_pointer (thrown e) = false
is_pointer (thrown_pointer e) = true

abbrev throws_it : Ending → Bool
throws_it returns = false
throws_it (throws e) = false
throws_it (throws_pointer e) = true
throws_it waits = false

start_curl_value :
    (opens : Bool) (c : CurlDownloader) → is_pointer (CurlDownloader.start_download opens c) ≡ false
unfolding CurlDownloader.start_download
start_curl_value opens c = ground arith

request_head_value :
    (lib : Library) (t : Transfer) (c : CurlDownloader) → is_pointer (request_head lib t c) ≡ false
unfolding request_head
request_head_value lib t c = ground (arith, start_curl_value true c)

judge_outcome_value :
    (agent : Text) (hints : Table Text) (r : Outcome (CurlDownloader × List Effect))
    → is_pointer r ≡ false
    → is_pointer (judge_outcome agent hints r) ≡ false
unfolding judge_outcome
judge_outcome_value agent hints (returned r) h = refl
judge_outcome_value agent hints (thrown e) h = refl
judge_outcome_value agent hints (thrown_pointer e) h = cc

curl_filter_value :
    (lib : Library) (agent url : Text) (t : Transfer) (hints : Table Text)
    → is_pointer (Filter.filter lib agent t url hints) ≡ false
unfolding Filter.filter
curl_filter_value lib agent url t hints =
    let c = head_downloader lib agent (lib.url_text url) in
    ground
      (arith, judge_outcome_value agent hints (request_head lib t c) (request_head_value lib t c))

from_curl_value :
    (r : Outcome (Option CurlDownloader × Table Text × List Effect))
    → is_pointer r ≡ false
    → is_pointer (from_curl r) ≡ false
unfolding from_curl
from_curl_value (returned (none, hints, effects)) h = refl
from_curl_value (returned (some c, hints, effects)) h = refl
from_curl_value (thrown e) h = refl
from_curl_value (thrown_pointer e) h = cc

filter_value :
    (w : World) (m : Manager) (url : Text) (hints : Table Text)
    → is_pointer (filter w m url hints) ≡ false
unfolding filter
filter_value w socket_fd_manager url hints = refl
filter_value w curl_manager url hints =
    from_curl_value (Filter.filter w.lib w.agent w.head url hints)
      (curl_filter_value w.lib w.agent url w.head hints)
filter_value w torrent_manager url hints = refl

continue_value :
    (effects : List Effect) (r : Outcome (Option Object × List Effect))
    → is_pointer r ≡ false
    → is_pointer (continue effects r) ≡ false
unfolding continue
continue_value effects (returned r) h = refl
continue_value effects (thrown e) h = refl
continue_value effects (thrown_pointer e) h = cc

abbrev Found : Type 0
Found = Option Object × Table Text × List Effect

found_cases :
    (r : Outcome Found)
    → is_pointer r ≡ false
    → ((x : Table Text × List Effect) × (r ≡ returned (none, x.0, x.1)))
      ⊎ (((x : Object × Table Text × List Effect) × (r ≡ returned (some x.0, x.1, x.2)))
          ⊎ ((e : Text) × (r ≡ thrown e)))
found_cases (returned (none, hints, effects)) h = inl ((hints, effects), refl)
found_cases (returned (some o, hints, effects)) h = inr (inl ((o, hints, effects), refl))
found_cases (thrown e) h = inr (inr (e, refl))
found_cases (thrown_pointer e) h = cc

find_downloader_value :
    (w : World) (ms : List Manager) (url : Text) (hints : Table Text)
    → is_pointer (find_downloader w ms url hints) ≡ false
unfolding find_downloader
find_downloader_value w [] url hints = refl
find_downloader_value w (m ∷ ms) url hints =
    elim (found_cases (filter w m url hints) (filter_value w m url hints)) [
      | inl (x, e) ↦
          rw (e, is_pointer, find_downloader)
            (continue_value x.1 (find_downloader w ms url x.0) (find_downloader_value w ms url x.0))
      | inr (inl (x, e)) ↦ rw (e, is_pointer, find_downloader) refl
      | inr (inr (x, e)) ↦ rw (e, is_pointer, find_downloader) refl
    ]

start_value : (w : World) (o : Object) → is_pointer (start_download w o) ≡ false
unfolding start_download start_curl
start_value w (curl c) = ground (arith, start_curl_value w.opens c)
start_value w (upload c) = refl
start_value w (torrent t) = refl

start_thread_value :
    (w : World) (p : ℕ) (o : Object) (a : FtdApp) → throws_it (start w p o a).1 ≡ false
unfolding start
start_thread_value w p o a = ground (arith, start_value w o)

launch_value :
    (w : World) (url path filename uuid user : Text) (policy : ℕ) (o : Object) (a : FtdApp)
    → throws_it (launch w url path filename uuid user policy o a).1 ≡ false
unfolding launch
launch_value w url path filename uuid user policy o a = start_thread_value w a.fresh _ _

place_found_value :
    (w : World) (url uuid user : Text) (policy : ℕ) (path filename : Text)
    (found : Outcome (Option Object × List Effect)) (a : FtdApp)
    → is_pointer found ≡ false
    → throws_it (place_found w url uuid user policy path filename found a).1 ≡ false
unfolding place_found
place_found_value w url uuid user policy path filename (returned (none, es)) a h = refl
place_found_value w url uuid user policy path filename (returned (some o, es)) a h =
    launch_value w url path filename uuid user policy o _
place_found_value w url uuid user policy path filename (thrown e) a h = refl
place_found_value w url uuid user policy path filename (thrown_pointer e) a h = cc

abbrev result_throws_it : Option (FtdApp × Ending) → Bool
result_throws_it none = false
result_throws_it (some (a, e)) = throws_it e

place_named_value :
    (w : World) (url uuid user : Text) (policy : ℕ) (path : Text) (name : Option Text) (a : FtdApp)
    → result_throws_it (place_named w url uuid user policy path name a) ≡ false
unfolding place_named
place_named_value w url uuid user policy path none a = refl
place_named_value w url uuid user policy path (some filename) a =
    place_found_value w url uuid user policy path filename _ a
      (find_downloader_value w a.managers (w.lib.url_text url) [])

get_download_dir_value : (w : World) (user : Text) → is_pointer (get_download_dir w user) ≡ false
unfolding get_download_dir
get_download_dir_value w user = ground arith

place_value :
    (w : World) (fuel : ℕ) (url uuid user : Text) (policy : ℕ) (dir : Outcome (Text × List Effect))
    (a : FtdApp)
    → is_pointer dir ≡ false
    → result_throws_it (place w fuel url uuid user policy dir a) ≡ false
unfolding place
place_value w fuel url uuid user policy (returned (path, es)) a h =
    place_named_value w url uuid user policy path _ _
place_value w fuel url uuid user policy (thrown e) a h = refl
place_value w fuel url uuid user policy (thrown_pointer e) a h = cc

add_checked_value :
    (w : World) (fuel : ℕ) (user uuid url : Text) (policy : ℕ) (a : FtdApp)
    → result_throws_it (add_checked w fuel user uuid url policy a) ≡ false
unfolding add_checked
add_checked_value w fuel user uuid url policy a = ground (
  arith,
  place_value w fuel url uuid user policy (get_download_dir w user) (find_by_uuid uuid user a).0
      (get_download_dir_value w user),
)

result_throws_it-add_download :
    (w : World) (fuel : ℕ) (req : Request) (a : FtdApp)
    → result_throws_it (add_download w fuel req a) ≡ false
unfolding add_download
result_throws_it-add_download w fuel req a = elim (Bool-cases (valid_add req)) [
  | inl valid ↦ elim (Option-cases (req.as_uint (codes "policy"))) [
    | inl e ↦ rw (valid, e) refl
    | inr (policy, e) ↦ rw (valid, e) (add_checked_value w fuel _ _ _ policy a)
  ]
  | inr invalid ↦ rw invalid refl
]

-- AddDownload never throws a pointer, which is all that the loop of the daemon catches.
pub add_download-throws_pointer :
    (w : World) (fuel : ℕ) (req : Request) (a a' : FtdApp) (e : Text)
    → add_download w fuel req a ≢ some (a', throws_pointer e)
add_download-throws_pointer w fuel req a a' e h =
    absurd (cc (rw h at (result_throws_it-add_download w fuel req a)))
