-- ===== src/FtdApp/Heap/Launching.antt =====
-- FtdApp.cpp, AddDownload from the launch on: one more object on the heap and in a list.
use filetransferdaemon.Prelude.{
  ℕ, ◌+◌, ◌≡◌, refl, ◌∙◌, some, [], ◌∷◌, ◌++◌, Text, text_eq, text_eq_iff, arith, ◌==◌,
  if◌then◌else◌,
}
use filetransferdaemon.Platform.{Outcome, returned, thrown, thrown_pointer}
use filetransferdaemon.World.{World}
use filetransferdaemon.CurlDownloader.{CurlDownloader}
use filetransferdaemon.CurlDownloader
use filetransferdaemon.SocketFdDownloader
use filetransferdaemon.TorrentDownloader
use filetransferdaemon.Object.{Object, base, curl, upload, torrent, start_download, start_curl}
use filetransferdaemon.FtdApp.{FtdApp, downloads, store, send_ok, register_download}
use filetransferdaemon.FtdApp.Adding.{launch, start, prepare, note_torrent, enroll, group_id}
use filetransferdaemon.FtdApp.Adding.Answers.{downloads-insert}

-- One more object, with this URL and of this user, listed under the name `user`.
pub record Grown (user url : Text) (uid : ℕ) (a a' : FtdApp) : Type 0 where
  pub fresh : a'.fresh ≡ a.fresh + 1
  pub object : Object
  pub url_is : (base object).url ≡ url
  pub user_is : (base object).user ≡ uid
  pub heap : (q : ℕ) → a'.heap q ≡ (if q == a.fresh then some object else a.heap q)
  pub lists :
      (u : Text)
      → downloads u a'.transfers ≡ (
          if text_eq user u
          then downloads u a.transfers ++ a.fresh ∷ []
          else downloads u a.transfers)

-- StartDownload leaves the URL and the user alone.
start_download-same :
    (w : World) (o o' : Object)
    → start_download w o ≡ returned o'
    → ((base o').url ≡ (base o).url) × ((base o').user ≡ (base o).user)
unfolding start_download start_curl CurlDownloader.start_download SocketFdDownloader.start_download
    TorrentDownloader.start_download
start_download-same w (curl c) o' h = ground arith
start_download-same w (upload c) o' h = ground arith
start_download-same w (torrent t) o' h = ground arith

prepare_is :
    (w : World) (p : ℕ) (url path filename uuid user : Text) (gid policy : ℕ) (o : Object)
    → ((base (prepare w p url path filename uuid user gid policy o)).url ≡ w.lib.url_text url)
      × ((base (prepare w p url path filename uuid user gid policy o)).user ≡ w.user_to_uid user)
unfolding prepare
prepare_is w p url path filename uuid user gid policy (curl c) = (refl, refl)
prepare_is w p url path filename uuid user gid policy (upload c) = (refl, refl)
prepare_is w p url path filename uuid user gid policy (torrent c) = (refl, refl)

note_torrent_same :
    (p : ℕ) (o : Object) (a : FtdApp)
    → ((note_torrent p o a).heap ≡ a.heap)
      × ((note_torrent p o a).fresh ≡ a.fresh)
      × ((note_torrent p o a).transfers ≡ a.transfers)
unfolding note_torrent
note_torrent_same p (curl c) a = (refl, refl, refl)
note_torrent_same p (upload c) a = (refl, refl, refl)
note_torrent_same p (torrent c) a = (refl, refl, refl)

enroll-Grown :
    (user url : Text) (uid : ℕ) (o o' : Object) (a : FtdApp)
    → (base o').url ≡ url
    → (base o').user ≡ uid
    → Grown user url uid a (enroll user o o' a)
unfolding enroll send_ok register_download
enroll-Grown user url uid o o' a e f =
    let b = store (record a { fresh = a.fresh + 1 }) a.fresh o' in
    let (heap, fresh, transfers) = note_torrent_same a.fresh o b in
    record {
      fresh = fresh;
      object = o';
      url_is = e;
      user_is = f;
      heap = λ q. rw heap refl;
      lists = λ u. rw transfers (
          downloads-insert user u (downloads user a.transfers ++ a.fresh ∷ []) a.transfers
          ∙ ground (arith, text_eq_iff user u));
    }

-- A second object stored at the new address.
store-Grown :
    (user url : Text) (uid : ℕ) (o' : Object) (a b : FtdApp)
    → (base o').url ≡ url
    → (base o').user ≡ uid
    → Grown user url uid a b
    → Grown user url uid a (store b a.fresh o')
store-Grown user url uid o' a b e f g = record {
  fresh = g.fresh;
  object = o';
  url_is = e;
  user_is = f;
  heap = λ q. ground (arith, g.heap q);
  lists = g.lists;
}

start-Grown :
    (w : World) (user url : Text) (uid : ℕ) (o : Object) (a b : FtdApp)
    → (base o).url ≡ url
    → (base o).user ≡ uid
    → Grown user url uid a b
    → Grown user url uid a (start w a.fresh o b).0
unfolding start
start-Grown w user url uid o a b e f g = go (start_download w o) refl
  where
    go :
        (r : Outcome Object) → start_download w o ≡ r → Grown user url uid a (start w a.fresh o b).0
    go (returned o') h =
        let (url_is, user_is) = start_download-same w o o' h in
        rw (h, start) (store-Grown user url uid o' a b (url_is ∙ e) (user_is ∙ f) g)
    go (thrown x) h = rw (h, start) g
    go (thrown_pointer x) h = rw (h, start) g

pub launch-Grown :
    (w : World) (url path filename uuid user : Text) (policy : ℕ) (o : Object) (a : FtdApp)
    → Grown user
        (w.lib.url_text url)
        (w.user_to_uid user)
        a
        (launch w url path filename uuid user policy o a).0
unfolding launch
launch-Grown w url path filename uuid user policy o a =
    let o' = prepare w a.fresh url path filename uuid user (group_id w) policy o in
    let (u, s) = prepare_is w a.fresh url path filename uuid user (group_id w) policy o in
    start-Grown w user (w.lib.url_text url) (w.user_to_uid user) o' a (enroll user o o' a) u s
      (enroll-Grown user (w.lib.url_text url) (w.user_to_uid user) o o' a u s)
