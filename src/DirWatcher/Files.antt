-- ===== src/DirWatcher/Files.antt =====
-- DirWatcher.cpp, AddDownload: what it does to the downloads.
use filetransferdaemon.Prelude.{
  ℕ, ◌≡◌, refl, ◌∙◌, Bool, true, false, List, [], ◌∷◌, ◌++◌, Text, codes, text_eq_iff, arith,
  Bool-cases, inl, inr, ◌⊎◌,
}
use filetransferdaemon.Downloader.{update_progress}
use filetransferdaemon.Platform.{Effect, Outcome, returned, thrown, thrown_pointer}
use filetransferdaemon.TorrentDownloader.{
  TorrentDownloader, Added, added, invalid_file, invalid_encoding, duplicate, fail_add, describe,
}
use filetransferdaemon.TorrentDownloader
use filetransferdaemon.TorrentDownloader.Files.{Place, start_from_file}
use filetransferdaemon.World.{World}
use filetransferdaemon.Object.{torrent}
use filetransferdaemon.FtdApp.{FtdApp, downloads, touch, find_by_url, register_download}
use filetransferdaemon.FtdApp.Adding.{get_download_dir, with_effects}
use filetransferdaemon.FtdApp.Adding.Answers.{Kept, with_effects-Kept, downloads-insert}
use filetransferdaemon.FtdApp.Heap.Frames.{Alike, Alike-trans, same-Alike}
use filetransferdaemon.FtdApp.Heap.Adding.{after_Kept}
use filetransferdaemon.FtdApp.Heap.Launching.{Grown}
use filetransferdaemon.FtdApp.Heap.Fate.{Fate, alike, grown}
use filetransferdaemon.DirWatcher.Adding.{
  Found, missing, directory, file, is_litter, prepare, settle, connect_failed, add_owned,
  add_download,
}

-- StartFromFile leaves the URL and the user alone.
enter_same :
    (resume : Text) (answer : Added) (t : TorrentDownloader)
    → let t' = (TorrentDownloader.add_download resume answer t).0.0 in
      (t'.url ≡ t.url) × (t'.user ≡ t.user)
unfolding TorrentDownloader.add_download fail_add describe update_progress
enter_same resume (added h name size) t = ground arith
enter_same resume invalid_file t = ground arith
enter_same resume invalid_encoding t = ground arith
enter_same resume (duplicate name size) t = ground arith

-- What becomes of the downloads when a new torrent is settled.
settle-lem :
    (owner url : Text) (uid : ℕ) (r : (TorrentDownloader × List Effect) × Bool) (a : FtdApp)
    → r.0.0.url ≡ url
    → r.0.0.user ≡ uid
    → Alike a (settle owner r a) ⊎ Grown owner url uid a (settle owner r a)
unfolding settle with_effects register_download connect_failed
settle-lem owner url uid ((t, es), false) a e f = inl (same-Alike a _ refl refl (λ u. refl))
settle-lem owner url uid ((t, es), true) a e f = inr (record {
  fresh = refl;
  object = torrent (connect_failed a.fresh t);
  url_is = e;
  user_is = f;
  heap = λ q. refl;
  lists = λ u.
      downloads-insert owner u (downloads owner a.transfers ++ a.fresh ∷ []) a.transfers
      ∙ ground (arith, text_eq_iff owner u);
})

-- A file of which no download has the URL, and whose owner is the user of his uid.
abbrev pub IsNewFile : World → FtdApp → Text → Found → Type 0
IsNewFile w a path missing = Unit
IsNewFile w a path directory = Unit
IsNewFile w a path (file owner uid) =
    (w.uid_to_user uid ≡ owner)
    × (w.lib.url_text (codes "file://" ++ path) ≡ codes "file://" ++ path)
    × (find_by_url (codes "file://" ++ path) (touch owner a) ≡ false)

Kept-refl : (a : FtdApp) → Kept a a
Kept-refl a = record { sent = refl; heap = refl; fresh = refl; same = λ u. refl }

-- The new torrent has the URL of the file and its owner.
started_same :
    (w : World) (e : Place) (answer : Added) (uuid uuid' path dir : Text) (uid : ℕ)
    → let t = (start_from_file e path uuid' answer (prepare w path dir uid uuid)).0.0 in
      (t.url ≡ w.lib.url_text (codes "file://" ++ path)) × (t.user ≡ uid)
unfolding start_from_file prepare
started_same w e answer uuid uuid' path dir uid = enter_same _ answer _

when_added :
    (name : ℕ → Text) (owner url : Text) (uid : ℕ) (a b c : FtdApp)
    → name uid ≡ owner
    → find_by_url url (touch owner a) ≡ false
    → Kept a b
    → Alike b c ⊎ Grown owner url uid b c
    → Fate name a c
when_added name owner url uid a b c known new k (inl same) =
    alike (Alike-trans (same-Alike a b k.heap k.fresh k.same) same)
when_added name owner url uid a b c known new k (inr more) =
    grown owner url uid known new (after_Kept k more)

add_owned-Fate :
    (w : World) (e : Place) (answer : Added) (uuid uuid' path owner : Text) (uid : ℕ)
    (dir : Outcome (Text × List Effect)) (a : FtdApp)
    → IsNewFile w a path (file owner uid)
    → Fate w.uid_to_user a (add_owned w e answer uuid uuid' path owner uid dir a)
unfolding add_owned
add_owned-Fate w e answer uuid uuid' path owner uid (returned (dir, es)) a (known, same, new) =
    let (url, user) = started_same w e answer uuid uuid' path dir uid in
    let r = start_from_file e path uuid' answer (prepare w path dir uid uuid) in
    let k = with_effects-Kept es (Kept-refl a) in
    when_added w.uid_to_user owner (codes "file://" ++ path) uid a (with_effects es a) _ known new k
      (settle-lem owner (codes "file://" ++ path) uid r (with_effects es a) (url ∙ same) user)
add_owned-Fate w e answer uuid uuid' path owner uid (thrown err) a h =
    alike (same-Alike a a refl refl (λ u. refl))
add_owned-Fate w e answer uuid uuid' path owner uid (thrown_pointer err) a h =
    alike (same-Alike a a refl refl (λ u. refl))

-- A file that is found adds one download of its owner with its URL, or none.
pub add_download-Fate :
    (w : World) (e : Place) (answer : Added) (uuid uuid' path : Text) (found : Found) (a : FtdApp)
    → IsNewFile w a path found
    → Fate w.uid_to_user a (add_download w e answer uuid uuid' path found a)
unfolding add_download
add_download-Fate w e answer uuid uuid' path missing a h =
    alike (same-Alike a a refl refl (λ u. refl))
add_download-Fate w e answer uuid uuid' path directory a h =
    alike (same-Alike a a refl refl (λ u. refl))
add_download-Fate w e answer uuid uuid' path (file owner uid) a h =
    elim (Bool-cases (is_litter path)) [
      | inl litter ↦ rw (litter, add_download) (alike (same-Alike a a refl refl (λ u. refl)))
      | inr good ↦
          rw (good, add_download)
            (add_owned-Fate w e answer uuid uuid' path owner uid (get_download_dir w owner) a h)
    ]
