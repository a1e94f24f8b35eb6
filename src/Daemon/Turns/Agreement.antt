-- ===== src/Daemon/Turns/Agreement.antt =====
-- filetransferdaemon.cpp with the threads around it: the tables and the heap of downloads agree.
use mathlib.Core.Path.{subst}
use filetransferdaemon.Prelude.{
  ℕ, sym, lookup, insert, ◌≡◌, refl, [], Text, codes, Option-cases, inl, inr,
}
use filetransferdaemon.Json.{Request, text_object}
use filetransferdaemon.World.{World}
use filetransferdaemon.Object.{base}
use filetransferdaemon.Object.Threads.{ThreadStep-Keeps}
use filetransferdaemon.FtdApp.{FtdApp, downloads}
use filetransferdaemon.FtdApp.Canceling.{dl_done}
use filetransferdaemon.FtdApp.Heap.{IsValid}
use filetransferdaemon.FtdApp.Heap.Frames.{store-Alike}
use filetransferdaemon.FtdApp.Heap.Fate.{
  AtMost, none_less, Fate, alike, Fate-IsValid, AtMost-Fate, deferred_remove-AtMost,
}
use filetransferdaemon.FtdApp.Heap.Requests.{Alike-refl, cancel_request-AtMost}
use filetransferdaemon.Downloader.{Downloader}
use filetransferdaemon.DirWatcher.Adding.{Found, download_failed}
use filetransferdaemon.DirWatcher.Adding
use filetransferdaemon.DirWatcher.Files.{IsNewFile}
use filetransferdaemon.DirWatcher.Files
use filetransferdaemon.Daemon.{Daemon, serve}
use filetransferdaemon.Daemon.Turns.{
  Turn, round, works, removes, signals, fails, finds, Reach, start, turn, IsNew, IsPlainTurn,
  ArePlain,
}
use filetransferdaemon.Daemon.Turns.Requests.{serve-Fate}

new-IsValid : (name : ℕ → Text) (d : Daemon) → IsNew d → IsValid name d.app
unfolding downloads lookup
new-IsValid name d (t, h) = record {
  present = λ u p i. absurd (cc (rw t at i));
  below = λ u p i. absurd (cc (rw t at i));
  at_home = λ u p o i e. absurd (cc (rw t at i));
  listed = λ p o e. absurd (cc (h p, e));
  nodup = λ u. rw t refl;
  one_url = λ x y p q o r i j e f same. absurd (cc (rw t at i));
}

-- The request that names a download.
abbrev request_of : Downloader → Text → Request
request_of d user =
    text_object
      (insert (codes "uuid") d.uuid (insert (codes "url") d.url (insert (codes "user") user [])))

dl_done-AtMost :
    (w : World) (p : ℕ) (a : FtdApp) → IsValid w.uid_to_user a → AtMost a (dl_done w p a).0
unfolding dl_done
dl_done-AtMost w p a v = elim (Option-cases (a.heap p)) [
  | inl e ↦ rw (e, dl_done) (none_less (Alike-refl a))
  | inr (o, e) ↦ elim (Option-cases (w.pw_name (base o).user)) [
    | inl f ↦ rw (e, f, dl_done) (none_less (Alike-refl a))
    | inr (n, f) ↦ rw (e, f, dl_done) (cancel_request-AtMost w (request_of (base o) n) a v)
  ]
]

download_failed-AtMost :
    (w : World) (failed : Downloader) (a : FtdApp)
    → IsValid w.uid_to_user a
    → AtMost a (download_failed w failed a).0
unfolding download_failed
download_failed-AtMost w failed a v =
    cancel_request-AtMost w (request_of failed (w.uid_to_user failed.user)) a v

renamed : {name other : ℕ → Text} {a : FtdApp} → other ≡ name → IsValid name a → IsValid other a
renamed {a = a} same v = subst (λ n. IsValid n a) (sym same) v

pub Turn-Fate :
    (name : ℕ → Text) {d e : Daemon} (t : Turn d e)
    → IsPlainTurn name t
    → IsValid name d.app
    → Fate name d.app e.app
Turn-Fate name {d} (round w fuel x) (same_name, p) v =
    subst (λ n. Fate n d.app (serve w fuel x d).0.app) same_name
      (serve-Fate w fuel x d p (renamed same_name v))
Turn-Fate name {d} (works p o o' e step) plain v =
    let k = ThreadStep-Keeps step in alike (store-Alike d.app p o o' e k.url k.user)
Turn-Fate name {d} (removes w p) same_name v =
    AtMost-Fate name d.app _ (deferred_remove-AtMost w p d.app (renamed same_name v))
Turn-Fate name {d} (signals w p) same_name v =
    AtMost-Fate name d.app _ (dl_done-AtMost w p d.app (renamed same_name v))
Turn-Fate name {d} (fails w failed) same_name v =
    AtMost-Fate name d.app _ (download_failed-AtMost w failed d.app (renamed same_name v))
Turn-Fate name {d} (finds w e answer uuid uuid' path found) (same_name, new_file) v =
    subst (λ n. Fate n d.app (Adding.add_download w e answer uuid uuid' path found d.app)) same_name
      (Files.add_download-Fate w e answer uuid uuid' path found d.app new_file)

-- Whatever turns have come one after another, from a daemon without downloads and with plain turns
-- only, the tables and the heap agree.
pub reach-IsValid :
    (name : ℕ → Text) {first d : Daemon} (r : Reach first d)
    → IsNew first
    → ArePlain name r
    → IsValid name d.app
reach-IsValid name {first} start n p = new-IsValid name first n
reach-IsValid name (turn {d} {e} r t) n (before, p) =
    let v = reach-IsValid name r n before in Fate-IsValid name d.app e.app (Turn-Fate name t p v) v
