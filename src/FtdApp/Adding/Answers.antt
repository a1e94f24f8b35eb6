-- ===== src/FtdApp/Adding/Answers.antt =====
-- FtdApp.cpp, AddDownload: what is answered, and what becomes of the transfers.
use mathlib.Core.Path.{subst}
use mathlib.Core.Option.{some-injective}
use filetransferdaemon.Prelude.{
  ℕ, ◌≡◌, refl, ◌∙◌, ap, ◌⊎◌, inl, inr, Option, none, some, List, [], ◌∷◌, ◌++◌, Text, Table,
  text_eq, text_eq_iff, insert, lookup-insert, codes, arith, Bool-cases, Option-cases,
  if◌then◌else◌,
}
use filetransferdaemon.Json.{Request}
use filetransferdaemon.Commands.{cmd_ok, cmd_fail}
use filetransferdaemon.Platform.{Effect, Outcome, returned, thrown, thrown_pointer}
use filetransferdaemon.World.{World}
use filetransferdaemon.Object.{Object, curl, upload, torrent}
use filetransferdaemon.FtdApp.{
  FtdApp, Ending, returns, downloads, touch, find_by_uuid, find_by_url, send_ok, send_fail, reply,
  register_download,
}
use filetransferdaemon.FtdApp.Adding.{
  add_download, add_checked, launch, valid_add, place, get_download_dir, with_effects, start,
  prepare, note_torrent, enroll, group_id, place_found, place_named,
}
use filetransferdaemon.FtdApp.Adding.Managers.{find_downloader}

-- Every user has the downloads that he had.
abbrev pub SameDownloads : FtdApp → FtdApp → Type 0
SameDownloads a a' = (u : Text) → downloads u a'.transfers ≡ downloads u a.transfers

-- FAIL was answered, and nobody's downloads changed.
pub record Refused (a a' : FtdApp) : Type 0 where
  pub sent : a'.sent ≡ a.sent ++ reply cmd_fail ∷ []
  pub heap : a'.heap ≡ a.heap
  pub same : SameDownloads a a'

-- OK was answered, and the user has one more download, at a new address.
pub record Accepted (user : Text) (a a' : FtdApp) : Type 0 where
  pub sent : a'.sent ≡ a.sent ++ reply cmd_ok ∷ []
  pub more :
      (u : Text)
      → downloads u a'.transfers ≡ (
          if text_eq user u
          then downloads u a.transfers ++ a.fresh ∷ []
          else downloads u a.transfers)

-- Nothing that AddDownload reads later has changed.
pub record Kept (a a' : FtdApp) : Type 0 where
  pub sent : a'.sent ≡ a.sent
  pub heap : a'.heap ≡ a.heap
  pub fresh : a'.fresh ≡ a.fresh
  pub same : SameDownloads a a'

pub downloads-insert :
    (user u : Text) (ps : List ℕ) (m : Table (List ℕ))
    → downloads u (insert user ps m) ≡ (if text_eq user u then ps else downloads u m)
unfolding downloads
downloads-insert user u ps m = ground (arith, lookup-insert user u ps m)

pub downloads-touch : (user : Text) (a : FtdApp) → SameDownloads a (touch user a)
unfolding touch downloads
downloads-touch user a u = ground (arith, lookup-insert user u [] a.transfers, text_eq_iff user u)

touch-Kept : (user : Text) (a : FtdApp) → Kept a (touch user a)
touch-Kept user a = record {
  sent = unfold touch in ground arith;
  heap = unfold touch in ground arith;
  fresh = unfold touch in ground arith;
  same = downloads-touch user a;
}

pub with_effects-Kept : (es : List Effect) {a b : FtdApp} → Kept a b → Kept a (with_effects es b)
unfolding with_effects
with_effects-Kept es k = record { sent = k.sent; heap = k.heap; fresh = k.fresh; same = k.same }

pub send_fail-Refused : {a b : FtdApp} → Kept a b → Refused a (send_fail b)
unfolding send_fail
send_fail-Refused k = record { sent = rw k.sent refl; heap = k.heap; same = k.same }

note_torrent-Kept : (p : ℕ) (o : Object) (a : FtdApp) → Kept a (note_torrent p o a)
unfolding note_torrent
note_torrent-Kept p (curl c) a = record { sent = refl; heap = refl; fresh = refl; same = λ u. refl }
note_torrent-Kept p (upload c) a = record {
  sent = refl;
  heap = refl;
  fresh = refl;
  same = λ u. refl;
}
note_torrent-Kept p (torrent t) a = record {
  sent = refl;
  heap = refl;
  fresh = refl;
  same = λ u. refl;
}

start-Same :
    (w : World) (p : ℕ) (o : Object) (b a' : FtdApp)
    → start w p o b ≡ (a', returns)
    → (a'.sent ≡ b.sent) × (a'.transfers ≡ b.transfers)
unfolding start
start-Same w p o b a' h = ground arith

enroll_lem :
    (user : Text) (o o' : Object) (b : FtdApp)
    → ((enroll user o o' b).sent ≡ b.sent ++ reply cmd_ok ∷ [])
      × ((enroll user o o' b).transfers
          ≡ insert user (downloads user b.transfers ++ b.fresh ∷ []) b.transfers)
unfolding enroll send_ok register_download
enroll_lem user (curl c) o' b = (refl, refl)
enroll_lem user (upload c) o' b = (refl, refl)
enroll_lem user (torrent t) o' b = (refl, refl)

-- OK was answered, and the user has one more download.
launch-Accepted :
    (w : World) (url path filename uuid user : Text) (policy : ℕ) (o : Object) (a b a' : FtdApp)
    → Kept a b
    → launch w url path filename uuid user policy o b ≡ (a', returns)
    → Accepted user a a'
unfolding launch
launch-Accepted w url path filename uuid user policy o a b a' k h =
    let o' = prepare w b.fresh url path filename uuid user (group_id w) policy o in
    let (sent, moved) = start-Same w b.fresh o' (enroll user o o' b) a' h in
    let (told, enrolled) = enroll_lem user o o' b in
    record {
      sent = sent ∙ told ∙ ap (λ s. s ++ reply cmd_ok ∷ []) k.sent;
      more = λ u.
          ap (downloads u) (moved ∙ enrolled)
          ∙ downloads-insert user u (downloads user b.transfers ++ b.fresh ∷ []) b.transfers
          ∙ ground (arith, k.same u, k.same user, k.fresh, text_eq_iff user u);
    }

place_found-Answered :
    (w : World) (url uuid user : Text) (policy : ℕ) (path filename : Text)
    (found : Outcome (Option Object × List Effect)) (a b a' : FtdApp)
    → Kept a b
    → place_found w url uuid user policy path filename found b ≡ (a', returns)
    → Refused a a' ⊎ Accepted user a a'
unfolding place_found
place_found-Answered w url uuid user policy path filename (returned (none, es)) a b a' k h =
    inl (subst (Refused a) (ap (λ r. r.0) h) (send_fail-Refused (with_effects-Kept es k)))
place_found-Answered w url uuid user policy path filename (returned (some o, es)) a b a' k h = inr (
    launch-Accepted w url path filename uuid user policy o a (with_effects es b) a'
      (with_effects-Kept es k) h)
place_found-Answered w url uuid user policy path filename (thrown e) a b a' k h = cc
place_found-Answered w url uuid user policy path filename (thrown_pointer e) a b a' k h = cc

place_named-Answered :
    (w : World) (url uuid user : Text) (policy : ℕ) (path : Text) (name : Option Text)
    (a b a' : FtdApp)
    → Kept a b
    → place_named w url uuid user policy path name b ≡ some (a', returns)
    → Refused a a' ⊎ Accepted user a a'
unfolding place_named
place_named-Answered w url uuid user policy path none a b a' k h = cc
place_named-Answered w url uuid user policy path (some filename) a b a' k h =
    place_found-Answered w url uuid user policy path filename
      (find_downloader w b.managers (w.lib.url_text url) []) a b a' k (some-injective _ _ h)

place-Answered :
    (w : World) (fuel : ℕ) (url uuid user : Text) (policy : ℕ) (dir : Outcome (Text × List Effect))
    (a b a' : FtdApp)
    → Kept a b
    → place w fuel url uuid user policy dir b ≡ some (a', returns)
    → Refused a a' ⊎ Accepted user a a'
unfolding place
place-Answered w fuel url uuid user policy (returned (path, es)) a b a' k h =
    place_named-Answered w url uuid user policy path _ a (with_effects es b) a'
      (with_effects-Kept es k) h
place-Answered w fuel url uuid user policy (thrown e) a b a' k h = cc
place-Answered w fuel url uuid user policy (thrown_pointer e) a b a' k h = cc

pub find_by_uuid-Kept : (uuid user : Text) (a : FtdApp) → Kept a (find_by_uuid uuid user a).0
unfolding find_by_uuid
find_by_uuid-Kept uuid user a = touch-Kept user a

answered_fail :
    {a b a' : FtdApp} {user : Text}
    → Kept a b
    → ◌≡◌ {A = Option (FtdApp × Ending)} (some (send_fail b, returns)) (some (a', returns))
    → Refused a a' ⊎ Accepted user a a'
answered_fail {a} {b} k h =
    inl (subst (Refused a) (ap (λ r. r.0) (some-injective _ _ h)) (send_fail-Refused k))

add_checked-Answered :
    (w : World) (fuel : ℕ) (user uuid url : Text) (policy : ℕ) (a a' : FtdApp)
    → add_checked w fuel user uuid url policy a ≡ some (a', returns)
    → Refused a a' ⊎ Accepted user a a'
unfolding add_checked
add_checked-Answered w fuel user uuid url policy a a' h =
    let b = (find_by_uuid uuid user a).0 in
    let k = find_by_uuid-Kept uuid user a in
    elim (Bool-cases (find_by_uuid uuid user a).1) [
      | inl twice ↦ answered_fail k (rw twice at h)
      | inr once ↦ elim (Bool-cases (find_by_url url b)) [
        | inl twice ↦ answered_fail k (rw (once, twice) at h)
        | inr new ↦
            place-Answered w fuel url uuid user policy (get_download_dir w user) a b a' k
              (rw (once, new) at h)
      ]
    ]

-- An AddDownload that returns has sent exactly one answer: FAIL, and nobody's downloads have
-- changed, or OK, and the user of the request has exactly one more download, at the end.
pub add_download_answers :
    (w : World) (fuel : ℕ) (req : Request) (a a' : FtdApp)
    → add_download w fuel req a ≡ some (a', returns)
    → Refused a a' ⊎ Accepted (req.as_string (codes "user")) a a'
unfolding add_download
add_download_answers w fuel req a a' h = elim (Bool-cases (valid_add req)) [
  | inl valid ↦ elim (Option-cases (req.as_uint (codes "policy"))) [
    | inl e ↦ absurd (cc (rw (valid, e) at h))
    | inr (policy, e) ↦ add_checked-Answered w fuel _ _ _ policy a a' (rw (valid, e) at h)
  ]
  | inr invalid ↦
      answered_fail (record { sent = refl; heap = refl; fresh = refl; same = λ u. refl })
        (rw invalid at h)
]
