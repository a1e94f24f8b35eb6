-- ===== src/TorrentDownloadManager/Alerts.antt =====
-- TorrentDownloader.cpp, the thread of TorrentDownloadManager: what its start and its alerts keep.
use mathlib.Core.Option.{some-injective}
use mathlib.Core.List.{append-nil}
use filetransferdaemon.Prelude.{
  ℕ, ℤ, pos, negsuc, ◌≡◌, refl, ap, ◌∙◌, Bool, true, false, Option, none, some, List, [], ◌∷◌, ◌++◌,
  Text, codes, ◌==◌, arith, Bool-cases, Option-cases, inl, inr,
}
use filetransferdaemon.Platform.{returned}
use filetransferdaemon.FtdConfig.{FtdConfig, get_integer_or_default}
use filetransferdaemon.Downloader.{Downloader, complete, claim, is_ok, downloaded}
use filetransferdaemon.TorrentDownloader.{TorrentDownloader, change_permissions, download_done}
use filetransferdaemon.TorrentDownloader.Files.{Place, do_write_resume_data}
use filetransferdaemon.TorrentDownloadManager.{
  TorrentDownloadManager, find_downloader, set_download_throttle, set_upload_throttle,
  get_download_throttle, get_upload_throttle, work_around,
}
use filetransferdaemon.TorrentDownloadManager.Session.{
  SessionCall, start_session, start_throttles, Session, Alert, tracker_announce, torrent_finished,
  save_resume_data, save_resume_data_failed, logged, put, torrent_of, on_torrent, finish, announce,
  save_resume, handle_alert, handle_alerts,
}

-- The largest value of a C int.
abbrev pub is_largest : ℤ → Bool
is_largest (pos n) = n == 2147483647
is_largest (negsuc n) = false

-- A limit that libtorrent answers as it was given it, and that does not stand for none.
abbrev pub IsPlainLimit : TorrentDownloadManager → ℤ → Type 0
IsPlainLimit m n = (m.reported n ≡ n) × (is_largest n ≡ false)

work_around_plain : (is_old : Bool) (n : ℤ) → is_largest n ≡ false → work_around is_old n ≡ n
unfolding work_around
work_around_plain is_old (negsuc n) h = refl
work_around_plain is_old (pos n) h = ground (arith, h)

-- With both throttles configured, to limits that libtorrent answers as it was given them and other
-- than 2147483647, and as long as nobody sets them: the throttles that the daemon answers are those
-- of the configuration before libtorrent runs, and the same ones when it runs.
pub start_keeps_throttles :
    (cfg : FtdConfig) (has_state : Bool) (m : TorrentDownloadManager) (down up : ℤ)
    → m.is_running ≡ false
    → cfg.get_integer (codes "torrent") (codes "maxdownload") ≡ some down
    → cfg.get_integer (codes "torrent") (codes "maxupload") ≡ some up
    → m.config_download ≡ cfg.get_integer (codes "torrent") (codes "maxdownload")
    → m.config_upload ≡ cfg.get_integer (codes "torrent") (codes "maxupload")
    → IsPlainLimit m down
    → IsPlainLimit m up
    → (m' : TorrentDownloadManager) × (calls : List SessionCall) × (start_session cfg has_state true
          m
        ≡ returned (m', calls))
      × (m'.is_running ≡ true)
      × (get_download_throttle m' ≡ get_download_throttle m)
      × (get_upload_throttle m' ≡ get_upload_throttle m)
unfolding start_session start_throttles get_download_throttle get_upload_throttle
    set_download_throttle set_upload_throttle get_integer_or_default
start_keeps_throttles cfg has_state m down up stopped is_down is_up same_down same_up
      (plain_down, other_down) (plain_up, other_up) =
    (
      _,
      _,
      refl,
      refl,
      rw (stopped, same_down, is_down, plain_down)
          (work_around_plain m.is_version_0_12 down other_down),
      rw (stopped, same_up, is_up, plain_up) (work_around_plain m.is_version_0_12 up other_up),
    )

-- Every torrent is past the claim of Complete.
abbrev pub Settled : Session → Type 0
Settled s = (p : ℕ) (t : TorrentDownloader) → s.torrents p ≡ some t → is_ok t.reap_status ≡ false

put-Settled :
    (p : ℕ) (t : TorrentDownloader) (s : Session)
    → is_ok t.reap_status ≡ false
    → Settled s
    → Settled (put p t s)
put-Settled p t s h k q x e = elim (Bool-cases (q == p)) [
  | inl here ↦ rw (ap (λ y. y.reap_status) (some-injective t x (rw here at e))) at h
  | inr there ↦ k q x (rw there at e)
]

torrent_of-Settled :
    (h : ℕ) (s : Session) (p : ℕ) (t : TorrentDownloader)
    → Settled s
    → torrent_of h s ≡ some (p, t)
    → is_ok t.reap_status ≡ false
unfolding torrent_of
torrent_of-Settled h s p t k e = elim (Option-cases (find_downloader h s.manager)) [
  | inl f ↦ absurd (cc (rw (f, torrent_of) at e))
  | inr (q, f) ↦ elim (Option-cases (s.torrents q)) [
    | inl g ↦ absurd (cc (rw (f, g, torrent_of) at e))
    | inr (x, g) ↦
        rw (ap (λ y. y.1.reap_status) (some-injective (q, x) (p, t) (rw (f, g, torrent_of) at e)))
          at (k q x g)
  ]
]

complete_settled :
    (d : Downloader)
    → is_ok d.reap_status ≡ false
    → ((complete d).1 ≡ []) × (is_ok (complete d).0.reap_status ≡ false)
unfolding complete claim
complete_settled d h = ground arith

permissions_settled :
    (found : Text → List Text) (names : List Text) (t : TorrentDownloader)
    → (change_permissions found names t).0.reap_status ≡ t.reap_status
unfolding change_permissions
permissions_settled found names t = ground arith

resume_settled :
    (e : Place) (t : TorrentDownloader) → (do_write_resume_data e t).0.reap_status ≡ t.reap_status
unfolding do_write_resume_data
resume_settled e t = ground arith

-- The session after an alert: nothing was called, and every torrent is still past the claim.
abbrev Quiet : Session → Session → Type 0
Quiet s s' = Settled s' × (s'.calls ≡ s.calls)

module _ (e : Place) (found : Text → List Text) (names : List Text) where
  finish-Quiet :
      (p : ℕ) (t : TorrentDownloader) (s : Session)
      → is_ok t.reap_status ≡ false
      → Settled s
      → Quiet s (finish p t s)
  unfolding finish download_done
  finish-Quiet p t s h k =
      let (none_called, still) =
        complete_settled (record t.base { status = downloaded; tip = false }) h in
      (put-Settled p (download_done t).0 s still k, rw none_called (append-nil s.calls))

  on_torrent-Quiet :
      (o : Option (ℕ × TorrentDownloader)) (f : ℕ → TorrentDownloader → Session → Session)
      (s : Session)
      → ((p : ℕ) (t : TorrentDownloader) → o ≡ some (p, t) → Quiet s (f p t s))
      → Settled s
      → Quiet s (on_torrent o f s)
  unfolding on_torrent
  on_torrent-Quiet none f s h k = (k, refl)
  on_torrent-Quiet (some (p, t)) f s h k = h p t refl

  handle_alert-Quiet :
      (x : Alert) (s : Session) → Settled s → Quiet s (handle_alert e found names x s)
  unfolding handle_alert announce save_resume
  handle_alert-Quiet (tracker_announce h) s k =
      on_torrent-Quiet (torrent_of h s) (announce found names) s
        (λ p t eq. (
          put-Settled p (change_permissions found names t).0 s
              (rw (permissions_settled found names t) (torrent_of-Settled h s p t k eq)) k,
          refl,
        ))
        k
  handle_alert-Quiet (torrent_finished h) s k =
      on_torrent-Quiet (torrent_of h s) finish s
        (λ p t eq. finish-Quiet p t s (torrent_of-Settled h s p t k eq) k) k
  handle_alert-Quiet (save_resume_data h) s k =
      on_torrent-Quiet (torrent_of h s) (save_resume e) s
        (λ p t eq. (
          put-Settled p (do_write_resume_data e t).0 s
              (rw (resume_settled e t) (torrent_of-Settled h s p t k eq)) k,
          refl,
        ))
        k
  handle_alert-Quiet (save_resume_data_failed h) s k =
      on_torrent-Quiet (torrent_of h s) (λ p t s'. record s' { resumed = s'.resumed ++ p ∷ [] }) s
        (λ p t eq. (k, refl)) k
  handle_alert-Quiet logged s k = (k, refl)

-- Once every torrent is past the claim of Complete, no sequence of alerts calls a callback.
pub alerts_call_once :
    (e : Place) (found : Text → List Text) (names : List Text) (xs : List Alert) (s : Session)
    → Settled s
    → Settled (handle_alerts e found names xs s)
      × ((handle_alerts e found names xs s).calls ≡ s.calls)
unfolding handle_alerts
alerts_call_once e found names [] s k = (k, refl)
alerts_call_once e found names (x ∷ xs) s k =
    let (k', same) = handle_alert-Quiet e found names x s k in
    let (still, calls) = alerts_call_once e found names xs (handle_alert e found names x s) k' in
    (still, calls ∙ same)
