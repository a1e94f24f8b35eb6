-- ===== src/TorrentDownloadManager/Session.antt =====
-- TorrentDownloader.cpp, the thread of TorrentDownloadManager: how it sets up the session of
-- libtorrent, what it does with each alert, and how it is shut down. The calls on the session are a
-- list; an alert is known by its kind and its handle.
use filetransferdaemon.Prelude.{
  ℕ, ℤ, pos, negsuc, Bool, true, false, Option, none, some, List, [], ◌∷◌, ◌++◌, Text, codes, ◌==◌,
  if◌then◌else◌,
}
use filetransferdaemon.Platform.{Effect, Outcome, returned, thrown}
use filetransferdaemon.FtdConfig.{
  FtdConfig, get_bool_or_default, get_integer_or_default, get_string_or_default,
}
use filetransferdaemon.TorrentDownloader.{
  TorrentDownloader, change_permissions, download_done, update,
}
use filetransferdaemon.TorrentDownloader.Files.{Place, do_write_resume_data}
use filetransferdaemon.TorrentDownloadManager.{
  TorrentDownloadManager, find_downloader, set_download_throttle, set_upload_throttle,
}

pub data SessionCall : Type 0 where
  set_alert_mask set_settings : SessionCall
  add_extension : Text → SessionCall
  set_dht_port : ℤ → SessionCall
  start_dht : Bool → SessionCall
  add_dht_router : Text → ℕ → SessionCall
  set_max_uploads set_max_half_open_connections : ℤ → SessionCall
  listen_on : ℤ → ℤ → SessionCall
  set_download_rate_limit set_upload_rate_limit : ℤ → SessionCall

call_if : Bool → List SessionCall → List SessionCall
call_if true calls = calls
call_if false calls = []

extensions : FtdConfig → List SessionCall
unfolding get_bool_or_default call_if
extensions cfg =
    call_if (get_bool_or_default cfg (codes "torrent") (codes "metadatasupport") true)
      (add_extension (codes "metadata") ∷ [])
    ++ call_if (get_bool_or_default cfg (codes "torrent") (codes "peerexchangesupport") true)
        (add_extension (codes "ut_pex") ∷ [])

-- `has_state` is whether dhtstate is a file that decodes.
dht : FtdConfig → Bool → List SessionCall
unfolding get_bool_or_default get_integer_or_default call_if
dht cfg has_state = call_if (get_bool_or_default cfg (codes "torrent") (codes "dhtsupport") false) (
    set_dht_port
      (get_integer_or_default cfg (codes "torrent") (codes "listenportstart") (pos 10000))
    ∷ start_dht has_state
    ∷ add_dht_router (codes "router.bittorrent.com") 6881
    ∷ add_dht_router (codes "router.utorrent.com") 6881
    ∷ add_dht_router (codes "router.bitcomet.com") 6881
    ∷ [])

limits : FtdConfig → List SessionCall
unfolding get_integer_or_default
limits cfg =
    set_max_uploads (get_integer_or_default cfg (codes "torrent") (codes "maxuploads") (pos 8))
    ∷ set_max_half_open_connections
        (get_integer_or_default cfg (codes "torrent") (codes "maxhalfopenconnections") (negsuc 0))
    ∷ set_settings
    ∷ listen_on (get_integer_or_default cfg (codes "torrent") (codes "listenportstart") (pos 10000))
        (get_integer_or_default cfg (codes "torrent") (codes "listenportend") (pos 14000))
    ∷ []

-- The calls up to listen_on.
unfoldable session_setup : FtdConfig → Bool → List SessionCall
unfolding extensions dht limits
session_setup cfg has_state = set_alert_mask ∷ (extensions cfg ++ (dht cfg has_state ++ limits cfg))

-- The throttles of the configuration, which setting them also writes back.
unfoldable pub start_throttles : FtdConfig → TorrentDownloadManager → TorrentDownloadManager
unfolding get_integer_or_default
start_throttles cfg m =
    set_upload_throttle (get_integer_or_default cfg (codes "torrent") (codes "maxupload") (pos 0)) (
      set_download_throttle
        (get_integer_or_default cfg (codes "torrent") (codes "maxdownload") (pos 0)) m)

-- Run, up to its loop: an exception leaves the thread, and with it the process.
unfoldable pub start_session :
    FtdConfig
    → (has_state listens : Bool) → TorrentDownloadManager
    → Outcome (TorrentDownloadManager × List SessionCall)
unfolding session_setup start_throttles
start_session cfg has_state listens m =
    let m' = record m { is_running = true } in
    if listens
    then returned (start_throttles cfg m', session_setup cfg has_state)
    else thrown (codes "Could not open a listening port.")

-- Shutdown: the watcher is stopped too. The answer is the file of the DHT's state, if it is written.
unfoldable shut_down_session :
    FtdConfig → (Text → Bool) → TorrentDownloadManager → TorrentDownloadManager × Option Text
unfolding get_bool_or_default get_string_or_default
shut_down_session cfg dir_exists m =
    let dir = get_string_or_default cfg (codes "general") (codes "statedir") (codes "/etc/ftd") in
    (
      record m { is_running = false },
      if get_bool_or_default cfg (codes "torrent") (codes "dhtsupport") false
          then if dir_exists dir then some (dir ++ codes "/dhtstate") else none
          else none,
    )

-- The alerts that do something; all the others are logged.
pub data Alert : Type 0 where
  tracker_announce torrent_finished save_resume_data save_resume_data_failed : ℕ → Alert
  logged : Alert

-- The manager with the objects of its torrents, the callbacks called and the torrents whose
-- m_resumewritten was notified.
pub record Session : Type 0 where
  pub manager : TorrentDownloadManager
  pub torrents : ℕ → Option TorrentDownloader
  pub effects : List Effect
  pub calls : List (ℕ × ℕ)
  pub resumed : List ℕ

abbrev pub put : ℕ → TorrentDownloader → Session → Session
put p t s = record s { torrents = λ q. if q == p then some t else s.torrents q }

-- The torrent that FindDownloader answers for a handle.
unfoldable pub torrent_of : ℕ → Session → Option (ℕ × TorrentDownloader)
torrent_of h s = elim (find_downloader h s.manager) [
  | none ↦ none
  | some p ↦ elim (s.torrents p) [ none ↦ none | some t ↦ some (p, t) ]
]

unfoldable pub finish : ℕ → TorrentDownloader → Session → Session
finish p t s =
    let (t', calls, effects) = download_done t in
    put p t' (record s { calls = s.calls ++ calls; effects = s.effects ++ effects })

unfoldable pub announce : (Text → List Text) → List Text → ℕ → TorrentDownloader → Session → Session
announce found names p t s =
    let (t', effects) = change_permissions found names t in
    put p t' (record s { effects = s.effects ++ effects })

unfoldable pub save_resume : Place → ℕ → TorrentDownloader → Session → Session
save_resume e p t s =
    let (t', effects) = do_write_resume_data e t in
    put p t' (record s { effects = s.effects ++ effects; resumed = s.resumed ++ p ∷ [] })

unfoldable pub on_torrent :
    Option (ℕ × TorrentDownloader) → (ℕ → TorrentDownloader → Session → Session) → Session → Session
on_torrent none f s = s
on_torrent (some (p, t)) f s = f p t s

-- One alert. `found` and `names` are what ChangePermissions finds.
unfoldable pub handle_alert : Place → (Text → List Text) → List Text → Alert → Session → Session
unfolding on_torrent
handle_alert e found names (tracker_announce h) s =
    on_torrent (torrent_of h s) (announce found names) s
handle_alert e found names (torrent_finished h) s = on_torrent (torrent_of h s) finish s
handle_alert e found names (save_resume_data h) s = on_torrent (torrent_of h s) (save_resume e) s
handle_alert e found names (save_resume_data_failed h) s =
    on_torrent (torrent_of h s) (λ p t s'. record s' { resumed = s'.resumed ++ p ∷ [] }) s
handle_alert e found names logged s = s

-- HandleAlerts: until no alert is left.
unfoldable pub handle_alerts :
    Place → (Text → List Text) → List Text → List Alert → Session → Session
handle_alerts e found names [] s = s
handle_alerts e found names (x ∷ xs) s =
    handle_alerts e found names xs (handle_alert e found names x s)

update_at : (ℕ → ℕ × ℕ) → ℕ → Option TorrentDownloader → Session → Session
update_at wanted p none s = s
update_at wanted p (some t) s = put p (update (wanted p).0 (wanted p).1 t) s

-- UpdateDownloaders: `wanted` is what libtorrent says of each torrent.
unfoldable update_downloaders : (ℕ → ℕ × ℕ) → List ℕ → Session → Session
unfolding update_at
update_downloaders wanted [] s = s
update_downloaders wanted (p ∷ ps) s =
    update_downloaders wanted ps (update_at wanted p (s.torrents p) s)

-- One round of the loop of Run.
unfoldable session_round :
    Place → (Text → List Text) → List Text → (ℕ → ℕ × ℕ) → List Alert → Session → Session
session_round e found names wanted alerts s =
    let s' = handle_alerts e found names alerts s in
    update_downloaders wanted s'.manager.downloaders s'
