-- ===== src/TorrentDownloader/Resume.antt =====
-- TorrentDownloader.cpp, WriteResumeData against the alert thread: the caller asks libtorrent for the
-- resume data and then waits on m_resumewritten, which the alert thread notifies. A thread that waits
-- goes on when it is notified.
use filetransferdaemon.Prelude.{◌≡◌, refl, true}
use filetransferdaemon.TorrentDownloader.{TorrentDownloader}
use filetransferdaemon.TorrentDownloader.Files.{Place, do_write_resume_data}

-- The caller before save_resume_data, after it, in Wait, and back.
pub data Caller : Type 0 where
  paused requested asleep back : Caller

-- libtorrent before the request, at work, with the alert in its queue, and after it was popped.
pub data Saving : Type 0 where
  idle working alerted handled : Saving

pub record System : Type 0 where
  pub torrent : TorrentDownloader
  pub caller : Caller
  pub saving : Saving

-- m_resumewritten.Notify()
abbrev wake : Caller → Caller
wake asleep = back
wake paused = paused
wake requested = requested
wake back = back

-- The alert is one of data or of a failure: only the first is written.
pub data Step (e : Place) (s : System) : System → Type 0 where
  requests :
      s.caller ≡ paused
      → s.torrent.is_valid ≡ true
      → Step e s (record s { caller = requested; saving = working })
  waits : s.caller ≡ requested → Step e s (record s { caller = asleep })
  posts : s.saving ≡ working → Step e s (record s { saving = alerted })
  writes :
      s.saving ≡ alerted
      → Step e s (record {
        torrent = (do_write_resume_data e s.torrent).0;
        caller = wake s.caller;
        saving = handled;
      })
  fails : s.saving ≡ alerted → Step e s (record s { caller = wake s.caller; saving = handled })

pub data Steps (e : Place) (s : System) : System → Type 0 where
  none_yet : Steps e s s
  further : {t u : System} → Steps e s t → Step e t u → Steps e s u

-- StopDownload of a torrent, after pause().
abbrev pub initial : TorrentDownloader → System
initial t = record { torrent = t; caller = paused; saving = idle }

record IsLost (s : System) : Type 0 where
  asleep_still : s.caller ≡ asleep
  handled_before : s.saving ≡ handled

Step-IsLost : {e : Place} {s t : System} → Step e s t → IsLost s → IsLost t
Step-IsLost (requests c ok) h = absurd (cc (h.asleep_still, c))
Step-IsLost (waits c) h = absurd (cc (h.asleep_still, c))
Step-IsLost (posts c) h = absurd (cc (h.handled_before, c))
Step-IsLost (writes c) h = absurd (cc (h.handled_before, c))
Step-IsLost (fails c) h = absurd (cc (h.handled_before, c))

Steps-IsLost : {e : Place} {s t : System} → Steps e s t → IsLost s → IsLost t
Steps-IsLost none_yet h = h
Steps-IsLost (further r st) h = Step-IsLost st (Steps-IsLost r h)

-- Any torrent with a valid handle that is stopped can come to have its resume data written before its caller waits for
-- that, and the caller then waits for ever, whatever any thread does.
pub resume_lost :
    (e : Place) (t : TorrentDownloader)
    → t.is_valid ≡ true
    → (s : System) × Steps e (initial t) s
      × (s.torrent ≡ (do_write_resume_data e t).0)
      × ((u : System) → Steps e s u → u.caller ≡ asleep)
resume_lost e t ok =
    let begun : Steps e (initial t) (initial t) = none_yet in
    let asked = further (further begun (requests refl ok)) (posts refl) in
    let end = further (further asked (writes refl)) (waits refl) in
    (
      _,
      end,
      refl,
      λ u r. (Steps-IsLost r (record { asleep_still = refl; handled_before = refl })).asleep_still,
    )
