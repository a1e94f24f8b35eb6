-- ===== src/CurlDownloader/Run/Endings/Kept.antt =====
-- CurlDownloader.cpp: what the callbacks of libcurl and a cancel leave alone.
use filetransferdaemon.Prelude.{
  ◌≡◌, refl, inl, inr, Bool-cases, ◌∙◌, Bool, true, false, ◌||◌, List, [], ◌∷◌, arith,
  if◌then◌else◌,
}
use filetransferdaemon.Downloader.{
  cancel_download, register_completion_callback, register_locked, queued, in_progress,
}
use filetransferdaemon.Platform.{Library}
use filetransferdaemon.CurlDownloader.{CurlDownloader, cb_progress, write_content}
use filetransferdaemon.CurlDownloader.Headers.{on_header}
use filetransferdaemon.CurlDownloader.Run.{
  Event, progress, content, header, canceled, cancel_from, on_event, on_events, Transfer,
  curle_obsolete, perform, late, check_response, set_status,
}

pub record Kin (c c' : CurlDownloader) : Type 0 where
  pub url : c'.url ≡ c.url
  pub user : c'.user ≡ c.user
  pub uuid : c'.uuid ≡ c.uuid
  pub path : c'.destination_path ≡ c.destination_path
  pub name : c'.destination_name ≡ c.destination_name
  pub reap : c'.reap_status ≡ c.reap_status
  pub done : c'.signal_done ≡ c.signal_done
  pub failed : c'.signal_failed ≡ c.signal_failed
  pub own : c'.my_dest ≡ c.my_dest
  pub head : c'.headers_only ≡ c.headers_only

abbrev is_canceled : Event → Bool
is_canceled (canceled by) = true
is_canceled _ = false

abbrev pub any_canceled : List Event → Bool
any_canceled [] = false
any_canceled (e ∷ es) = is_canceled e || any_canceled es

on_event-Kin : (lib : Library) (e : Event) (c : CurlDownloader) → Kin c (on_event lib e c)
unfolding on_event cb_progress write_content on_header cancel_from cancel_download
    register_completion_callback register_locked
on_event-Kin lib (progress speed dltotal dlnow) c = ground arith
on_event-Kin lib (content fits bytes) c = ground arith
on_event-Kin lib (header rhs_first line) c = ground arith
on_event-Kin lib (canceled by) c = ground arith

on_event-status :
    (lib : Library) (e : Event) (c : CurlDownloader) → (on_event lib e c).status ≡ c.status
unfolding on_event cb_progress write_content on_header cancel_from cancel_download
    register_completion_callback register_locked
on_event-status lib (progress speed dltotal dlnow) c = ground arith
on_event-status lib (content fits bytes) c = ground arith
on_event-status lib (header rhs_first line) c = ground arith
on_event-status lib (canceled by) c = ground arith

on_event-cancel :
    (lib : Library) (e : Event) (c : CurlDownloader)
    → (on_event lib e c).cancel ≡ c.cancel || is_canceled e
unfolding on_event cb_progress write_content on_header cancel_from cancel_download
    register_completion_callback register_locked
on_event-cancel lib (progress speed dltotal dlnow) c = ground arith
on_event-cancel lib (content fits bytes) c = ground arith
on_event-cancel lib (header rhs_first line) c = ground arith
on_event-cancel lib (canceled by) c = ground arith

on_events-Kin : (lib : Library) (es : List Event) (c : CurlDownloader) → Kin c (on_events lib es c)
unfolding on_events
on_events-Kin lib [] c = ground arith
on_events-Kin lib (e ∷ es) c =
    ground (arith, on_event-Kin lib e c, on_events-Kin lib es (on_event lib e c))

-- No callback of libcurl changes the status: a cancel during the transfer is seen by its flag.
on_events-status :
    (lib : Library) (es : List Event) (c : CurlDownloader) → (on_events lib es c).status ≡ c.status
unfolding on_events
on_events-status lib [] c = ground arith
on_events-status lib (e ∷ es) c =
    on_events-status lib es (on_event lib e c) ∙ on_event-status lib e c

on_events-cancel :
    (lib : Library) (es : List Event) (c : CurlDownloader)
    → (on_events lib es c).cancel ≡ c.cancel || any_canceled es
unfolding on_events
on_events-cancel lib [] c = ground arith
on_events-cancel lib (e ∷ es) c =
    ground (arith, on_event-cancel lib e c, on_events-cancel lib es (on_event lib e c))

-- The object when the transfer is over, cancelled late or not.
pub record Performed (lib : Library) (t : Transfer) (c : CurlDownloader) : Type 0 where
  pub kin : Kin c (late t (perform lib t c).0)
  pub status : (late t (perform lib t c).0).status ≡ (if c.cancel then queued else in_progress)
  pub cancel :
      (late t (perform lib t c).0).cancel ≡ c.cancel || (any_canceled t.events || t.late_cancel)
  pub code :
      (perform lib t c).1
      ≡ (if c.cancel then curle_obsolete else check_response lib c.url t.response t.result)

pub perform-Performed :
    (lib : Library) (t : Transfer) (c : CurlDownloader) → c.status ≡ queued → Performed lib t c
unfolding perform late cancel_from cancel_download register_completion_callback register_locked
perform-Performed lib t c q = elim (Bool-cases c.cancel) [
  | inl h ↦ record {
    kin = ground arith;
    status = ground arith;
    cancel = ground arith;
    code = ground arith;
  }
  | inr h ↦
      let c' = set_status in_progress true c in
      record {
        kin = ground (arith, on_events-Kin lib t.events c');
        status = ground (arith, on_events-status lib t.events c');
        cancel = ground (arith, on_events-cancel lib t.events c');
        code = ground (arith, on_events-Kin lib t.events c');
      }
]

on_event-callbacks :
    (lib : Library) (e : Event) (c : CurlDownloader)
    → is_canceled e ≡ false
    → (on_event lib e c).callbacks ≡ c.callbacks
unfolding on_event cb_progress write_content on_header
on_event-callbacks lib (progress speed dltotal dlnow) c h = ground arith
on_event-callbacks lib (content fits bytes) c h = ground arith
on_event-callbacks lib (header rhs_first line) c h = ground arith
on_event-callbacks lib (canceled by) c h = cc

on_events-callbacks :
    (lib : Library) (es : List Event) (c : CurlDownloader)
    → any_canceled es ≡ false
    → (on_events lib es c).callbacks ≡ c.callbacks
unfolding on_events
on_events-callbacks lib [] c h = refl
on_events-callbacks lib (e ∷ es) c h =
    ground (arith, on_event-callbacks lib e c, on_events-callbacks lib es (on_event lib e c))

-- Nobody cancels the download during or just after the transfer.
abbrev pub IsUndisturbed : Transfer → Type 0
IsUndisturbed t = (any_canceled t.events ≡ false) × (t.late_cancel ≡ false)

pub perform-callbacks :
    (lib : Library) (t : Transfer) (c : CurlDownloader)
    → IsUndisturbed t
    → (late t (perform lib t c).0).callbacks ≡ c.callbacks
unfolding perform late
perform-callbacks lib t c (during, after) =
    ground (arith, on_events-callbacks lib t.events (set_status in_progress true c) during)
