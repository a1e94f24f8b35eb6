-- ===== src/Downloader/Waiting.antt =====
-- Downloader.cpp, WaitForCompletion against Complete, as threads run them. Of the threads in Complete
-- one gets past the claim; `stage` is where it stands. A call that takes and releases one mutex is
-- one step. A thread that waits on the condition goes on when it is notified.
use filetransferdaemon.Prelude.{
  ℕ, ◌≡◌, refl, ap, Bool, true, false, List, [], ◌++◌, ◌==◌, if◌then◌else◌, arith,
}
use filetransferdaemon.Downloader.{
  Downloader, ok, reap_ok, is_call_done, claim, conclude, invoke_callbacks,
}

-- Before the claim; after it; after NotifyAll; after InvokeCallbacks; after the last section.
pub data Stage : Type 0 where
  unclaimed taken notified called closed : Stage

-- A thread outside WaitForCompletion; past ReapOK with its answer; waiting on the condition; back.
pub data Pc : Type 0 where
  outside : Pc
  checked : Bool → Pc
  asleep back : Pc

pub record System : Type 0 where
  pub dl : Downloader
  pub stage : Stage
  pub calls : List (ℕ × ℕ)
  pub pc : ℕ → Pc

abbrev move : System → ℕ → Pc → System
move s i p = record s { pc = λ j. if i == j then p else s.pc j }

-- completion.NotifyAll()
abbrev wake : Pc → Pc
wake asleep = back
wake outside = outside
wake (checked b) = checked b
wake back = back

pub data Step (s : System) : System → Type 0 where
  claims : s.stage ≡ unclaimed → Step s (record s { dl = (claim s.dl).0; stage = taken })
  notifies : s.stage ≡ taken → Step s (record s { stage = notified; pc = λ i. wake (s.pc i) })
  invokes :
      s.stage ≡ notified
      → Step s (record s { calls = s.calls ++ invoke_callbacks s.dl.callbacks; stage = called })
  concludes : s.stage ≡ called → Step s (record s { dl = conclude s.dl; stage = closed })
  checks : (i : ℕ) → s.pc i ≡ outside → Step s (move s i (checked (reap_ok s.dl)))
  sleeps : (i : ℕ) → s.pc i ≡ checked false → Step s (move s i asleep)
  passes : (i : ℕ) → s.pc i ≡ checked true → Step s (move s i back)

pub data Steps (s : System) : System → Type 0 where
  none_yet : Steps s s
  further : {t u : System} → Steps s t → Step t u → Steps s u

-- A download that nobody has completed, and nobody waits.
abbrev pub initial : Downloader → System
initial d = record {
  dl = record d { reap_status = ok };
  stage = unclaimed;
  calls = [];
  pc = λ i. outside;
}

abbrev has_notified : Stage → Bool
has_notified unclaimed = false
has_notified taken = false
has_notified notified = true
has_notified called = true
has_notified closed = true

notified_stays :
    {s t : System} → Step s t → has_notified s.stage ≡ true → has_notified t.stage ≡ true
notified_stays (claims e) h = ground arith
notified_stays (notifies e) h = refl
notified_stays (invokes e) h = refl
notified_stays (concludes e) h = refl
notified_stays (checks i e) h = h
notified_stays (sleeps i e) h = h
notified_stays (passes i e) h = h

asleep_stays :
    {s t : System} (k : ℕ)
    → Step s t
    → has_notified s.stage ≡ true
    → s.pc k ≡ asleep
    → t.pc k ≡ asleep
asleep_stays k (claims e) h a = a
asleep_stays k (notifies e) h a = ground arith
asleep_stays k (invokes e) h a = a
asleep_stays k (concludes e) h a = a
asleep_stays k (checks i e) h a = ground arith
asleep_stays k (sleeps i e) h a = ground arith
asleep_stays k (passes i e) h a = ground arith

asleep_for_ever :
    {s t : System} (k : ℕ)
    → Steps s t
    → has_notified s.stage ≡ true
    → s.pc k ≡ asleep
    → (has_notified t.stage ≡ true) × (t.pc k ≡ asleep)
asleep_for_ever k none_yet h a = (h, a)
asleep_for_ever k (further r st) h a =
    let (h', a') = asleep_for_ever k r h a in (notified_stays st h', asleep_stays k st h' a')

-- A thread that waits on the condition after Complete has notified it waits for ever, whatever any
-- thread does.
notified_too_early :
    {s t : System} (k : ℕ)
    → Steps s t
    → has_notified s.stage ≡ true
    → s.pc k ≡ asleep
    → t.pc k ≡ asleep
notified_too_early k r h a = (asleep_for_ever k r h a).1

-- Unless a download was cancelled before it started, a thread can call WaitForCompletion such that
-- the download comes to be completed, so that nobody would have to wait, and the thread waits for
-- ever, whatever any thread does.
pub wakeup_lost :
    (d : Downloader)
    → reap_ok (record d { reap_status = ok }) ≡ false
    → (s : System) × Steps (initial d) s
      × (reap_ok s.dl ≡ true)
      × (s.stage ≡ closed)
      × ((t : System) → Steps s t → t.pc 0 ≡ asleep)
unfolding claim conclude reap_ok is_call_done
wakeup_lost d h =
    let start : Steps (initial d) (initial d) = none_yet in
    let run = further (further start (claims refl)) (notifies refl) in
    let slept = further (further run (checks 0 refl)) (sleeps 0 (ap checked h)) in
    let end = further (further slept (invokes refl)) (concludes refl) in
    (_, end, refl, refl, λ t r. notified_too_early 0 r refl refl)
