-- ===== src/Downloader/Threads.antt =====
-- Downloader.cpp, RegisterCompletionCallback and Complete as threads run them. Each call is a
-- thread of its own. A mutex is the thread that holds it; taking it waits until it is free. What
-- stands between two accesses to shared data is one step.
use filetransferdaemon.Prelude.{
  ℕ, ◌≡◌, Bool, true, false, Option, none, some, List, [], ◌++◌, ◌==◌, if◌then◌else◌,
}
use filetransferdaemon.Downloader.{
  Downloader, CallbackState, ok, call_in_progress, call_done, push_callback, invoke_callbacks,
}

-- Where a thread stands: outside, in RegisterCompletionCallback, or in Complete.
pub data Pc : Type 0 where
  outside : Pc
  registering reg_inside : ℕ → ℕ → Pc
  reg_checked reg_returned : Bool → ℕ → ℕ → Pc
  completing claiming claimed invoking invoked concluding completed repeated : Pc

pub record System : Type 0 where
  pub dl : Downloader
  pub cb_owner : Option ℕ
  pub reap_owner : Option ℕ
  pub pc : ℕ → Pc
  pub called : List (ℕ × ℕ)

abbrev pub update : (ℕ → Pc) → ℕ → Pc → ℕ → Pc
update f i p j = if i == j then p else f j

abbrev pub move : System → ℕ → Pc → System
move s i p = record s { pc = update s.pc i p }

abbrev pub set_reap : CallbackState → Downloader → Downloader
set_reap r d = record d { reap_status = r }

abbrev pub is_open : CallbackState → Bool
is_open ok = true
is_open call_in_progress = false
is_open call_done = false

abbrev pub push_if : Bool → ℕ → ℕ → Downloader → Downloader
push_if true cb payload d = record d { callbacks = push_callback cb payload d.callbacks }
push_if false cb payload d = d

pub data Step (s : System) : System → Type 0 where
  call_register : (i cb payload : ℕ) → s.pc i ≡ outside → Step s (move s i (registering cb payload))
  lock_register :
      (i cb payload : ℕ)
      → s.pc i ≡ registering cb payload
      → s.cb_owner ≡ none
      → Step s (record s { cb_owner = some i; pc = update s.pc i (reg_inside cb payload) })
  check :
      (i cb payload : ℕ) (accepted : Bool)
      → s.pc i ≡ reg_inside cb payload
      → accepted ≡ is_open s.dl.reap_status
      → Step s (move s i (reg_checked accepted cb payload))
  push_unlock :
      (i cb payload : ℕ) (accepted : Bool)
      → s.pc i ≡ reg_checked accepted cb payload
      → Step s (record s {
        dl = push_if accepted cb payload s.dl;
        cb_owner = none;
        pc = update s.pc i (reg_returned accepted cb payload);
      })
  call_complete : (i : ℕ) → s.pc i ≡ outside → Step s (move s i completing)
  lock_claim :
      (i : ℕ)
      → s.pc i ≡ completing
      → s.reap_owner ≡ none
      → Step s (record s { reap_owner = some i; pc = update s.pc i claiming })
  claim_unlock :
      (i : ℕ)
      → s.pc i ≡ claiming
      → s.dl.reap_status ≡ ok
      → Step s (record s {
        dl = set_reap call_in_progress s.dl;
        reap_owner = none;
        pc = update s.pc i claimed;
      })
  repeat_unlock :
      (i : ℕ)
      → s.pc i ≡ claiming
      → is_open s.dl.reap_status ≡ false
      → Step s (record s { reap_owner = none; pc = update s.pc i repeated })
  lock_invoke :
      (i : ℕ)
      → s.pc i ≡ claimed
      → s.cb_owner ≡ none
      → Step s (record s { cb_owner = some i; pc = update s.pc i invoking })
  invoke_unlock :
      (i : ℕ)
      → s.pc i ≡ invoking
      → Step s (record s {
        called = s.called ++ invoke_callbacks s.dl.callbacks;
        cb_owner = none;
        pc = update s.pc i invoked;
      })
  lock_conclude :
      (i : ℕ)
      → s.pc i ≡ invoked
      → s.reap_owner ≡ none
      → Step s (record s { reap_owner = some i; pc = update s.pc i concluding })
  conclude_unlock :
      (i : ℕ)
      → s.pc i ≡ concluding
      → Step s (record s {
        dl = set_reap call_done s.dl;
        reap_owner = none;
        pc = update s.pc i completed;
      })

-- Any number of threads, all outside, on a download that nobody has completed.
abbrev pub initial : Downloader → System
initial d = record {
  dl = set_reap ok d;
  cb_owner = none;
  reap_owner = none;
  pc = λ i. outside;
  called = [];
}

pub data Reach (d : Downloader) : System → Type 0 where
  start : Reach d (initial d)
  next : {s t : System} → Reach d s → Step s t → Reach d t
