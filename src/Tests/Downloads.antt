-- ===== src/Tests/Downloads.antt =====
-- Concrete runs of Downloader.cpp, in one thread and in three.
use mathlib.Core.List.{Perm, Mem}
use filetransferdaemon.Prelude.{ℕ, ◌≡◌, ◌⊎◌, refl, true, false, none, some, List, [], ◌∷◌, ◌++◌}
use filetransferdaemon.Downloader.{
  Downloader, queued, ok, call_in_progress, complete, register_completion_callback, reap_ok,
  wait_for_completion, invoke_callbacks,
}
use filetransferdaemon.Downloader.Completion.{complete_twice, complete-register}
use filetransferdaemon.Downloader.Threads.{
  Pc, outside, registering, reg_inside, reg_checked, reg_returned, completing, claiming, claimed,
  invoking, invoked, update, set_reap, push_if, System, Reach, start, next, call_register,
  lock_register, check, push_unlock, call_complete, lock_claim, claim_unlock, lock_invoke,
  invoke_unlock,
}
use filetransferdaemon.Downloader.Races.{completed_called_all, registered_is_called}
use filetransferdaemon.Tests.{download}

abbrev d : Downloader
d = download queued ok

complete_twice_example :
    (complete (complete d).0 ≡ ((complete d).0, []))
    × (reap_ok (complete d).0 ≡ true)
    × (wait_for_completion (complete d).0 ≡ false)
    × (register_completion_callback (some 8) 9 (complete d).0 ≡ ((complete d).0, false))
complete_twice_example = complete_twice d 8 9 refl

complete-register_example :
    ((register_completion_callback (some 8) 9 d).1 ≡ true)
      × Perm (complete (register_completion_callback (some 8) 9 d).0).1 ((8, 9) ∷ (complete d).1)
    ⊎ ((register_completion_callback (some 8) 9 d).1 ≡ false)
      × ((register_completion_callback (some 8) 9 d).0 ≡ d)
complete-register_example = complete-register 8 9 d

-- Thread 1 registers a callback, and then thread 0 completes the download, as far as the calls.
abbrev pcs : List (ℕ × Pc) → ℕ → Pc
pcs [] = λ i. outside
pcs ((i, p) ∷ m) = update (pcs m) i p

abbrev registered : Downloader
registered = set_reap call_in_progress (push_if true 8 9 (set_reap ok d))

abbrev after_calls : System
after_calls = record {
  dl = registered;
  cb_owner = none;
  reap_owner = none;
  pc = pcs (
      (0, invoked)
      ∷ (0, invoking)
      ∷ (0, claimed)
      ∷ (0, claiming)
      ∷ (0, completing)
      ∷ (1, reg_returned true 8 9)
      ∷ (1, reg_checked true 8 9)
      ∷ (1, reg_inside 8 9)
      ∷ (1, registering 8 9)
      ∷ []);
  called = [] ++ invoke_callbacks registered.callbacks;
}

abbrev run_of : Reach d after_calls
run_of =
    next
      (next
        (next
          (next
            (next
              (next
                (next (next (next start (call_register 1 8 9 refl)) (lock_register 1 8 9 refl refl))
                  (check 1 8 9 true refl refl))
                (push_unlock 1 8 9 true refl))
              (call_complete 0 refl))
            (lock_claim 0 refl refl))
          (claim_unlock 0 refl refl))
        (lock_invoke 0 refl refl))
      (invoke_unlock 0 refl)

completed_called_all_example : after_calls.called ≡ invoke_callbacks after_calls.dl.callbacks
completed_called_all_example = completed_called_all run_of 0 refl

registered_is_called_example : Mem (8, 9) after_calls.called
registered_is_called_example = registered_is_called run_of 0 refl 1 8 9 refl
