-- ===== src/Downloader/Races.antt =====
-- Downloader.cpp: what no interleaving of registrations and completions can break.
mod Invariant
mod Locks
mod Calls
mod Kept
use mathlib.Core.List.{Mem, mem-cons, Perm, append-nil}
use mathlib.Core.List.Perm
use filetransferdaemon.Prelude.{
  ℕ, ◌≡◌, refl, ◌⊎◌, inl, inr, Bool, true, false, Option, none, some, List, [], ◌++◌, ◌==◌, ==_iff,
  Bool-cases, if◌then◌else◌, arith,
}
use filetransferdaemon.Downloader.{
  Downloader, CallbackState, ok, call_in_progress, call_done, push_callback, invoke_callbacks,
}
use filetransferdaemon.Downloader.Threads.{
  Pc, outside, registering, reg_inside, reg_checked, reg_returned, completing, claiming, claimed,
  invoking, invoked, concluding, completed, repeated, System, update, move, set_reap, is_open,
  push_if, Step, call_register, lock_register, check, push_unlock, call_complete, lock_claim,
  claim_unlock, repeat_unlock, lock_invoke, invoke_unlock, lock_conclude, conclude_unlock, initial,
  Reach, start, next,
}
use Invariant.{has_claimed, has_invoked, Inv, initial-Inv}
use Kept.{Reach-Inv}

-- When a thread has returned from the calls of Complete, the calls made are those that stand
-- registered, each once and in order.
pub completed_called_all :
    {d : Downloader} {s : System}
    → Reach d s
    → (i : ℕ) → has_invoked (s.pc i) ≡ true
    → s.called ≡ invoke_callbacks s.dl.callbacks
completed_called_all r i h = (Reach-Inv r).all_called i h

-- When a thread has returned from the calls of Complete, every callback whose registration returned
-- true in any thread is among the calls made.
pub registered_is_called :
    {d : Downloader} {s : System}
    → Reach d s
    → (i : ℕ) → has_invoked (s.pc i) ≡ true
    → (k cb payload : ℕ) → s.pc k ≡ reg_returned true cb payload
    → Mem (cb, payload) s.called
registered_is_called {s} r i h k cb payload e =
    let v = Reach-Inv r in rw (v.all_called i h) (v.kept k cb payload e)

called-Step :
    {s t : System} → Inv s → Step s t → (i : ℕ) → has_invoked (s.pc i) ≡ true → t.called ≡ s.called
called-Step v (call_register k cb payload e) i h = refl
called-Step v (invoke_unlock k e) i h = absurd (ground (arith, v.one_claim i k))
called-Step v _ i h = refl

-- Of any number of threads in Complete at most one is past the claim, once one has made the calls.
pub complete_claimed_once :
    {d : Downloader} {s : System}
    → Reach d s
    → (i j : ℕ) → has_invoked (s.pc i) ≡ true
    → has_claimed (s.pc j) ≡ true
    → i ≡ j
complete_claimed_once r i j h c = (Reach-Inv r).one_claim i j (ground arith) c

-- Once a thread has made the calls of Complete, no later step of any thread makes another.
pub complete_once :
    {d : Downloader} {s t : System}
    → Reach d s
    → Step s t
    → (i : ℕ) → has_invoked (s.pc i) ≡ true
    → t.called ≡ s.called
complete_once r st i h = called-Step (Reach-Inv r) st i h
