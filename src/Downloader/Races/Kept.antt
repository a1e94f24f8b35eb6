-- ===== src/Downloader/Races/Kept.antt =====
-- Downloader.cpp: an accepted callback stays registered; every reachable state is safe.
use mathlib.Core.List.{Mem, mem-cons_self, mem-cons_of_mem}
use mathlib.Core.List.Perm
use filetransferdaemon.Prelude.{ℕ, ◌≡◌, inl, inr, true, false, ◌==◌, Bool-cases, arith}
use filetransferdaemon.Downloader.{Downloader, Callbacks, push_callback, invoke_callbacks}
use filetransferdaemon.Downloader.Threads.{
  reg_returned, System, Step, call_register, lock_register, check, push_unlock, call_complete,
  lock_claim, claim_unlock, repeat_unlock, lock_invoke, invoke_unlock, lock_conclude,
  conclude_unlock, Reach, start, next,
}
use filetransferdaemon.Downloader.Races.Invariant.{Inv, initial-Inv}
use filetransferdaemon.Downloader.Completion.{invoke_callbacks-push_callback}
use filetransferdaemon.Downloader.Races.Locks.{
  cb_held-Step, reap_held-Step, unclaimed-Step, one_claim-Step,
}
use filetransferdaemon.Downloader.Races.Calls.{
  no_late_push-Step, none_called-Step, not_yet_called-Step, all_called-Step,
}

mem_of_push_self :
    (c p cb payload : ℕ) (m : Callbacks)
    → c ≡ cb
    → p ≡ payload
    → Mem (c, p) (invoke_callbacks (push_callback cb payload m))
mem_of_push_self c p cb payload m e f =
    rw (e, f) ((Perm.mem_iff (invoke_callbacks-push_callback cb payload m)).1 mem-cons_self)

mem_of_push :
    (c p cb payload : ℕ) (m : Callbacks)
    → Mem (c, p) (invoke_callbacks m)
    → Mem (c, p) (invoke_callbacks (push_callback cb payload m))
mem_of_push c p cb payload m h =
    (Perm.mem_iff (invoke_callbacks-push_callback cb payload m)).1 (mem-cons_of_mem _ h)

module _ {s : System} (v : Inv s) where
  kept-Step :
      {t : System}
      → Step s t
      → (k c p : ℕ) → t.pc k ≡ reg_returned true c p
      → Mem (c, p) (invoke_callbacks t.dl.callbacks)
  kept-Step (call_register i cb payload e) k c p h = v.kept k c p (ground arith)
  kept-Step (lock_register i cb payload e free) k c p h = v.kept k c p (ground arith)
  kept-Step (check i cb payload b e fresh) k c p h = v.kept k c p (ground arith)
  kept-Step (push_unlock i cb payload true e) k c p h = elim (Bool-cases (i == k)) [
    | inl same ↦ mem_of_push_self c p cb payload _ (ground arith) (ground arith)
    | inr other ↦ mem_of_push c p cb payload _ (v.kept k c p (ground arith))
  ]
  kept-Step (push_unlock i cb payload false e) k c p h = v.kept k c p (ground arith)
  kept-Step (call_complete i e) k c p h = v.kept k c p (ground arith)
  kept-Step (lock_claim i e free) k c p h = v.kept k c p (ground arith)
  kept-Step (claim_unlock i e opened) k c p h = v.kept k c p (ground arith)
  kept-Step (repeat_unlock i e shut) k c p h = v.kept k c p (ground arith)
  kept-Step (lock_invoke i e free) k c p h = v.kept k c p (ground arith)
  kept-Step (invoke_unlock i e) k c p h = v.kept k c p (ground arith)
  kept-Step (lock_conclude i e free) k c p h = v.kept k c p (ground arith)
  kept-Step (conclude_unlock i e) k c p h = v.kept k c p (ground arith)

  -- Every step keeps the invariant.
  Step-Inv : {t : System} → Step s t → Inv t
  Step-Inv st = record {
    cb_held = cb_held-Step v st;
    reap_held = reap_held-Step v st;
    unclaimed = unclaimed-Step v st;
    one_claim = one_claim-Step v st;
    no_late_push = no_late_push-Step v st;
    none_called = none_called-Step v st;
    not_yet_called = not_yet_called-Step v st;
    all_called = all_called-Step v st;
    kept = kept-Step st;
  }

pub Reach-Inv : {d : Downloader} {s : System} → Reach d s → Inv s
Reach-Inv {d} start = initial-Inv d
Reach-Inv (next r st) = Step-Inv (Reach-Inv r) st
