-- ===== src/Downloader/Races/Calls.antt =====
-- Downloader.cpp: the callbacks are called together, by the thread that claimed the completion.
use mathlib.Core.List.{append-nil}
use filetransferdaemon.Prelude.{ℕ, ◌≡◌, true, false, [], arith}
use filetransferdaemon.Downloader.{invoke_callbacks}
use filetransferdaemon.Downloader.Threads.{
  System, is_open, Step, call_register, lock_register, check, push_unlock, call_complete,
  lock_claim, claim_unlock, repeat_unlock, lock_invoke, invoke_unlock, lock_conclude,
  conclude_unlock,
}
use filetransferdaemon.Downloader.Races.Invariant.{
  has_claimed, has_locked, has_invoked, will_push, Inv,
}

module _ {s : System} (v : Inv s) where
  pub no_late_push-Step :
      {t : System} → Step s t → (k l : ℕ) → has_locked (t.pc k) ≡ true → will_push (t.pc l) ≡ false
  no_late_push-Step (call_register i cb payload e) k l h =
      ground (arith, v.no_late_push k l, v.no_late_push i l, v.no_late_push k i)
  no_late_push-Step (lock_register i cb payload e free) k l h =
      ground (arith, v.no_late_push k l, v.no_late_push i l, v.no_late_push k i)
  no_late_push-Step (check i cb payload b e fresh) k l h = ground (
    arith,
    v.no_late_push k l,
    v.no_late_push i l,
    λ (q : is_open s.dl.reap_status ≡ true). v.unclaimed q k,
  )
  no_late_push-Step (push_unlock i cb payload true e) k l h =
      ground (arith, v.no_late_push k l, v.no_late_push i l, v.no_late_push k i)
  no_late_push-Step (push_unlock i cb payload false e) k l h =
      ground (arith, v.no_late_push k l, v.no_late_push i l, v.no_late_push k i)
  no_late_push-Step (call_complete i e) k l h =
      ground (arith, v.no_late_push k l, v.no_late_push i l, v.no_late_push k i)
  no_late_push-Step (lock_claim i e free) k l h =
      ground (arith, v.no_late_push k l, v.no_late_push i l, v.no_late_push k i)
  no_late_push-Step (claim_unlock i e opened) k l h =
      ground (arith, v.no_late_push k l, v.no_late_push i l, v.no_late_push k i)
  no_late_push-Step (repeat_unlock i e shut) k l h =
      ground (arith, v.no_late_push k l, v.no_late_push i l, v.no_late_push k i)
  no_late_push-Step (lock_invoke i e free) k l h =
      ground (arith, v.no_late_push k l, v.no_late_push i l, v.cb_held l)
  no_late_push-Step (invoke_unlock i e) k l h =
      ground (arith, v.no_late_push k l, v.no_late_push i l, v.no_late_push k i)
  no_late_push-Step (lock_conclude i e free) k l h =
      ground (arith, v.no_late_push k l, v.no_late_push i l, v.no_late_push k i)
  no_late_push-Step (conclude_unlock i e) k l h =
      ground (arith, v.no_late_push k l, v.no_late_push i l, v.no_late_push k i)

  pub none_called-Step : {t : System} → Step s t → is_open t.dl.reap_status ≡ true → t.called ≡ []
  none_called-Step (call_register i cb payload e) h = ground (arith, v.none_called)
  none_called-Step (lock_register i cb payload e free) h = ground (arith, v.none_called)
  none_called-Step (check i cb payload b e fresh) h = ground (arith, v.none_called)
  none_called-Step (push_unlock i cb payload true e) h = ground (arith, v.none_called)
  none_called-Step (push_unlock i cb payload false e) h = ground (arith, v.none_called)
  none_called-Step (call_complete i e) h = ground (arith, v.none_called)
  none_called-Step (lock_claim i e free) h = ground (arith, v.none_called)
  none_called-Step (claim_unlock i e opened) h = ground (arith, v.none_called)
  none_called-Step (repeat_unlock i e shut) h = ground (arith, v.none_called)
  none_called-Step (lock_invoke i e free) h = ground (arith, v.none_called)
  none_called-Step (invoke_unlock i e) h =
      ground (arith, v.none_called, λ (q : is_open s.dl.reap_status ≡ true). v.unclaimed q i)
  none_called-Step (lock_conclude i e free) h = ground (arith, v.none_called)
  none_called-Step (conclude_unlock i e) h = ground (arith, v.none_called)

  pub not_yet_called-Step :
      {t : System}
      → Step s t
      → (k : ℕ) → has_claimed (t.pc k) ≡ true
      → has_invoked (t.pc k) ≡ false
      → t.called ≡ []
  not_yet_called-Step (call_register i cb payload e) k h m =
      ground (arith, v.not_yet_called k, v.not_yet_called i, v.none_called)
  not_yet_called-Step (lock_register i cb payload e free) k h m =
      ground (arith, v.not_yet_called k, v.not_yet_called i, v.none_called)
  not_yet_called-Step (check i cb payload b e fresh) k h m =
      ground (arith, v.not_yet_called k, v.not_yet_called i, v.none_called)
  not_yet_called-Step (push_unlock i cb payload true e) k h m =
      ground (arith, v.not_yet_called k, v.not_yet_called i, v.none_called)
  not_yet_called-Step (push_unlock i cb payload false e) k h m =
      ground (arith, v.not_yet_called k, v.not_yet_called i, v.none_called)
  not_yet_called-Step (call_complete i e) k h m =
      ground (arith, v.not_yet_called k, v.not_yet_called i, v.none_called)
  not_yet_called-Step (lock_claim i e free) k h m =
      ground (arith, v.not_yet_called k, v.not_yet_called i, v.none_called)
  not_yet_called-Step (claim_unlock i e opened) k h m =
      ground (arith, v.not_yet_called k, v.not_yet_called i, v.none_called)
  not_yet_called-Step (repeat_unlock i e shut) k h m =
      ground (arith, v.not_yet_called k, v.not_yet_called i, v.none_called)
  not_yet_called-Step (lock_invoke i e free) k h m =
      ground (arith, v.not_yet_called k, v.not_yet_called i, v.none_called)
  not_yet_called-Step (invoke_unlock i e) k h m =
      ground (arith, v.not_yet_called k, v.not_yet_called i, v.one_claim i k)
  not_yet_called-Step (lock_conclude i e free) k h m =
      ground (arith, v.not_yet_called k, v.not_yet_called i, v.none_called)
  not_yet_called-Step (conclude_unlock i e) k h m =
      ground (arith, v.not_yet_called k, v.not_yet_called i, v.none_called)

  pub all_called-Step :
      {t : System}
      → Step s t
      → (k : ℕ) → has_invoked (t.pc k) ≡ true
      → t.called ≡ invoke_callbacks t.dl.callbacks
  all_called-Step (call_register i cb payload e) k h =
      ground (arith, v.all_called k, v.all_called i)
  all_called-Step (lock_register i cb payload e free) k h =
      ground (arith, v.all_called k, v.all_called i)
  all_called-Step (check i cb payload b e fresh) k h =
      ground (arith, v.all_called k, v.all_called i)
  all_called-Step (push_unlock i cb payload true e) k h =
      ground (arith, v.all_called k, v.no_late_push k i)
  all_called-Step (push_unlock i cb payload false e) k h =
      ground (arith, v.all_called k, v.no_late_push k i)
  all_called-Step (call_complete i e) k h = ground (arith, v.all_called k, v.all_called i)
  all_called-Step (lock_claim i e free) k h = ground (arith, v.all_called k, v.all_called i)
  all_called-Step (claim_unlock i e opened) k h = ground (arith, v.all_called k, v.all_called i)
  all_called-Step (repeat_unlock i e shut) k h = ground (arith, v.all_called k, v.all_called i)
  all_called-Step (lock_invoke i e free) k h = ground (arith, v.all_called k, v.all_called i)
  all_called-Step (invoke_unlock i e) k h = ground (
    arith,
    v.all_called k,
    v.not_yet_called i,
    v.one_claim i k,
    append-nil (invoke_callbacks s.dl.callbacks),
  )
  all_called-Step (lock_conclude i e free) k h = ground (arith, v.all_called k, v.all_called i)
  all_called-Step (conclude_unlock i e) k h = ground (arith, v.all_called k, v.all_called i)
