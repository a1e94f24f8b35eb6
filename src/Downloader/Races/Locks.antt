-- ===== src/Downloader/Races/Locks.antt =====
-- Downloader.cpp: each mutex has one holder, and one thread claims the completion.
use filetransferdaemon.Prelude.{ℕ, ◌≡◌, true, false, some, Bool-cases, arith}
use filetransferdaemon.Downloader.Threads.{
  System, is_open, Step, call_register, lock_register, check, push_unlock, call_complete,
  lock_claim, claim_unlock, repeat_unlock, lock_invoke, invoke_unlock, lock_conclude,
  conclude_unlock,
}
use filetransferdaemon.Downloader.Races.Invariant.{holds_cb, holds_reap, has_claimed, Inv}

module _ {s : System} (v : Inv s) where
  pub cb_held-Step :
      {t : System} → Step s t → (k : ℕ) → holds_cb (t.pc k) ≡ true → t.cb_owner ≡ some k
  cb_held-Step (call_register i cb payload e) k h = ground (arith, v.cb_held i, v.cb_held k)
  cb_held-Step (lock_register i cb payload e free) k h = ground (arith, v.cb_held i, v.cb_held k)
  cb_held-Step (check i cb payload b e fresh) k h = ground (arith, v.cb_held i, v.cb_held k)
  cb_held-Step (push_unlock i cb payload true e) k h = ground (arith, v.cb_held i, v.cb_held k)
  cb_held-Step (push_unlock i cb payload false e) k h = ground (arith, v.cb_held i, v.cb_held k)
  cb_held-Step (call_complete i e) k h = ground (arith, v.cb_held i, v.cb_held k)
  cb_held-Step (lock_claim i e free) k h = ground (arith, v.cb_held i, v.cb_held k)
  cb_held-Step (claim_unlock i e opened) k h = ground (arith, v.cb_held i, v.cb_held k)
  cb_held-Step (repeat_unlock i e shut) k h = ground (arith, v.cb_held i, v.cb_held k)
  cb_held-Step (lock_invoke i e free) k h = ground (arith, v.cb_held i, v.cb_held k)
  cb_held-Step (invoke_unlock i e) k h = ground (arith, v.cb_held i, v.cb_held k)
  cb_held-Step (lock_conclude i e free) k h = ground (arith, v.cb_held i, v.cb_held k)
  cb_held-Step (conclude_unlock i e) k h = ground (arith, v.cb_held i, v.cb_held k)

  pub reap_held-Step :
      {t : System} → Step s t → (k : ℕ) → holds_reap (t.pc k) ≡ true → t.reap_owner ≡ some k
  reap_held-Step (call_register i cb payload e) k h = ground (arith, v.reap_held i, v.reap_held k)
  reap_held-Step (lock_register i cb payload e free) k h =
      ground (arith, v.reap_held i, v.reap_held k)
  reap_held-Step (check i cb payload b e fresh) k h = ground (arith, v.reap_held i, v.reap_held k)
  reap_held-Step (push_unlock i cb payload true e) k h =
      ground (arith, v.reap_held i, v.reap_held k)
  reap_held-Step (push_unlock i cb payload false e) k h =
      ground (arith, v.reap_held i, v.reap_held k)
  reap_held-Step (call_complete i e) k h = ground (arith, v.reap_held i, v.reap_held k)
  reap_held-Step (lock_claim i e free) k h = ground (arith, v.reap_held i, v.reap_held k)
  reap_held-Step (claim_unlock i e opened) k h = ground (arith, v.reap_held i, v.reap_held k)
  reap_held-Step (repeat_unlock i e shut) k h = ground (arith, v.reap_held i, v.reap_held k)
  reap_held-Step (lock_invoke i e free) k h = ground (arith, v.reap_held i, v.reap_held k)
  reap_held-Step (invoke_unlock i e) k h = ground (arith, v.reap_held i, v.reap_held k)
  reap_held-Step (lock_conclude i e free) k h = ground (arith, v.reap_held i, v.reap_held k)
  reap_held-Step (conclude_unlock i e) k h = ground (arith, v.reap_held i, v.reap_held k)

  pub unclaimed-Step :
      {t : System}
      → Step s t
      → is_open t.dl.reap_status ≡ true
      → (k : ℕ) → has_claimed (t.pc k) ≡ false
  unclaimed-Step (call_register i cb payload e) h k = ground (
    arith,
    λ (q : is_open s.dl.reap_status ≡ true). v.unclaimed q i,
    λ (q : is_open s.dl.reap_status ≡ true). v.unclaimed q k,
    Bool-cases (is_open s.dl.reap_status),
  )
  unclaimed-Step (lock_register i cb payload e free) h k = ground (
    arith,
    λ (q : is_open s.dl.reap_status ≡ true). v.unclaimed q i,
    λ (q : is_open s.dl.reap_status ≡ true). v.unclaimed q k,
    Bool-cases (is_open s.dl.reap_status),
  )
  unclaimed-Step (check i cb payload b e fresh) h k = ground (
    arith,
    λ (q : is_open s.dl.reap_status ≡ true). v.unclaimed q i,
    λ (q : is_open s.dl.reap_status ≡ true). v.unclaimed q k,
    Bool-cases (is_open s.dl.reap_status),
  )
  unclaimed-Step (push_unlock i cb payload true e) h k = ground (
    arith,
    λ (q : is_open s.dl.reap_status ≡ true). v.unclaimed q i,
    λ (q : is_open s.dl.reap_status ≡ true). v.unclaimed q k,
    Bool-cases (is_open s.dl.reap_status),
  )
  unclaimed-Step (push_unlock i cb payload false e) h k = ground (
    arith,
    λ (q : is_open s.dl.reap_status ≡ true). v.unclaimed q i,
    λ (q : is_open s.dl.reap_status ≡ true). v.unclaimed q k,
    Bool-cases (is_open s.dl.reap_status),
  )
  unclaimed-Step (call_complete i e) h k = ground (
    arith,
    λ (q : is_open s.dl.reap_status ≡ true). v.unclaimed q i,
    λ (q : is_open s.dl.reap_status ≡ true). v.unclaimed q k,
    Bool-cases (is_open s.dl.reap_status),
  )
  unclaimed-Step (lock_claim i e free) h k = ground (
    arith,
    λ (q : is_open s.dl.reap_status ≡ true). v.unclaimed q i,
    λ (q : is_open s.dl.reap_status ≡ true). v.unclaimed q k,
    Bool-cases (is_open s.dl.reap_status),
  )
  unclaimed-Step (claim_unlock i e opened) h k = ground (
    arith,
    λ (q : is_open s.dl.reap_status ≡ true). v.unclaimed q i,
    λ (q : is_open s.dl.reap_status ≡ true). v.unclaimed q k,
    Bool-cases (is_open s.dl.reap_status),
  )
  unclaimed-Step (repeat_unlock i e shut) h k = ground (
    arith,
    λ (q : is_open s.dl.reap_status ≡ true). v.unclaimed q i,
    λ (q : is_open s.dl.reap_status ≡ true). v.unclaimed q k,
    Bool-cases (is_open s.dl.reap_status),
  )
  unclaimed-Step (lock_invoke i e free) h k = ground (
    arith,
    λ (q : is_open s.dl.reap_status ≡ true). v.unclaimed q i,
    λ (q : is_open s.dl.reap_status ≡ true). v.unclaimed q k,
    Bool-cases (is_open s.dl.reap_status),
  )
  unclaimed-Step (invoke_unlock i e) h k = ground (
    arith,
    λ (q : is_open s.dl.reap_status ≡ true). v.unclaimed q i,
    λ (q : is_open s.dl.reap_status ≡ true). v.unclaimed q k,
    Bool-cases (is_open s.dl.reap_status),
  )
  unclaimed-Step (lock_conclude i e free) h k = ground (
    arith,
    λ (q : is_open s.dl.reap_status ≡ true). v.unclaimed q i,
    λ (q : is_open s.dl.reap_status ≡ true). v.unclaimed q k,
    Bool-cases (is_open s.dl.reap_status),
  )
  unclaimed-Step (conclude_unlock i e) h k = ground (
    arith,
    λ (q : is_open s.dl.reap_status ≡ true). v.unclaimed q i,
    λ (q : is_open s.dl.reap_status ≡ true). v.unclaimed q k,
    Bool-cases (is_open s.dl.reap_status),
  )

  pub one_claim-Step :
      {t : System}
      → Step s t
      → (k l : ℕ) → has_claimed (t.pc k) ≡ true
      → has_claimed (t.pc l) ≡ true
      → k ≡ l
  one_claim-Step (call_register i cb payload e) k l h m =
      ground (arith, v.one_claim k l, v.one_claim i k, v.one_claim i l)
  one_claim-Step (lock_register i cb payload e free) k l h m =
      ground (arith, v.one_claim k l, v.one_claim i k, v.one_claim i l)
  one_claim-Step (check i cb payload b e fresh) k l h m =
      ground (arith, v.one_claim k l, v.one_claim i k, v.one_claim i l)
  one_claim-Step (push_unlock i cb payload true e) k l h m =
      ground (arith, v.one_claim k l, v.one_claim i k, v.one_claim i l)
  one_claim-Step (push_unlock i cb payload false e) k l h m =
      ground (arith, v.one_claim k l, v.one_claim i k, v.one_claim i l)
  one_claim-Step (call_complete i e) k l h m =
      ground (arith, v.one_claim k l, v.one_claim i k, v.one_claim i l)
  one_claim-Step (lock_claim i e free) k l h m =
      ground (arith, v.one_claim k l, v.one_claim i k, v.one_claim i l)
  one_claim-Step (claim_unlock i e opened) k l h m = ground (
    arith,
    λ (q : is_open s.dl.reap_status ≡ true). v.unclaimed q k,
    λ (q : is_open s.dl.reap_status ≡ true). v.unclaimed q l,
  )
  one_claim-Step (repeat_unlock i e shut) k l h m =
      ground (arith, v.one_claim k l, v.one_claim i k, v.one_claim i l)
  one_claim-Step (lock_invoke i e free) k l h m =
      ground (arith, v.one_claim k l, v.one_claim i k, v.one_claim i l)
  one_claim-Step (invoke_unlock i e) k l h m =
      ground (arith, v.one_claim k l, v.one_claim i k, v.one_claim i l)
  one_claim-Step (lock_conclude i e free) k l h m =
      ground (arith, v.one_claim k l, v.one_claim i k, v.one_claim i l)
  one_claim-Step (conclude_unlock i e) k l h m =
      ground (arith, v.one_claim k l, v.one_claim i k, v.one_claim i l)
