-- ===== src/Downloader/Races/Invariant.antt =====
-- Downloader.cpp: what holds of the threads of RegisterCompletionCallback and Complete between steps.
use mathlib.Core.List.{Mem}
use filetransferdaemon.Prelude.{ℕ, ◌≡◌, refl, Bool, true, false, some, [], arith}
use filetransferdaemon.Downloader.{Downloader, invoke_callbacks}
use filetransferdaemon.Downloader.Threads.{
  Pc, reg_inside, reg_checked, reg_returned, claiming, claimed, invoking, invoked, concluding,
  completed, System, is_open, initial,
}

abbrev pub holds_cb : Pc → Bool
holds_cb (reg_inside cb payload) = true
holds_cb (reg_checked b cb payload) = true
holds_cb invoking = true
holds_cb _ = false

abbrev pub holds_reap : Pc → Bool
holds_reap claiming = true
holds_reap concluding = true
holds_reap _ = false

-- Past the claim, past the lock for the calls, past the calls.
abbrev pub has_claimed : Pc → Bool
has_claimed claimed = true
has_claimed invoking = true
has_claimed invoked = true
has_claimed concluding = true
has_claimed completed = true
has_claimed _ = false

abbrev pub has_locked : Pc → Bool
has_locked invoking = true
has_locked invoked = true
has_locked concluding = true
has_locked completed = true
has_locked _ = false

abbrev pub has_invoked : Pc → Bool
has_invoked invoked = true
has_invoked concluding = true
has_invoked completed = true
has_invoked _ = false

abbrev pub will_push : Pc → Bool
will_push (reg_checked true cb payload) = true
will_push _ = false

pub record Inv (s : System) : Type 0 where
  pub cb_held : (i : ℕ) → holds_cb (s.pc i) ≡ true → s.cb_owner ≡ some i
  pub reap_held : (i : ℕ) → holds_reap (s.pc i) ≡ true → s.reap_owner ≡ some i
  pub unclaimed : is_open s.dl.reap_status ≡ true → (i : ℕ) → has_claimed (s.pc i) ≡ false
  pub one_claim : (i j : ℕ) → has_claimed (s.pc i) ≡ true → has_claimed (s.pc j) ≡ true → i ≡ j
  pub no_late_push : (i j : ℕ) → has_locked (s.pc i) ≡ true → will_push (s.pc j) ≡ false
  pub none_called : is_open s.dl.reap_status ≡ true → s.called ≡ []
  pub not_yet_called :
      (i : ℕ) → has_claimed (s.pc i) ≡ true → has_invoked (s.pc i) ≡ false → s.called ≡ []
  pub all_called :
      (i : ℕ) → has_invoked (s.pc i) ≡ true → s.called ≡ invoke_callbacks s.dl.callbacks
  pub kept :
      (i cb payload : ℕ)
      → s.pc i ≡ reg_returned true cb payload
      → Mem (cb, payload) (invoke_callbacks s.dl.callbacks)

pub initial-Inv : (d : Downloader) → Inv (initial d)
initial-Inv d = record {
  cb_held = λ i. ground arith;
  reap_held = λ i. ground arith;
  unclaimed = λ h i. refl;
  one_claim = λ i j h k. ground arith;
  no_late_push = λ i j h. refl;
  none_called = λ h. refl;
  not_yet_called = λ i h k. refl;
  all_called = λ i h. ground arith;
  kept = λ i cb payload h. cc;
}
