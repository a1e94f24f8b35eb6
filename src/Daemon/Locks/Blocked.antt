-- ===== src/Daemon/Locks/Blocked.antt =====
-- FtdApp.cpp and TorrentDownloader.cpp: a thread that holds transfermutex and dlmutex and takes one
-- of them again.
use mathlib.Core.Option.{some-injective}
use filetransferdaemon.Prelude.{
  ℕ, ◌≡◌, refl, sym, ◌∙◌, ap, none, some, List, ◌∷◌, arith, ◌==◌, ==_iff, Bool-cases, inl, inr,
}
use filetransferdaemon.Daemon.Locks.{
  Lock, transfermutex, dlmutex, LockStep, locks, unlocks, Holders, set_rest, Step, takes, gives,
  begins, Steps, none_yet, further,
}

-- A thread that holds both mutexes and is about to take dlmutex again.
pub record IsBlocked (i : ℕ) (l : List LockStep) (s : Holders) : Type 0 where
  pub dl : s.owner dlmutex ≡ some i
  pub transfer : s.owner transfermutex ≡ some i
  pub next : s.rest i ≡ locks dlmutex ∷ l

set_rest-other :
    (i j : ℕ) (l : List LockStep) (f : ℕ → List LockStep) {x y : List LockStep}
    → f i ≡ x
    → f j ≡ y
    → (x ≡ y → ⊥)
    → set_rest i l f j ≡ y
set_rest-other i j l f e g differ = elim (Bool-cases (i == j)) [
  | inl same ↦ absurd (differ (sym e ∙ ap f ((==_iff i j).0 same) ∙ g))
  | inr other ↦ rw other g
]

holds_both :
    {s : Holders} (i : ℕ) (l : List LockStep) (m : Lock) → IsBlocked i l s → s.owner m ≡ some i
holds_both i l dlmutex b = b.dl
holds_both i l transfermutex b = b.transfer

Step-IsBlocked :
    {s t : Holders} (i : ℕ) (l : List LockStep) → Step s t → IsBlocked i l s → IsBlocked i l t
Step-IsBlocked {s} i l (takes j dlmutex r e free) b = absurd (cc (b.dl, free))
Step-IsBlocked {s} i l (takes j transfermutex r e free) b = absurd (cc (b.transfer, free))
Step-IsBlocked {s} i l (gives j m r e own) b =
    let same = some-injective i j (sym (holds_both i l m b) ∙ own) in
    absurd (cc (b.next, e, ap s.rest same))
Step-IsBlocked {s} i l (begins j r e) b = record {
  dl = b.dl;
  transfer = b.transfer;
  next = set_rest-other j i r s.rest e b.next (λ h. cc);
}

pub Steps-IsBlocked :
    {s t : Holders} (i : ℕ) (l : List LockStep) → Steps s t → IsBlocked i l s → IsBlocked i l t
Steps-IsBlocked i l none_yet b = b
Steps-IsBlocked i l (further r st) b = Step-IsBlocked i l st (Steps-IsBlocked i l r b)

set_rest-same : (i : ℕ) (l : List LockStep) (f : ℕ → List LockStep) → set_rest i l f i ≡ l
set_rest-same i l f = ground arith

-- A thread that goes through both mutexes, gives transfermutex back, takes it again and then wants
-- dlmutex.
pub blocks :
    (i : ℕ) (l : List LockStep) (s : Holders)
    → s.owner transfermutex ≡ none
    → s.owner dlmutex ≡ none
    → s.rest i
      ≡ locks dlmutex
        ∷ locks transfermutex
        ∷ unlocks transfermutex
        ∷ locks transfermutex
        ∷ locks dlmutex
        ∷ l
    → (u : Holders) × Steps s u × IsBlocked i l u
blocks i l s free free' e =
    let last = locks dlmutex ∷ l in
    let after = locks transfermutex ∷ last in
    let inside = unlocks transfermutex ∷ after in
    let f = set_rest i (locks transfermutex ∷ inside) s.rest in
    let g = set_rest i inside f in
    let h = set_rest i after g in
    let one = further none_yet (takes i dlmutex (locks transfermutex ∷ inside) e free') in
    let two =
      further one (
        takes i transfermutex inside (set_rest-same i (locks transfermutex ∷ inside) s.rest)
          free) in
    let three = further two (gives i transfermutex after (set_rest-same i inside f) refl) in
    let four = further three (takes i transfermutex last (set_rest-same i after g) refl) in
    (_, four, record { dl = refl; transfer = refl; next = set_rest-same i last h })
