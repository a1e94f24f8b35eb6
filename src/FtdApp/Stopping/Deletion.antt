-- ===== src/FtdApp/Stopping/Deletion.antt =====
-- FtdApp.cpp, ShutDown: nothing that was listed is left.
use filetransferdaemon.Prelude.{ℕ, ◌≡◌, refl, Option, none, some, List, [], ◌∷◌, Table, All, arith}
use filetransferdaemon.World.{World}
use filetransferdaemon.Object.{Object}
use filetransferdaemon.FtdApp.{FtdApp}
use filetransferdaemon.FtdApp.Canceling.{delete_object, add_work}
use filetransferdaemon.FtdApp.Stopping.{stop_object, stop_at, stop_list, stop_all, shut_down}

-- No download of the table is an object of the heap.
abbrev pub AllGone : (ℕ → Option Object) → Table (List ℕ) → Type 0
AllGone heap m = All (λ entry. All (λ p. heap p ≡ none) entry.1) m

module _ (w : World) (settled : ℕ → Object → Object) where
  stop_at-none :
      (p q : ℕ) (x : Option Object) (a : FtdApp)
      → a.heap q ≡ none
      → (stop_at w settled p x a).heap q ≡ none
  unfolding stop_at stop_object delete_object add_work
  stop_at-none p q none a h = h
  stop_at-none p q (some o) a h = ground arith

  stop_at_gone :
      (p : ℕ) (x : Option Object) (a : FtdApp)
      → a.heap p ≡ x
      → (stop_at w settled p x a).heap p ≡ none
  unfolding stop_at stop_object delete_object add_work
  stop_at_gone p none a h = h
  stop_at_gone p (some o) a h = ground arith

  stop_list-none :
      (ps : List ℕ) (q : ℕ) (a : FtdApp)
      → a.heap q ≡ none
      → (stop_list w settled ps a).heap q ≡ none
  unfolding stop_list
  stop_list-none [] q a h = h
  stop_list-none (p ∷ ps) q a h = stop_list-none ps q _ (stop_at-none p q (a.heap p) a h)

  stop_list_gone :
      (ps : List ℕ) (a : FtdApp) → All (λ p. (stop_list w settled ps a).heap p ≡ none) ps
  unfolding stop_list
  stop_list_gone [] a = tt
  stop_list_gone (p ∷ ps) a =
      (stop_list-none ps p _ (stop_at_gone p (a.heap p) a refl), stop_list_gone ps _)

  pub stop_all-none :
      (m : Table (List ℕ)) (q : ℕ) (a : FtdApp)
      → a.heap q ≡ none
      → (stop_all w settled m a).heap q ≡ none
  unfolding stop_all
  stop_all-none [] q a h = h
  stop_all-none ((user, ps) ∷ m) q a h = stop_all-none m q _ (stop_list-none ps q a h)

  stop_all_kept :
      (m : Table (List ℕ)) (ps : List ℕ) (a : FtdApp)
      → All (λ p. a.heap p ≡ none) ps
      → All (λ p. (stop_all w settled m a).heap p ≡ none) ps
  stop_all_kept m [] a h = tt
  stop_all_kept m (p ∷ ps) a (h, hs) = (stop_all-none m p a h, stop_all_kept m ps a hs)

  stop_all-AllGone : (m : Table (List ℕ)) (a : FtdApp) → AllGone (stop_all w settled m a).heap m
  unfolding stop_all
  stop_all-AllGone [] a = tt
  stop_all-AllGone ((user, ps) ∷ m) a =
      (stop_all_kept m ps _ (stop_list_gone ps a), stop_all-AllGone m _)

-- Whatever the threads of the downloads leave behind once they may be reaped, ShutDown has then
-- deleted every download of every user and has emptied the table.
pub shut_down-AllGone :
    (w : World) (settled : ℕ → Object → Object) (a : FtdApp)
    → AllGone (shut_down w settled a).heap a.transfers × ((shut_down w settled a).transfers ≡ [])
unfolding shut_down
shut_down-AllGone w settled a = (stop_all-AllGone w settled a.transfers a, refl)
