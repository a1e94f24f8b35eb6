-- ===== src/FtdApp/Heap.antt =====
-- FtdApp.cpp: the tables and the heap of downloads agree. What holds between any two operations.
pub mod Lists
pub mod Frames
pub mod Removing
pub mod Launching
pub mod Adding
pub mod Growing
pub mod Fate
pub mod Requests
pub mod Throttles
use filetransferdaemon.Prelude.{
  ℕ, ◌<◌, ◌≡◌, Bool, true, false, not, ◌&&◌, ◌||◌, Option, some, List, [], ◌∷◌, Text, text_eq, ◌==◌,
}
use filetransferdaemon.Object.{Object, base}
use filetransferdaemon.FtdApp.{FtdApp, downloads}

abbrev pub is_in : ℕ → List ℕ → Bool
is_in p [] = false
is_in p (q ∷ qs) = q == p || is_in p qs

-- No address stands in a list twice.
abbrev pub is_nodup : List ℕ → Bool
is_nodup [] = true
is_nodup (p ∷ ps) = not (is_in p ps) && is_nodup ps

abbrev pub is_listed : FtdApp → Text → ℕ → Bool
is_listed a user p = is_in p (downloads user a.transfers)

-- Every listed address is an object below `fresh`, whose user is the one under whom it is listed
-- (`name` is UIDToUser); every object is listed under its user; no list has an address twice; and
-- listed downloads with the same URL are one download.
pub record IsValid (name : ℕ → Text) (a : FtdApp) : Type 0 where
  pub present : (u : Text) (p : ℕ) → is_listed a u p ≡ true → (o : Object) × (a.heap p ≡ some o)
  pub below : (u : Text) (p : ℕ) → is_listed a u p ≡ true → p < a.fresh
  pub at_home :
      (u : Text) (p : ℕ) (o : Object)
      → is_listed a u p ≡ true
      → a.heap p ≡ some o
      → name (base o).user ≡ u
  pub listed : (p : ℕ) (o : Object) → a.heap p ≡ some o → is_listed a (name (base o).user) p ≡ true
  pub nodup : (u : Text) → is_nodup (downloads u a.transfers) ≡ true
  pub one_url :
      (u v : Text) (p q : ℕ) (o o' : Object)
      → is_listed a u p ≡ true
      → is_listed a v q ≡ true
      → a.heap p ≡ some o
      → a.heap q ≡ some o'
      → (base o).url ≡ (base o').url
      → p ≡ q
