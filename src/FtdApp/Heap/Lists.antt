-- ===== src/FtdApp/Heap/Lists.antt =====
-- FtdApp.cpp: the loops over a list of downloads, in terms of what is in it.
use filetransferdaemon.Prelude.{
  ℕ, ◌≡◌, refl, Bool, true, false, Option, none, some, List, [], ◌∷◌, ◌++◌, Text, Table, arith,
  ◌==◌, lookup, if◌then◌else◌,
}
use filetransferdaemon.Object.{Object}
use filetransferdaemon.FtdApp.{find_first, on_object, has_url, downloads, any_url, is_found}
use filetransferdaemon.FtdApp.Canceling.{erase_url}
use filetransferdaemon.FtdApp.Heap.{is_in, is_nodup}

pub is_in-append :
    (p q : ℕ) (ps : List ℕ) → is_in p (ps ++ q ∷ []) ≡ (if q == p then true else is_in p ps)
is_in-append p q [] = ground arith
is_in-append p q (x ∷ xs) = ground (arith, is_in-append p q xs)

pub is_nodup-append :
    (q : ℕ) (ps : List ℕ) → is_in q ps ≡ false → is_nodup ps ≡ true → is_nodup (ps ++ q ∷ []) ≡ true
is_nodup-append q [] h n = refl
is_nodup-append q (x ∷ xs) h n = ground (arith, is_in-append x q xs, is_nodup-append q xs)

-- A search that finds nothing: nothing in the list passes the test.
pub find_first-none :
    (heap : ℕ → Option Object) (test : Object → Bool) (ps : List ℕ) (p : ℕ) (o : Object)
    → find_first heap test ps ≡ none
    → is_in p ps ≡ true
    → heap p ≡ some o
    → test o ≡ false
unfolding find_first
find_first-none heap test [] p o h i e = cc
find_first-none heap test (q ∷ qs) p o h i e = ground (arith, find_first-none heap test qs p o)

pub find_first-some :
    (heap : ℕ → Option Object) (test : Object → Bool) (ps : List ℕ) (q : ℕ)
    → find_first heap test ps ≡ some q
    → (is_in q ps ≡ true) × (on_object test (heap q) ≡ true)
unfolding find_first
find_first-some heap test [] q h = cc
find_first-some heap test (p ∷ ps) q h = ground (arith, find_first-some heap test ps q)

-- erase at the first hit: every other address stays.
pub is_in-erase_url :
    (heap : ℕ → Option Object) (url : Text) (ps : List ℕ) (p q : ℕ)
    → is_nodup ps ≡ true
    → find_first heap (has_url url) ps ≡ some p
    → is_in q (erase_url heap url ps) ≡ (if q == p then false else is_in q ps)
unfolding find_first erase_url
is_in-erase_url heap url [] p q n h = cc
is_in-erase_url heap url (x ∷ xs) p q n h =
    ground (arith, is_in-erase_url heap url xs p q, find_first-some heap (has_url url) xs p)

pub is_nodup-erase_url :
    (heap : ℕ → Option Object) (url : Text) (ps : List ℕ) (p : ℕ)
    → is_nodup ps ≡ true
    → find_first heap (has_url url) ps ≡ some p
    → is_nodup (erase_url heap url ps) ≡ true
unfolding find_first erase_url
is_nodup-erase_url heap url [] p n h = cc
is_nodup-erase_url heap url (x ∷ xs) p n h =
    ground (arith, is_in-erase_url heap url xs p x, is_nodup-erase_url heap url xs p)

-- FindByURL that finds nothing.
pub any_url-false :
    (heap : ℕ → Option Object) (url : Text) (m : Table (List ℕ)) (u : Text)
    → any_url heap url m ≡ false
    → find_first heap (has_url url) (downloads u m) ≡ none
unfolding any_url is_found downloads lookup find_first
any_url-false heap url [] u h = refl
any_url-false heap url ((user, ps) ∷ m) u h = ground (arith, any_url-false heap url m u)
