-- ===== src/DirWatcher/Laws.antt =====
-- DirWatcher.cpp: the watches, and what adding a file does to the downloads.
use filetransferdaemon.Prelude.{
  ℕ, ◌≡◌, refl, ap, ◌∙◌, Bool, true, Option, none, some, List, [], ◌∷◌, Text, text_eq_refl,
  lookup_at, insert_at, arith,
}
use filetransferdaemon.DirWatcher.{DirWatcher, add_watch, del_watch, find_watch, erase_watch}

erase_watch-insert_at :
    (w : ℕ) (path : Text) (m : List (ℕ × Text))
    → lookup_at w m ≡ none
    → erase_watch w (insert_at w path m) ≡ m
unfolding erase_watch insert_at lookup_at
erase_watch-insert_at w path [] h = ground arith
erase_watch-insert_at w path ((v, p) ∷ m) h = ground (arith, erase_watch-insert_at w path m)

find_watch-insert_at :
    (w : ℕ) (path : Text) (m : List (ℕ × Text))
    → lookup_at w m ≡ none
    → find_watch path m ≡ none
    → find_watch path (insert_at w path m) ≡ some w
unfolding find_watch insert_at lookup_at
find_watch-insert_at w path [] h f = rw (text_eq_refl path) refl
find_watch-insert_at w path ((v, p) ∷ m) h f =
    ground (arith, find_watch-insert_at w path m, text_eq_refl path)

added_watch :
    (watch : Text → Option ℕ) (path : Text) (w : ℕ) (d : DirWatcher)
    → watch path ≡ some w
    → add_watch watch path d ≡ record d { iwatches = insert_at w path d.iwatches }
unfolding add_watch
added_watch watch path w d e = rw (e, add_watch) refl

del_watch_inserted :
    (removes : ℕ → Bool) (path : Text) (w : ℕ) (d : DirWatcher)
    → removes w ≡ true
    → lookup_at w d.iwatches ≡ none
    → find_watch path d.iwatches ≡ none
    → del_watch removes path (record d { iwatches = insert_at w path d.iwatches }) ≡ d
unfolding del_watch
del_watch_inserted removes path w d r new free =
    rw (find_watch-insert_at w path d.iwatches new free, r, del_watch)
      (ap (λ m. record d { iwatches = m }) (erase_watch-insert_at w path d.iwatches new))

-- A watch that is set on a path that has none, with a new descriptor, and deleted again leaves the
-- watcher as it was.
pub del_watch-add_watch :
    (watch : Text → Option ℕ) (removes : ℕ → Bool) (path : Text) (w : ℕ) (d : DirWatcher)
    → watch path ≡ some w
    → removes w ≡ true
    → lookup_at w d.iwatches ≡ none
    → find_watch path d.iwatches ≡ none
    → del_watch removes path (add_watch watch path d) ≡ d
del_watch-add_watch watch removes path w d e r new free =
    ap (del_watch removes path) (added_watch watch path w d e)
    ∙ del_watch_inserted removes path w d r new free
