-- ===== src/FtdApp/Heap/Fate.antt =====
-- FtdApp.cpp: what an operation does to the downloads, of the three things that it can do.
use filetransferdaemon.Prelude.{
  ℕ, ◌≡◌, refl, ◌∙◌, ap, false, some, Text, codes, if◌then◌else◌, Bool-cases, Option-cases, inl,
  inr, ◌==◌,
}
use filetransferdaemon.Json.{Request}
use filetransferdaemon.World.{World}
use filetransferdaemon.Object.{Object}
use filetransferdaemon.FtdApp.{FtdApp, Ending, touch, find_by_url}
use filetransferdaemon.FtdApp.Adding.{add_download}
use filetransferdaemon.FtdApp.Adding.Answers.{downloads-touch}
use filetransferdaemon.FtdApp.Canceling.{deferred_remove, may_delete}
use filetransferdaemon.FtdApp.Heap.{IsValid, is_in}
use filetransferdaemon.FtdApp.Heap.Frames.{
  Alike, Alike-trans, Alike-IsValid, same-Alike, touch-heap, touch-Alike,
}
use filetransferdaemon.FtdApp.Heap.Removing.{
  Struck, Struck-IsValid, deferred_remove_strikes, deferred_remove_waits,
}
use filetransferdaemon.FtdApp.Heap.Adding.{AddedNew, add_download-Added}
use filetransferdaemon.FtdApp.Heap.Launching.{Grown}
use filetransferdaemon.FtdApp.Heap.Growing.{Grown-IsValid}

-- The same downloads as before, or one more of a known user with a URL that nobody had, or one less.
pub data Fate (name : ℕ → Text) (a b : FtdApp) : Type 0 where
  alike : Alike a b → Fate name a b
  grown :
      (user url : Text) (uid : ℕ)
      → name uid ≡ user
      → find_by_url url (touch user a) ≡ false
      → Grown user url uid a b
      → Fate name a b
  struck : (p : ℕ) (o : Object) → a.heap p ≡ some o → Struck p a b → Fate name a b

pub Fate-IsValid :
    (name : ℕ → Text) (a b : FtdApp) → Fate name a b → IsValid name a → IsValid name b
Fate-IsValid name a b (alike k) v = Alike-IsValid name a b k v
Fate-IsValid name a b (grown user url uid known new g) v =
    Grown-IsValid name user url uid a b g known new v
Fate-IsValid name a b (struck p o e k) v = Struck-IsValid name p a b k v

-- It makes no difference to ask for the downloads of a user before.
touched_Struck : (user : Text) (p : ℕ) (a b : FtdApp) → Struck p (touch user a) b → Struck p a b
touched_Struck user p a b k = record {
  fresh = k.fresh ∙ (touch-Alike user a).fresh;
  heap = λ q. rw (touch-heap user a) at (k.heap q);
  lists = λ u q.
      k.lists u q ∙ ap (λ ps. if q == p then false else is_in q ps) (downloads-touch user a u);
  nodup = k.nodup;
}

-- The same downloads as before, or one less.
pub data AtMost (a b : FtdApp) : Type 0 where
  none_less : Alike a b → AtMost a b
  one_less : (p : ℕ) (o : Object) → a.heap p ≡ some o → Struck p a b → AtMost a b

pub AtMost-Fate : (name : ℕ → Text) (a b : FtdApp) → AtMost a b → Fate name a b
AtMost-Fate name a b (none_less k) = alike k
AtMost-Fate name a b (one_less p o e k) = struck p o e k

pub touched_AtMost : (user : Text) (a b : FtdApp) → AtMost (touch user a) b → AtMost a b
touched_AtMost user a b (none_less k) = none_less (Alike-trans (touch-Alike user a) k)
touched_AtMost user a b (one_less p o e k) =
    one_less p o (rw (touch-heap user a) at e) (touched_Struck user p a b k)

pub deferred_remove-AtMost :
    (w : World) (p : ℕ) (a : FtdApp) → IsValid w.uid_to_user a → AtMost a (deferred_remove w p a).0
unfolding deferred_remove
deferred_remove-AtMost w p a v = elim (Option-cases (a.heap p)) [
  | inl e ↦ none_less (rw (e, deferred_remove) (same-Alike a a refl refl (λ u. refl)))
  | inr (o, e) ↦ elim (Bool-cases (may_delete w o)) [
    | inl may ↦ one_less p o e (deferred_remove_strikes w p o a v e may).0
    | inr not_yet ↦ none_less (rw (e, deferred_remove) (deferred_remove_waits w p o a not_yet))
  ]
]

pub add_download-Fate :
    (w : World) (fuel : ℕ) (req : Request) (a a' : FtdApp) (e : Ending)
    → w.uid_to_user (w.user_to_uid (req.as_string (codes "user"))) ≡ req.as_string (codes "user")
    → w.lib.url_text (req.as_string (codes "url")) ≡ req.as_string (codes "url")
    → add_download w fuel req a ≡ some (a', e)
    → Fate w.uid_to_user a a'
add_download-Fate w fuel req a a' e known same h = go (rw h at (add_download-Added w fuel req a))
  where
    go :
        AddedNew w (req.as_string (codes "user")) (req.as_string (codes "url")) a a'
        → Fate w.uid_to_user a a'
    go (inl k) = alike k
    go (inr (g, new)) =
        grown (req.as_string (codes "user")) (req.as_string (codes "url"))
          (w.user_to_uid (req.as_string (codes "user"))) known new (rw same at g)
