-- ===== src/FtdApp/Heap/Removing.antt =====
-- FtdApp.cpp, RemoveDownload, when the tables and the heap agree.
use filetransferdaemon.Prelude.{
  ℕ, ◌≡◌, refl, sym, ◌∙◌, ap, Bool, true, false, Option, none, some, Text, text_eq, text_eq_iff,
  text_eq_refl, insert, arith, ◌==◌, ==_iff, if◌then◌else◌, Bool-cases, Option-cases, inl, inr,
}
use filetransferdaemon.World.{World}
use filetransferdaemon.Object.{Object, base}
use filetransferdaemon.FtdApp.{FtdApp, returns, downloads, touch, find_first, has_url, on_object}
use filetransferdaemon.FtdApp.Canceling.{
  remove_object, deferred_remove, delete_object, may_delete, erase_url,
}
use filetransferdaemon.FtdApp.Adding.Answers.{downloads-touch, downloads-insert}
use filetransferdaemon.FtdApp.Heap.{IsValid, is_nodup, is_listed}
use filetransferdaemon.FtdApp.Heap.Lists.{
  find_first-none, find_first-some, is_in-erase_url, is_nodup-erase_url,
}
use filetransferdaemon.FtdApp.Heap.Frames.{touch-heap, Alike, touch-Alike}

-- The download at `p` is gone from the heap and from every list, and nothing else is.
pub record Struck (p : ℕ) (a a' : FtdApp) : Type 0 where
  pub fresh : a'.fresh ≡ a.fresh
  pub heap : (q : ℕ) → a'.heap q ≡ (if q == p then none else a.heap q)
  pub lists : (u : Text) (q : ℕ) → is_listed a' u q ≡ (if q == p then false else is_listed a u q)
  pub nodup : (u : Text) → is_nodup (downloads u a'.transfers) ≡ true

kept_of :
    (b : Bool) {x : Option Object} (o : Object)
    → (if b then none else x) ≡ some o
    → (b ≡ false) × (x ≡ some o)
kept_of b o h = ground arith

still : (b c : Bool) → (if b then false else c) ≡ true → (b ≡ false) × (c ≡ true)
still b c h = ground arith

module _ (name : ℕ → Text) (p : ℕ) (a a' : FtdApp) (k : Struck p a a') where
  pub was_listed :
      (u : Text) (q : ℕ) → is_listed a' u q ≡ true → (q == p ≡ false) × (is_listed a u q ≡ true)
  was_listed u q i = still (q == p) (is_listed a u q) (sym (k.lists u q) ∙ i)

  pub was_there : (q : ℕ) (o : Object) → a'.heap q ≡ some o → (q == p ≡ false) × (a.heap q ≡ some o)
  was_there q o e = kept_of (q == p) o (sym (k.heap q) ∙ e)

  pub Struck-IsValid : IsValid name a → IsValid name a'
  Struck-IsValid v = record {
    present = λ u q i.
        let (other, l) = was_listed u q i in
        let (o, e) = v.present u q l in (o, rw (k.heap q, other) e);
    below = λ u q i. rw k.fresh (v.below u q (was_listed u q i).1);
    at_home = λ u q o i e. v.at_home u q o (was_listed u q i).1 (was_there q o e).1;
    listed = λ q o e.
        let (other, e') = was_there q o e in
        rw (k.lists (name (base o).user) q, other) (v.listed q o e');
    nodup = k.nodup;
    one_url = λ x y q r o o' i j e g.
        v.one_url x y q r o o' (was_listed x q i).1 (was_listed y r j).1 (was_there q o e).1
          (was_there r o' g).1;
  }

has_url_itself : (o : Object) → has_url (base o).url o ≡ true
has_url_itself o = text_eq_refl (base o).url

pub object_with :
    (x : Option Object) (o : Object) (url : Text)
    → x ≡ some o
    → on_object (has_url url) x ≡ true
    → (base o).url ≡ url
object_with x o url e h = (text_eq_iff (base o).url url).0 (rw e at h)

-- The first listed download with the URL of a listed download is that download.
pub find_first_itself :
    (name : ℕ → Text) (a : FtdApp) (p : ℕ) (o : Object)
    → IsValid name a
    → a.heap p ≡ some o
    → find_first a.heap (has_url (base o).url) (downloads (name (base o).user) a.transfers) ≡ some p
find_first_itself name a p o v e =
    let u = name (base o).user in
    elim (Option-cases (find_first a.heap (has_url (base o).url) (downloads u a.transfers))) [
      | inl h ↦ absurd (
          cc (
            find_first-none a.heap (has_url (base o).url) (downloads u a.transfers) p o h
                (v.listed p o e) e,
            has_url_itself o,
          ))
      | inr (q, h) ↦
          let (i, t) =
            find_first-some a.heap (has_url (base o).url) (downloads u a.transfers) q h in
          let (x, g) = v.present u q i in
          rw
            (v.one_url u u p q o x (v.listed p o e) i e g
              (sym (object_with (a.heap q) x (base o).url g t)))
            h
    ]

module _ (w : World) (p : ℕ) (o : Object) (a : FtdApp) where
  abbrev owner : Text
  owner = w.uid_to_user (base o).user

  abbrev touched : FtdApp
  touched = touch owner a

  abbrev left : FtdApp
  left = delete_object w p o (record touched {
    transfers =
        insert owner (erase_url a.heap (base o).url (downloads owner touched.transfers))
          touched.transfers;
  })

  found_itself :
      IsValid w.uid_to_user a
      → a.heap p ≡ some o
      → find_first a.heap (has_url (base o).url) (downloads owner (touch owner a).transfers)
        ≡ some p
  found_itself v e = rw (downloads-touch owner a owner) (find_first_itself w.uid_to_user a p o v e)

  remove_object-left :
      IsValid w.uid_to_user a
      → a.heap p ≡ some o
      → may_delete w o ≡ true
      → remove_object w p o a ≡ (left, returns)
  unfolding remove_object
  remove_object-left v e may = rw (found_itself v e, may, remove_object) refl

  -- What each list is afterwards.
  left-downloads :
      (u : Text)
      → downloads u left.transfers ≡ (
          if text_eq owner u
          then erase_url a.heap (base o).url (downloads owner a.transfers)
          else downloads u a.transfers)
  unfolding delete_object
  left-downloads u =
      downloads-insert owner u (erase_url a.heap (base o).url (downloads owner touched.transfers))
        touched.transfers
      ∙ rw (downloads-touch owner a owner, downloads-touch owner a u) refl

  elsewhere :
      IsValid w.uid_to_user a
      → a.heap p ≡ some o
      → (u : Text) (q : ℕ) → text_eq owner u ≡ false
      → is_listed a u q ≡ (if q == p then false else is_listed a u q)
  elsewhere v e u q other = elim (Bool-cases (q == p)) [
    | inl here ↦ elim (Bool-cases (is_listed a u q)) [
      | inl i ↦ absurd (
          cc (
            other,
            (text_eq_iff owner u).1 (v.at_home u q o i (ap a.heap ((==_iff q p).0 here) ∙ e)),
          ))
      | inr n ↦ rw here n
    ]
    | inr there ↦ rw there refl
  ]

  left-Struck : IsValid w.uid_to_user a → a.heap p ≡ some o → Struck p a left
  unfolding delete_object
  left-Struck v e =
      let first = find_first_itself w.uid_to_user a p o v e in
      record {
        fresh = (touch-Alike owner a).fresh;
        heap = λ q. rw (touch-heap owner a) refl;
        lists = λ u q. elim (Bool-cases (text_eq owner u)) [
          | inl own ↦
              rw (left-downloads u, own)
                (is_in-erase_url a.heap (base o).url (downloads owner a.transfers) p q
                    (v.nodup owner) first
                  ∙ ap (λ x. if q == p then false else is_listed a x q)
                      ((text_eq_iff owner u).0 own))
          | inr other ↦ rw (left-downloads u, other) (elsewhere v e u q other)
        ];
        nodup = λ u. elim (Bool-cases (text_eq owner u)) [
          | inl own ↦
              rw (left-downloads u, own)
                (is_nodup-erase_url a.heap (base o).url (downloads owner a.transfers) p
                  (v.nodup owner) first)
          | inr other ↦ rw (left-downloads u, other) (v.nodup u)
        ];
      }

-- While the tables and the heap agree: DeferredRemove of a download that may be reaped, and whose
-- destructor need not wait for its completion, strikes out that download and no other, and it
-- returns, as far as it gets the mutexes.
pub deferred_remove_strikes :
    (w : World) (p : ℕ) (o : Object) (a : FtdApp)
    → IsValid w.uid_to_user a
    → a.heap p ≡ some o
    → may_delete w o ≡ true
    → Struck p a (deferred_remove w p a).0 × ((deferred_remove w p a).1 ≡ returns)
unfolding deferred_remove
deferred_remove_strikes w p o a v e may =
    rw (e, deferred_remove, remove_object-left w p o a v e may) (left-Struck w p o a v e, refl)

remove_object-touch :
    (w : World) (p : ℕ) (o : Object) (a : FtdApp)
    → may_delete w o ≡ false
    → (remove_object w p o a).0 ≡ touch (w.uid_to_user (base o).user) a
unfolding remove_object
remove_object-touch w p o a may = ground arith

pub deferred_remove_waits :
    (w : World) (p : ℕ) (o : Object) (a : FtdApp)
    → may_delete w o ≡ false
    → Alike a (remove_object w p o a).0
deferred_remove_waits w p o a may =
    rw (remove_object-touch w p o a may) (touch-Alike (w.uid_to_user (base o).user) a)
