-- ===== src/FtdApp/Heap/Frames.antt =====
-- FtdApp.cpp: what leaves the tables and the heap in agreement.
use mathlib.Core.Option.{some-injective}
use filetransferdaemon.Prelude.{
  ℕ, ◌≡◌, refl, sym, ◌∙◌, ap, true, Option, some, Text, arith, ◌==◌, ==_iff, Bool-cases, inl, inr,
}
use filetransferdaemon.Object.{Object, base}
use filetransferdaemon.FtdApp.{FtdApp, store, touch}
use filetransferdaemon.FtdApp.Adding.Answers.{SameDownloads, downloads-touch}
use filetransferdaemon.FtdApp.Heap.{IsValid, is_listed}

-- The object that was there before `r`: it has the same URL and the same user.
abbrev Before : Option Object → Object → Type 0
Before h r =
    (x : Object) × (h ≡ some x) × ((base r).url ≡ (base x).url) × ((base r).user ≡ (base x).user)

-- The same downloads, and on the heap the same objects, but for what threads and calls change.
pub record Alike (a a' : FtdApp) : Type 0 where
  pub fresh : a'.fresh ≡ a.fresh
  pub same : SameDownloads a a'
  pub forth : (p : ℕ) (o : Object) → a.heap p ≡ some o → (r : Object) × (a'.heap p ≡ some r)
  pub back : (p : ℕ) (r : Object) → a'.heap p ≡ some r → Before (a.heap p) r

pub Alike-trans : {a b c : FtdApp} → Alike a b → Alike b c → Alike a c
Alike-trans k l = record {
  fresh = l.fresh ∙ k.fresh;
  same = λ u. l.same u ∙ k.same u;
  forth = λ p o e. let (r, e') = k.forth p o e in l.forth p r e';
  back = λ p r e.
      let (x, ex, ux, sx) = l.back p r e in
      let (y, ey, uy, sy) = k.back p x ex in (y, ey, ux ∙ uy, sx ∙ sy);
}

-- The heap is the same, and so are the downloads of everybody.
pub same-Alike :
    (a a' : FtdApp) → a'.heap ≡ a.heap → a'.fresh ≡ a.fresh → SameDownloads a a' → Alike a a'
same-Alike a a' h f s = record {
  fresh = f;
  same = s;
  forth = λ p o e. (o, rw h e);
  back = λ p r e. (r, rw h at e, refl, refl);
}

pub touch-heap : (user : Text) (a : FtdApp) → (touch user a).heap ≡ a.heap
touch-heap user a = unfold touch in ground arith

pub touch-Alike : (user : Text) (a : FtdApp) → Alike a (touch user a)
touch-Alike user a =
    same-Alike a (touch user a) (unfold touch in ground arith) (unfold touch in ground arith)
      (downloads-touch user a)

-- An object changes, by its own thread or by a call, and keeps its URL and its user.
pub store-Alike :
    (a : FtdApp) (p : ℕ) (o o' : Object)
    → a.heap p ≡ some o
    → (base o').url ≡ (base o).url
    → (base o').user ≡ (base o).user
    → Alike a (store a p o')
store-Alike a p o o' e url user = record {
  fresh = refl;
  same = λ u. refl;
  forth = λ q x h. elim (Bool-cases (q == p)) [
    | inl here ↦ (o', rw here refl)
    | inr there ↦ (x, rw there h)
  ];
  back = λ q r h. elim (Bool-cases (q == p)) [
    | inl here ↦
        let at_q = ap a.heap ((==_iff q p).0 here) ∙ e in
        let is_r = some-injective o' r (rw here at h) in
        (
          o,
          at_q,
          ap (λ x. (base x).url) (sym is_r) ∙ url,
          ap (λ x. (base x).user) (sym is_r) ∙ user,
        )
    | inr there ↦ (r, rw there at h, refl, refl)
  ];
}

-- What is alike is as valid.
pub Alike-IsValid :
    (name : ℕ → Text) (a a' : FtdApp) → Alike a a' → IsValid name a → IsValid name a'
Alike-IsValid name a a' k v =
    let was = λ (u : Text) (p : ℕ) (i : is_listed a' u p ≡ true). rw (k.same u) at i in
    record {
      present = λ u p i. let (o, e) = v.present u p (was u p i) in k.forth p o e;
      below = λ u p i. rw k.fresh (v.below u p (was u p i));
      at_home = λ u p r i e.
          let (x, ex, _, user) = k.back p r e in ap name user ∙ v.at_home u p x (was u p i) ex;
      listed = λ p r e.
          let (x, ex, _, user) = k.back p r e in
          rw (user, k.same (name (base x).user)) (v.listed p x ex);
      nodup = λ u. rw (k.same u) (v.nodup u);
      one_url = λ x y p q o r i j e g same.
          let (o', eo, uo, _) = k.back p o e in
          let (r', er, ur, _) = k.back q r g in
          v.one_url x y p q o' r' (was x p i) (was y q j) eo er (sym uo ∙ same ∙ ur);
    }
