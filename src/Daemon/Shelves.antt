-- ===== src/Daemon/Shelves.antt =====
-- filetransferdaemon.cpp and FtdApp.cpp against what they promise: each user has a shelf of URLs, and
-- no URL stands on two shelves.
mod Standing
use mathlib.Core.Option.{some-injective}
use filetransferdaemon.Prelude.{
  ℕ, ◌≡◌, refl, sym, ◌∙◌, ap, true, false, ◌&&◌, some, Text, text_eq, text_eq_iff, text_eq_refl,
  arith, ◌==◌, ==_iff, if◌then◌else◌, Bool-cases, inl, inr,
}
use filetransferdaemon.Object.{Object, base}
use filetransferdaemon.FtdApp.{FtdApp, downloads, touch, find_by_url}
use filetransferdaemon.FtdApp.Heap.{IsValid}
use filetransferdaemon.FtdApp.Heap.Frames.{Alike}
use filetransferdaemon.FtdApp.Heap.Removing.{Struck, was_listed, was_there}
use filetransferdaemon.FtdApp.Heap.Launching.{Grown}
use filetransferdaemon.FtdApp.Heap.Growing.{
  find_by_url-new, listed_now, listed_cases, old_object, still_there, new_object,
}
use filetransferdaemon.FtdApp.Heap.Fate.{Fate, alike, grown, struck, Fate-IsValid}
use filetransferdaemon.Daemon.{Daemon}
use filetransferdaemon.Daemon.Turns.{Turn, Reach, IsNew, ArePlain, IsPlainTurn}
use filetransferdaemon.Daemon.Turns.Agreement.{reach-IsValid, Turn-Fate}
pub use Standing.{Shelves, shelves}
use Standing.{shelves_stand, stand_shelves, both, Bool_eq}

-- What may happen to the shelves: nothing, or a URL that stands nowhere is put on one, or a URL is
-- taken off one.
pub data Change (s t : Shelves) : Type 0 where
  idle : ((u v : Text) → t u v ≡ s u v) → Change s t
  puts :
      (user url : Text)
      → ((u : Text) → s u url ≡ false)
      → ((u v : Text) → t u v ≡ (if text_eq user u && text_eq url v then true else s u v))
      → Change s t
  takes :
      (user url : Text)
      → s user url ≡ true
      → ((u v : Text) → t u v ≡ (if text_eq user u && text_eq url v then false else s u v))
      → Change s t

module _ (name : ℕ → Text) (a b : FtdApp) (va : IsValid name a) (vb : IsValid name b) where
  Alike-shelves : Alike a b → (u v : Text) → shelves b u v ≡ shelves a u v
  Alike-shelves k u v =
      Bool_eq (shelves b u v) (shelves a u v)
        (λ h.
          let (p, o, i, g, same) = shelves_stand name b u v vb h in
          let (x, e, url, _) = k.back p o g in
          stand_shelves a u v (p, x, rw (k.same u) at i, e, sym url ∙ same))
        (λ h.
          let (p, o, i, g, same) = shelves_stand name a u v va h in
          let (r, e) = k.forth p o g in
          let (x, f, url, _) = k.back p r e in
          stand_shelves b u v (
            p,
            r,
            rw (k.same u) i,
            e,
            url ∙ ap (λ z. (base z).url) (some-injective x o (sym f ∙ g)) ∙ same,
          ))

  -- The tests of both texts.
  module _ (p : ℕ) (o : Object) (e : a.heap p ≡ some o) (k : Struck p a b) where
    struck-none :
        (u v : Text) → name (base o).user ≡ u → (base o).url ≡ v → shelves b u v ≡ true → ⊥
    struck-none u v own same h =
        let (q, r, i, g, url) = shelves_stand name b u v vb h in
        let (other, was) = was_listed name p a b k u q i in
        let (_, had) = was_there name p a b k q r g in
        let mine = rw own at (va.listed p o e) in
        absurd (ground (arith, other, va.one_url u u q p r o was mine had e (url ∙ sym same)))

    struck-before : (u v : Text) → shelves b u v ≡ true → shelves a u v ≡ true
    struck-before u v h =
        let (q, r, i, g, url) = shelves_stand name b u v vb h in
        stand_shelves a u v
          (q, r, (was_listed name p a b k u q i).1, (was_there name p a b k q r g).1, url)

    struck-after :
        (u v : Text)
        → (text_eq (name (base o).user) u && text_eq (base o).url v) ≡ false
        → shelves a u v ≡ true
        → shelves b u v ≡ true
    struck-after u v differs h =
        let (q, r, i, g, url) = shelves_stand name a u v va h in
        elim (Bool-cases (q == p)) [
          | inl here ↦
              let is = some-injective r o (sym g ∙ ap a.heap ((==_iff q p).0 here) ∙ e) in
              let own = va.at_home u q r i g in
              absurd (
                cc (
                  differs,
                  (text_eq_iff (name (base o).user) u).1
                      (ap (λ x. name (base x).user) (sym is) ∙ own),
                  (text_eq_iff (base o).url v).1 (ap (λ x. (base x).url) (sym is) ∙ url),
                ))
          | inr there ↦
              stand_shelves b u v (q, r, rw (k.lists u q, there) i, rw (k.heap q, there) g, url)
        ]

    struck-shelves :
        (u v : Text)
        → shelves b u v ≡ (
            if text_eq (name (base o).user) u && text_eq (base o).url v
            then false
            else shelves a u v)
    struck-shelves u v =
        elim (Bool-cases (text_eq (name (base o).user) u && text_eq (base o).url v)) [
          | inl hit ↦ rw hit (
              Bool_eq (shelves b u v) false
                (λ h. absurd (
                  struck-none u v ((text_eq_iff (name (base o).user) u).0 (both hit).0)
                    ((text_eq_iff (base o).url v).0 (both hit).1) h))
                (λ h. cc))
          | inr miss ↦
              rw miss (
                Bool_eq (shelves b u v) (shelves a u v) (struck-before u v) (struck-after u v miss))
        ]

  module _ (user url : Text) (uid : ℕ) (known : name uid ≡ user) (k : Grown user url uid a b) where
    grown-here : shelves b user url ≡ true
    grown-here = stand_shelves b user url (
      a.fresh,
      k.object,
      listed_now name user url uid a b k user a.fresh ∙ rw (text_eq_refl user) (ground arith),
      k.heap a.fresh ∙ ground arith,
      k.url_is,
    )

    grown-before : (u v : Text) → shelves a u v ≡ true → shelves b u v ≡ true
    grown-before u v h =
        let (q, r, i, g, same) = shelves_stand name a u v va h in
        stand_shelves b u v (
          q,
          r,
          ground (arith, listed_now name user url uid a b k u q, i),
          still_there name user url uid a b k va u q r i g,
          same,
        )

    grown-after :
        (u v : Text)
        → (text_eq user u && text_eq url v) ≡ false
        → shelves b u v ≡ true
        → shelves a u v ≡ true
    grown-after u v differs h =
        let (q, r, i, g, same) = shelves_stand name b u v vb h in
        elim (listed_cases name user url uid a b k u q i) [
          | inl (here, own) ↦
              let is = new_object name user url uid a b k r (rw here at g) in
              absurd (
                cc (
                  differs,
                  (text_eq_iff user u).1 own,
                  (text_eq_iff url v).1 (sym k.url_is ∙ ap (λ x. (base x).url) is ∙ same),
                ))
          | inr was ↦
              stand_shelves a u v
                (q, r, was, old_object name user url uid a b k va u q r was g, same)
        ]

    grown-shelves :
        (u v : Text)
        → shelves b u v ≡ (if text_eq user u && text_eq url v then true else shelves a u v)
    grown-shelves u v = elim (Bool-cases (text_eq user u && text_eq url v)) [
      | inl hit ↦ rw hit (
          ap (λ x. shelves b x v) (sym ((text_eq_iff user u).0 (both hit).0))
          ∙ ap (λ y. shelves b user y) (sym ((text_eq_iff url v).0 (both hit).1))
          ∙ grown-here)
      | inr miss ↦
          rw miss
            (Bool_eq (shelves b u v) (shelves a u v) (grown-after u v miss) (grown-before u v))
    ]

    grown-new : find_by_url url (touch user a) ≡ false → (u : Text) → shelves a u url ≡ false
    grown-new new u = elim (Bool-cases (shelves a u url)) [
      | inl h ↦
          let (q, r, i, g, same) = shelves_stand name a u url va h in
          absurd
            (cc (find_by_url-new user url u a q r new i g, (text_eq_iff (base r).url url).1 same))
      | inr h ↦ h
    ]

  fate-Change : Fate name a b → Change (shelves a) (shelves b)
  fate-Change (alike k) = idle (Alike-shelves k)
  fate-Change (grown user url uid known new k) =
      puts user url (grown-new user url uid known k new) (grown-shelves user url uid known k)
  fate-Change (struck p o e k) =
      takes (name (base o).user) (base o).url (stand_shelves a _ _ (p, o, va.listed p o e, e, refl))
        (struck-shelves p o e k)

-- Every plain turn of a daemon that has come about by plain turns from one without downloads leaves
-- the shelves as they are, puts a URL that stands nowhere on the shelf of one user, or takes one URL
-- off one shelf.
pub turn_refines :
    (name : ℕ → Text) {first d e : Daemon} (r : Reach first d) (t : Turn d e)
    → IsNew first
    → ArePlain name r
    → IsPlainTurn name t
    → Change (shelves d.app) (shelves e.app)
turn_refines name {first} {d} {e} r t n before p =
    let v = reach-IsValid name r n before in
    let fate = Turn-Fate name t p v in
    fate-Change name d.app e.app v (Fate-IsValid name d.app e.app fate v) fate
