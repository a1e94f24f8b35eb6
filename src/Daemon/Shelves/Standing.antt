-- ===== src/Daemon/Shelves/Standing.antt =====
-- The shelves that the tables and the heap of FtdApp.cpp stand for, and the downloads on them.
use filetransferdaemon.Prelude.{
  ℕ, ◌≡◌, refl, sym, Bool, true, false, ◌&&◌, some, Text, text_eq_iff, arith, Option-cases, inl,
  inr,
}
use filetransferdaemon.Object.{Object, base}
use filetransferdaemon.FtdApp.{FtdApp, downloads, find_first, has_url, is_found}
use filetransferdaemon.FtdApp.Heap.{IsValid, is_listed}
use filetransferdaemon.FtdApp.Heap.Lists.{find_first-none, find_first-some}
use filetransferdaemon.FtdApp.Heap.Removing.{object_with}

-- Whether a URL stands on the shelf of a user.
abbrev pub Shelves : Type 0
Shelves = Text → Text → Bool

-- The shelves that the tables and the heap stand for.
abbrev pub shelves : FtdApp → Shelves
shelves a u v = is_found (find_first a.heap (has_url v) (downloads u a.transfers))

-- A download of the user with the URL.
abbrev pub Stands : FtdApp → Text → Text → Type 0
Stands a u v =
    (p : ℕ) × (o : Object) × (is_listed a u p ≡ true) × (a.heap p ≡ some o) × ((base o).url ≡ v)

pub shelves_stand :
    (name : ℕ → Text) (a : FtdApp) (u v : Text)
    → IsValid name a
    → shelves a u v ≡ true
    → Stands a u v
unfolding is_found
shelves_stand name a u v valid h =
    elim (Option-cases (find_first a.heap (has_url v) (downloads u a.transfers))) [
      | inl e ↦ absurd (cc (rw e at h))
      | inr (p, e) ↦
          let (i, t) = find_first-some a.heap (has_url v) (downloads u a.transfers) p e in
          let (o, g) = valid.present u p i in (p, o, i, g, object_with (a.heap p) o v g t)
    ]

pub stand_shelves : (a : FtdApp) (u v : Text) → Stands a u v → shelves a u v ≡ true
unfolding is_found
stand_shelves a u v (p, o, i, g, same) =
    elim (Option-cases (find_first a.heap (has_url v) (downloads u a.transfers))) [
      | inl e ↦ absurd (
          cc (
            find_first-none a.heap (has_url v) (downloads u a.transfers) p o e i g,
            (text_eq_iff (base o).url v).1 same,
          ))
      | inr (q, e) ↦ rw e refl
    ]

pub both : {b c : Bool} → (b && c) ≡ true → (b ≡ true) × (c ≡ true)
both h = ground arith

pub Bool_eq : (b c : Bool) → (b ≡ true → c ≡ true) → (c ≡ true → b ≡ true) → b ≡ c
Bool_eq true c f g = sym (f refl)
Bool_eq false true f g = g refl
Bool_eq false false f g = refl
