-- ===== src/Prelude/Tables.antt =====
-- std::map as the list of its entries in key order, over texts and over numbers.
use Prim.Native.Nat.{ℕ}
use mathlib.Core.Path.{◌≡◌, refl}
use mathlib.Core.Option.{Option, none, some}
use mathlib.Core.List.{List, [], ◌∷◌}
use native.Mathlib.Omega.{arith}
use filetransferdaemon.Prelude.Tests.{◌==◌, ltb, if◌then◌else◌}
use filetransferdaemon.Prelude.Strings.{Text, text_eq, text_lt, text_eq_iff}

abbrev pub Table {ℓ} : Type ℓ → Type ℓ
Table V = List (Text × V)

module _ {ℓ} {V : Type ℓ} where
  -- m.find(k)
  unfoldable pub lookup : Text → Table V → Option V
  lookup k [] = none
  lookup k ((j, v) ∷ m) = let rest = lookup k m in if text_eq j k then some v else rest

  -- m[k] = v
  unfoldable pub insert : Text → V → Table V → Table V
  insert k v [] = (k, v) ∷ []
  insert k v ((j, w) ∷ m) =
      let rest = insert k v m in
      if text_eq j k then (k, v) ∷ m else if text_lt k j then (k, v) ∷ (j, w) ∷ m else (j, w) ∷ rest

  pub lookup-insert :
      (k j : Text) (v : V) (m : Table V)
      → lookup j (insert k v m) ≡ (if text_eq k j then some v else lookup j m)
  unfolding lookup insert
  lookup-insert k j v [] = refl
  lookup-insert k j v ((i, w) ∷ m) =
      ground (arith, text_eq_iff k j, text_eq_iff i k, text_eq_iff i j, lookup-insert k j v m)

-- The same over numbers: pointers, watch descriptors, addresses of functions.
module _ {ℓ} {V : Type ℓ} where
  unfoldable pub lookup_at : ℕ → List (ℕ × V) → Option V
  lookup_at k [] = none
  lookup_at k ((j, v) ∷ m) = let rest = lookup_at k m in if j == k then some v else rest

  unfoldable pub insert_at : ℕ → V → List (ℕ × V) → List (ℕ × V)
  insert_at k v [] = (k, v) ∷ []
  insert_at k v ((j, w) ∷ m) =
      let rest = insert_at k v m in
      if j == k then (k, v) ∷ m else if ltb k j then (k, v) ∷ (j, w) ∷ m else (j, w) ∷ rest

  pub lookup_at-insert_at :
      (k j : ℕ) (v : V) (m : List (ℕ × V))
      → lookup_at j (insert_at k v m) ≡ (if k == j then some v else lookup_at j m)
  unfolding lookup_at insert_at
  lookup_at-insert_at k j v [] = refl
  lookup_at-insert_at k j v ((i, w) ∷ m) = ground (arith, lookup_at-insert_at k j v m)

-- m[k] read as a value: a missing key is given the empty text first.
unfoldable pub index : Text → Table Text → Text × Table Text
index k m = elim (lookup k m) [ none ↦ ([], insert k [] m) | some v ↦ (v, m) ]
