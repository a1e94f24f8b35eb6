-- ===== src/FtdApp/Adding/Names.antt =====
-- FtdApp.cpp, AddDownload: the choice of the file name.
use filetransferdaemon.Prelude.{
  ℕ, zero, suc, ◌+◌, ◌≤◌, ◌<◌, ◌≡◌, refl, sym, ◌∙◌, ◌⊎◌, inl, inr, Bool, true, false, some, ◌++◌,
  Text, Bool-cases, arith,
}
use mathlib.Core.Path.{subst}
use mathlib.Core.Bool.{false≢true}
use native.Mathlib.Decide.{ℕ_discrete}
use filetransferdaemon.FtdApp.Adding.{next_free, unique_name, numbered}

abbrev AllTaken : (Text → Bool) → Text → Text → ℕ → ℕ → Type 0
AllTaken exists path filename i k =
    (j : ℕ) → i ≤ j → j < k → exists (path ++ numbered filename j) ≡ true

-- A name that the loop settles on is free, and it is the first free one.
abbrev pub FirstFree : (Text → Bool) → Text → Text → ℕ → Text → Type 0
FirstFree exists path filename i name =
    (k : ℕ) × (i ≤ k)
    × (name ≡ numbered filename k)
    × (exists (path ++ name) ≡ false)
    × ((j : ℕ) → i ≤ j → j < k → exists (path ++ numbered filename j) ≡ true)

taken_from :
    (exists : Text → Bool) (path filename : Text) (i k : ℕ)
    → exists (path ++ numbered filename i) ≡ true
    → AllTaken exists path filename (i + 1) k
    → AllTaken exists path filename i k
taken_from exists path filename i k taken later j low high = elim (ℕ_discrete i j) [
  | yes same ↦ subst (λ n. exists (path ++ numbered filename n) ≡ true) same taken
  | no other ↦ later j (omega arith) high
]

next_free-FirstFree :
    (exists : Text → Bool) (path filename : Text) (fuel i : ℕ) {name : Text}
    → next_free exists path filename fuel i ≡ some name
    → FirstFree exists path filename i name
unfolding next_free
next_free-FirstFree exists path filename zero i h = cc
next_free-FirstFree exists path filename (suc fuel) i {name} h =
    elim (Bool-cases (exists (path ++ numbered filename i))) [
      | inl taken ↦
          let (k, low, named, free, before) =
            next_free-FirstFree exists path filename fuel (i + 1) {name = name} (ground arith) in
          (k, omega arith, named, free, taken_from exists path filename i k taken before)
      | inr free ↦ (i, omega arith, ground arith, ground arith, λ j low high. absurd (omega arith))
    ]

above_taken :
    (exists : Text → Bool) (path filename : Text) (i k : ℕ)
    → i ≤ k
    → exists (path ++ numbered filename i) ≡ true
    → exists (path ++ numbered filename k) ≡ false
    → i + 1 ≤ k
above_taken exists path filename i k low taken free = elim (ℕ_discrete i k) [
  | yes same ↦
      absurd (
        false≢true (sym free ∙ subst (λ n. exists (path ++ numbered filename n) ≡ true) same taken))
  | no other ↦ omega arith
]

next_free_total :
    (exists : Text → Bool) (path filename : Text) (fuel i k : ℕ)
    → i ≤ k
    → k < i + fuel
    → exists (path ++ numbered filename k) ≡ false
    → (name : Text) × (next_free exists path filename fuel i ≡ some name)
unfolding next_free
next_free_total exists path filename zero i k low high free = absurd (omega arith)
next_free_total exists path filename (suc fuel) i k low high free =
    elim (Bool-cases (exists (path ++ numbered filename i))) [
      | inl taken ↦ rw taken (
          next_free_total exists path filename fuel (i + 1) k
            (above_taken exists path filename i k low taken free) (omega arith) free)
      | inr untaken ↦ (numbered filename i, rw untaken)
    ]

-- With a free number in reach of the fuel the loop ends. A plain name that is not taken is kept,
-- and otherwise the name is the first numbered one that is not taken.
pub unique_name_lem :
    (exists : Text → Bool) (path filename : Text) (fuel k : ℕ)
    → 1 ≤ k
    → k ≤ fuel
    → exists (path ++ numbered filename k) ≡ false
    → (name : Text) × (unique_name exists fuel path filename ≡ some name)
      × ((exists (path ++ filename) ≡ false) × (name ≡ filename)
          ⊎ (exists (path ++ filename) ≡ true) × FirstFree exists path filename 1 name)
unfolding unique_name
unique_name_lem exists path filename fuel k low high free =
    elim (Bool-cases (exists (path ++ filename))) [
      | inl taken ↦
          let (name, found) =
            next_free_total exists path filename fuel 1 k low (omega arith) free in
          (
            name,
            rw taken found,
            inr (taken, next_free-FirstFree exists path filename fuel 1 {name = name} found),
          )
      | inr untaken ↦ (filename, rw untaken refl, inl (untaken, refl))
    ]
