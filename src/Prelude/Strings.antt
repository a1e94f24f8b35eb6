-- ===== src/Prelude/Strings.antt =====
-- std::string as the list of its bytes: equality, the order of std::less, find, rfind and substr.
use Prim.Native.Nat.{ℕ, zero, suc, ◌+◌, ◌/◌, ◌%◌}
use Prim.Native.Char.{code}
use Prim.Native.String.{String}
use mathlib.Core.Path.{◌≡◌, refl}
use mathlib.Core.Logic.{◌↔◌}
use mathlib.Core.Bool.{Bool, true, false}
use mathlib.Core.Option.{Option, none, some}
use mathlib.Core.List.{List, [], ◌∷◌}
use native.Mathlib.Omega.{arith}
use filetransferdaemon.Prelude.Tests.{◌==◌, ltb, if◌then◌else◌}

abbrev pub Text : Type 0
Text = List ℕ

-- A literal of the source.
abbrev pub codes : String → Text
codes String.[] = []
codes (String.◌∷◌ c s) = code c ∷ codes s

unfoldable pub text_eq : Text → Text → Bool
text_eq [] [] = true
text_eq [] (y ∷ ys) = false
text_eq (x ∷ xs) [] = false
text_eq (x ∷ xs) (y ∷ ys) = let rest = text_eq xs ys in if x == y then rest else false

pub text_eq_iff : (s t : Text) → (text_eq s t ≡ true) ↔ (s ≡ t)
unfolding text_eq
text_eq_iff [] [] = ground arith
text_eq_iff [] (y ∷ ys) = ground arith
text_eq_iff (x ∷ xs) [] = ground arith
text_eq_iff (x ∷ xs) (y ∷ ys) = ground (arith, text_eq_iff xs ys)

pub text_eq_refl : (s : Text) → text_eq s s ≡ true
text_eq_refl s = (text_eq_iff s s).1 refl

-- The lexicographic order by which std::map keeps its keys.
unfoldable pub text_lt : Text → Text → Bool
text_lt s [] = false
text_lt [] (y ∷ ys) = true
text_lt (x ∷ xs) (y ∷ ys) =
    let rest = text_lt xs ys in if ltb x y then true else if x == y then rest else false

-- s.empty()
unfoldable pub is_empty : Text → Bool
is_empty [] = true
is_empty (x ∷ xs) = false

-- s.substr(s.rfind(c)+1): what follows the last `c`, and all of `s` without one. (npos + 1 is 0.)
after_last_from : ℕ → Text → Text → Text
after_last_from c best [] = best
after_last_from c best (x ∷ xs) = after_last_from c (if x == c then xs else best) xs

unfoldable pub after_last : ℕ → Text → Text
unfolding after_last_from
after_last c s = after_last_from c s s

-- s.find(c) as a split: what stands before the first `c` and what stands after it.
unfoldable pub split_first : ℕ → Text → Option (Text × Text)
split_first c [] = none
split_first c (x ∷ xs) =
    let rest = split_first c xs in
    if x == c then some ([], xs) else elim rest [ none ↦ none | some (a, b) ↦ some (x ∷ a, b) ]

-- s.substr(0, p.length()) == p
unfoldable pub starts_with : Text → Text → Bool
starts_with [] s = true
starts_with (p ∷ ps) [] = false
starts_with (p ∷ ps) (x ∷ xs) = let rest = starts_with ps xs in if p == x then rest else false

-- The decimal digits that `oss << i` writes, with fuel for the digits.
digits_from : ℕ → ℕ → Text → Text
digits_from zero n out = out
digits_from (suc f) n out =
    let here = (48 + n % 10) ∷ out in
    let rest = digits_from f (n / 10) here in if ltb n 10 then here else rest

unfoldable pub digits : ℕ → Text
unfolding digits_from
digits n = digits_from (suc n) n []

file_name : after_last b'/' (codes "http://h/a/b.iso") ≡ codes "b.iso"
unfolding after_last
file_name = refl

no_slash : after_last b'/' (codes "b.iso") ≡ codes "b.iso"
unfolding after_last
no_slash = refl

ten : digits 1024 ≡ codes "1024"
unfolding digits
ten = refl
