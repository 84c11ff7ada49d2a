-- ===== src/Common/Text.antt =====
-- JavaScript strings: lists of UTF-16 code units. The string methods that the source calls.
use Prim.Native.Char.{code}
use Prim.Native.String.{String}
use Prim.Native.Nat.{ℕ}
use mathlib.Core.Path.{◌≡◌, refl}
use mathlib.Core.Logic.{◌↔◌}
use mathlib.Core.Bool.{Bool, true, false, ◌&&◌, ◌||◌}
use mathlib.Core.Option.{Option, none, some}
use mathlib.Core.List.{List, [], ◌∷◌, ◌++◌}
use native.Mathlib.Omega.{arith}
use nexawhats.Common.Tests.{◌==◌, if◌then◌else◌}

abbrev pub Str : Type 0
Str = List ℕ

-- The units of a literal; every literal of the source is ASCII.
abbrev pub codes : String → Str
codes String.[] = []
codes (String.◌∷◌ c s) = code c ∷ codes s

-- `a === b` on strings.
unfoldable pub str_eq : Str → Str → Bool
str_eq [] [] = true
str_eq [] (b ∷ bs) = false
str_eq (a ∷ as') [] = false
str_eq (a ∷ as') (b ∷ bs) = a == b && str_eq as' bs

pub str_eq_refl : (a : Str) → str_eq a a ≡ true
unfolding str_eq
str_eq_refl [] = refl
str_eq_refl (a ∷ l) = ground (arith, str_eq_refl l)

pub str_eq→eq : (a b : Str) → str_eq a b ≡ true → a ≡ b
unfolding str_eq
str_eq→eq [] [] h = refl
str_eq→eq [] (b ∷ bs) h = ground arith
str_eq→eq (a ∷ l) [] h = ground arith
str_eq→eq (a ∷ l) (b ∷ bs) h = ground (arith, str_eq→eq l bs)

pub str_eq_iff : (a b : Str) → (str_eq a b ≡ true) ↔ (a ≡ b)
str_eq_iff a b = (str_eq→eq a b, λ e. rw e (str_eq_refl b))

-- Membership of a unit, and of a string in a list of strings.
unfoldable pub has : ℕ → Str → Bool
has c [] = false
has c (d ∷ s) = d == c || has c s

unfoldable pub includes : Str → List Str → Bool
includes s [] = false
includes s (t ∷ ts) = str_eq t s || includes s ts

-- `s.slice(0, i)` and `s.slice(i + 1)` at the first `c`; `none` when `indexOf` is -1.
unfoldable pub cut : ℕ → Str → Option (Str × Str)
cut c [] = none
cut c (d ∷ s) =
    if d == c then some ([], s) else elim (cut c s) [ none ↦ none | some (l, r) ↦ some (d ∷ l, r) ]

-- The first two parts of `s.split(c)`, as the array pattern `[a, b]` binds them.
unfoldable pub first_part : ℕ → Str → Str
first_part c [] = []
first_part c (d ∷ s) = if d == c then [] else d ∷ first_part c s

unfoldable pub second_part : ℕ → Str → Option Str
unfolding first_part
second_part c [] = none
second_part c (d ∷ s) = if d == c then some (first_part c s) else second_part c s

pub cut-append : (c : ℕ) (l r : Str) → has c l ≡ false → cut c (l ++ (c ∷ r)) ≡ some (l, r)
unfolding cut has
cut-append c [] r h = ground arith
cut-append c (d ∷ l) r h = ground (arith, cut-append c l r)

pub cut-none : (c : ℕ) (s : Str) → has c s ≡ false → cut c s ≡ none
unfolding cut has
cut-none c [] h = refl
cut-none c (d ∷ s) h = ground (arith, cut-none c s)

pub first_part-none : (c : ℕ) (s : Str) → has c s ≡ false → first_part c s ≡ s
unfolding first_part has
first_part-none c [] h = refl
first_part-none c (d ∷ s) h = ground (arith, first_part-none c s)

pub second_part-none : (c : ℕ) (s : Str) → has c s ≡ false → second_part c s ≡ none
unfolding second_part has
second_part-none c [] h = refl
second_part-none c (d ∷ s) h = ground (arith, second_part-none c s)

pub first_part-append : (c : ℕ) (l r : Str) → has c l ≡ false → first_part c (l ++ (c ∷ r)) ≡ l
unfolding first_part has
first_part-append c [] r h = ground arith
first_part-append c (d ∷ l) r h = ground (arith, first_part-append c l r)

pub second_part-append :
    (c : ℕ) (l r : Str) → has c l ≡ false → second_part c (l ++ (c ∷ r)) ≡ some (first_part c r)
unfolding second_part has
second_part-append c [] r h = ground arith
second_part-append c (d ∷ l) r h = ground (arith, second_part-append c l r)

pub has-append : (c : ℕ) (l r : Str) → has c l ≡ false → has c r ≡ false → has c (l ++ r) ≡ false
unfolding has
has-append c [] r h k = k
has-append c (d ∷ l) r h k = ground (arith, has-append c l r)
