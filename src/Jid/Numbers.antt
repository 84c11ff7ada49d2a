-- ===== src/Jid/Numbers.antt =====
-- What src/utils/jid.ts uses of JavaScript's numbers: `+text`, `Number.parseInt(text, 10)` and
-- `${n}`. Text with a sign, a point, an exponent, a hex prefix or white space, which JavaScript
-- reads too, is `nan` here; values past 2 ^ 53 are not rounded.
use nexawhats.Common.{
  ℕ, zero, suc, ◌+◌, ◌-◌, ◌*◌, ◌/◌, ◌%◌, ◌≤◌, ◌<◌, ◌≡◌, refl, ◌∙◌, ap, arith, leb, ltb, ◌==◌,
  if◌then◌else◌, Bool, true, false, ◌&&◌, [], ◌∷◌, ◌++◌, length, all, All, All-append, inl, inr,
  Bool-cases, length-append,
}
use native.Mathlib.Numerals.{add-one}
use nexawhats.Common.Text.{Str}

pub data Number : Type 0 where
  num : ℕ → Number
  nan : Number

-- `0` and `NaN` are falsy.
abbrev pub truthy : Number → Bool
truthy (num n) = if n == 0 then false else true
truthy nan = false

abbrev pub is_digit : ℕ → Bool
is_digit c = leb b'0' c && leb c b'9'

pub digits_value : ℕ → Str → ℕ
digits_value acc [] = acc
digits_value acc (c ∷ s) = digits_value (acc * 10 + (c - b'0')) s

unfoldable pub to_number : Str → Number
unfolding digits_value
to_number [] = num 0
to_number (c ∷ s) = if all is_digit (c ∷ s) then num (digits_value 0 (c ∷ s)) else nan

leading_digits : Str → Str
leading_digits [] = []
leading_digits (c ∷ s) = if is_digit c then c ∷ leading_digits s else []

abbrev parse_digits : Str → Number
parse_digits [] = nan
parse_digits (c ∷ s) = num (digits_value 0 (c ∷ s))

unfoldable pub parse_int : Str → Number
unfolding digits_value leading_digits
parse_int s = parse_digits (leading_digits s)

-- The decimal digits of `n`, with fuel above `n`.
decimal_from : ℕ → ℕ → Str
decimal_from zero n = []
decimal_from (suc fuel) n =
    let front = decimal_from fuel (n / 10) in
    if ltb n 10 then (b'0' + n) ∷ [] else front ++ ((b'0' + n % 10) ∷ [])

unfoldable pub decimal : ℕ → Str
unfolding decimal_from
decimal n = decimal_from (n + 1) n

digits_value-append :
    (s : Str) (acc c : ℕ) → digits_value acc (s ++ (c ∷ [])) ≡ digits_value acc s * 10 + (c - b'0')
unfolding digits_value
digits_value-append [] acc c = refl
digits_value-append (d ∷ s) acc c = digits_value-append s (acc * 10 + (d - b'0')) c

digits_value-decimal_from : (fuel n : ℕ) → n < fuel → digits_value 0 (decimal_from fuel n) ≡ n
unfolding decimal_from digits_value
digits_value-decimal_from zero n h = absurd (omega arith)
digits_value-decimal_from (suc fuel) n h = elim (Bool-cases (ltb n 10)) [
  | inl small ↦ rw small (ground arith)
  | inr big ↦ rw big (
      digits_value-append (decimal_from fuel (n / 10)) 0 (b'0' + n % 10)
      ∙ rest (digits_value-decimal_from fuel (n / 10) (ground arith)))
]
  where
    rest :
        digits_value 0 (decimal_from fuel (n / 10)) ≡ n / 10
        → digits_value 0 (decimal_from fuel (n / 10)) * 10 + (b'0' + n % 10 - b'0') ≡ n
    rest e = omega (arith, e)

abbrev pub IsDigit : ℕ → Type 0
IsDigit c = (b'0' ≤ c) × (c ≤ b'9')

decimal_from-IsDigit : (fuel n : ℕ) → All IsDigit (decimal_from fuel n)
unfolding decimal_from
decimal_from-IsDigit zero n = tt
decimal_from-IsDigit (suc fuel) n = elim (Bool-cases (ltb n 10)) [
  | inl small ↦ rw small ((ground arith, ground arith), tt)
  | inr big ↦ rw big (
      All-append IsDigit (decimal_from fuel (n / 10)) _ (decimal_from-IsDigit fuel (n / 10))
        (omega arith))
]

all-is_digit : (s : Str) → All IsDigit s → all is_digit s ≡ true
all-is_digit [] h = refl
all-is_digit (c ∷ s) h = ground (arith, all-is_digit s)

length-decimal_from_pos : (fuel n : ℕ) → 0 < length (decimal_from (suc fuel) n)
unfolding decimal_from
length-decimal_from_pos fuel n = elim (Bool-cases (ltb n 10)) [
  | inl small ↦ rw small (omega arith)
  | inr big ↦
      rw big (omega (arith, length-append {0} (decimal_from fuel (n / 10)) ((b'0' + n % 10) ∷ [])))
]

pub decimal-IsDigit : (n : ℕ) → All IsDigit (decimal n)
unfolding decimal
decimal-IsDigit n = decimal_from-IsDigit (n + 1) n

to_number_of_digits :
    (s : Str) → 0 < length s → All IsDigit s → to_number s ≡ num (digits_value 0 s)
unfolding to_number
to_number_of_digits [] p h = absurd (omega arith)
to_number_of_digits (c ∷ s) p h = rw (all-is_digit (c ∷ s) h)

-- Reading back a printed number, by `+` and by `parseInt`.
pub to_number-decimal : (n : ℕ) → to_number (decimal n) ≡ num n
unfolding decimal
to_number-decimal n =
    to_number_of_digits (decimal_from (n + 1) n) pos (decimal_from-IsDigit (n + 1) n)
    ∙ ap num (digits_value-decimal_from (n + 1) n (omega arith))
  where
    pos : 0 < length (decimal_from (n + 1) n)
    pos = rw add-one (length-decimal_from_pos n n)

leading_digits-All : (s : Str) → All IsDigit s → leading_digits s ≡ s
unfolding leading_digits
leading_digits-All [] h = refl
leading_digits-All (c ∷ s) h = ground (arith, leading_digits-All s)

pub decimal_cons : (n : ℕ) → (c : ℕ) × (s : Str) × (decimal n ≡ c ∷ s)
unfolding decimal
decimal_cons n = go (decimal_from (n + 1) n) refl
  where
    go :
        (t : Str)
        → decimal_from (n + 1) n ≡ t
        → (c : ℕ) × (s : Str) × (decimal_from (n + 1) n ≡ c ∷ s)
    go [] e = absurd (omega (arith, ap length (rw add-one at e), length-decimal_from_pos n n))
    go (c ∷ s) e = (c, s, e)
