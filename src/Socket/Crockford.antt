-- ===== src/Socket/Crockford.antt =====
-- `bytesToCrockford` of src/socket/pairing.ts. `value` is an integer of 32 bits, of which the shifts
-- keep the low ones; here it is unsigned, since only its low bits are read.
use nexawhats.Common.{
  ℕ, zero, suc, ◌+◌, ◌-◌, ◌*◌, ◌/◌, ◌%◌, ◌^◌, ◌<◌, leb, ltb, ◌≡◌, ap, ◌∙◌, arith, if◌then◌else◌,
  List, [], ◌∷◌, ◌++◌, map, length, All,
}
use nexawhats.Common.Text.{Str, codes}

abbrev pub crockford_chars : Str
crockford_chars = codes "123456789ABCDEFGHJKLMNPQRSTVWXYZ"

abbrev char_from : Str → ℕ → ℕ
char_from [] n = 0
char_from (c ∷ s) zero = c
char_from (c ∷ s) (suc n) = char_from s n

-- `CROCKFORD_CHARS.charAt(n)`, as a code.
abbrev pub char_at : ℕ → ℕ
char_at n = char_from crockford_chars n

-- The loop `while (bitCount >= 5)`: the digits, and the bits that are left.
unfoldable pub take_digits : ℕ → ℕ → ℕ → List ℕ × ℕ
take_digits zero value bit_count = ([], bit_count)
take_digits (suc fuel) value bit_count =
    let (digits, left) = take_digits fuel value (bit_count - 5) in
    if leb 5 bit_count then ((value / 2 ^ (bit_count - 5)) % 32 ∷ digits, left) else ([], bit_count)

-- What the loop over the bytes pushes, as the numbers of the characters. A byte adds eight bits to at
-- most four, so that there are two digits at most.
unfoldable pub digits_from : ℕ → ℕ → List ℕ → List ℕ
digits_from value bit_count [] =
    if ltb 0 bit_count then ((value * 2 ^ (5 - bit_count)) % 2 ^ 32) % 32 ∷ [] else []
digits_from value bit_count (byte ∷ bytes) =
    let next = (value * 2 ^ 8) % 2 ^ 32 + byte % 256 in
    let (digits, left) = take_digits 2 next (bit_count + 8) in digits ++ digits_from next left bytes

unfoldable pub bytes_to_crockford : List ℕ → Str
bytes_to_crockford buffer = map char_at (digits_from 0 0 buffer)

-- The number that a list of digits writes, after `a`.
abbrev pub value : ℕ → ℕ → List ℕ → ℕ
value base a [] = a
value base a (d ∷ ds) = value base (base * a + d) ds

-- The zero bits that fill up the last digit of `bits` bits.
abbrev pub padding : ℕ → ℕ
padding bits = (5 - bits % 5) % 5

abbrev pub IsByte : ℕ → Type 0
IsByte c = c < 256

abbrev pub scaled : ℕ → ℕ → List ℕ → ℕ
scaled p x bs = 2 ^ padding p * value 256 x bs

pub scaled_eq :
    (p q x y : ℕ) (bs : List ℕ) → padding p ≡ padding q → x ≡ y → scaled p x bs ≡ scaled q y bs
scaled_eq p q x y bs e h =
    ap (λ k. 2 ^ k * value 256 x bs) e ∙ ap (λ z. 2 ^ padding q * value 256 z bs) h

-- The digits that are pushed and the bits that are left write what the bytes write.
abbrev pub IsDigit : ℕ → Type 0
IsDigit d = d < 32

pub digits_from-value :
    (a v b : ℕ) (bs : List ℕ)
    → b < 5
    → All IsByte bs
    → value 32 a (digits_from v b bs) ≡ scaled (b + 8 * length bs) (2 ^ b * a + v % 2 ^ b) bs
unfolding digits_from take_digits
digits_from-value a v zero [] h k = omega arith
digits_from-value a v (suc zero) [] h k = omega arith
digits_from-value a v (suc (suc zero)) [] h k = omega arith
digits_from-value a v (suc (suc (suc zero))) [] h k = omega arith
digits_from-value a v (suc (suc (suc (suc zero)))) [] h k = omega arith
digits_from-value a v zero (c ∷ bs) h (small, k) =
    let next = (v * 256) % 2 ^ 32 + c % 256 in
    let d = (next / 8) % 32 in
    digits_from-value (32 * a + d) next 3 bs (omega arith) k
    ∙ scaled_eq (3 + 8 * length bs) (0 + 8 * suc (length bs)) (8 * (32 * a + d) + next % 8)
        (256 * (1 * a + v % 1) + c) bs (omega arith) (omega (arith, small))
digits_from-value a v (suc zero) (c ∷ bs) h (small, k) =
    let next = (v * 256) % 2 ^ 32 + c % 256 in
    let d = (next / 16) % 32 in
    digits_from-value (32 * a + d) next 4 bs (omega arith) k
    ∙ scaled_eq (4 + 8 * length bs) (1 + 8 * suc (length bs)) (16 * (32 * a + d) + next % 16)
        (256 * (2 * a + v % 2) + c) bs (omega arith) (omega (arith, small))
digits_from-value a v (suc (suc zero)) (c ∷ bs) h (small, k) =
    let next = (v * 256) % 2 ^ 32 + c % 256 in
    let d = (next / 32) % 32 in
    let e = (next / 1) % 32 in
    digits_from-value (32 * (32 * a + d) + e) next 0 bs (omega arith) k
    ∙ scaled_eq (0 + 8 * length bs) (2 + 8 * suc (length bs))
        (1 * (32 * (32 * a + d) + e) + next % 1) (256 * (4 * a + v % 4) + c) bs (omega arith)
        (omega (arith, small))
digits_from-value a v (suc (suc (suc zero))) (c ∷ bs) h (small, k) =
    let next = (v * 256) % 2 ^ 32 + c % 256 in
    let d = (next / 64) % 32 in
    let e = (next / 2) % 32 in
    digits_from-value (32 * (32 * a + d) + e) next 1 bs (omega arith) k
    ∙ scaled_eq (1 + 8 * length bs) (3 + 8 * suc (length bs))
        (2 * (32 * (32 * a + d) + e) + next % 2) (256 * (8 * a + v % 8) + c) bs (omega arith)
        (omega (arith, small))
digits_from-value a v (suc (suc (suc (suc zero)))) (c ∷ bs) h (small, k) =
    let next = (v * 256) % 2 ^ 32 + c % 256 in
    let d = (next / 128) % 32 in
    let e = (next / 4) % 32 in
    digits_from-value (32 * (32 * a + d) + e) next 2 bs (omega arith) k
    ∙ scaled_eq (2 + 8 * length bs) (4 + 8 * suc (length bs))
        (4 * (32 * (32 * a + d) + e) + next % 4) (256 * (16 * a + v % 16) + c) bs (omega arith)
        (omega (arith, small))
digits_from-value a v (suc (suc (suc (suc (suc b))))) bs h k = absurd (omega (arith, h))
