-- ===== src/Socket/PairingCode.antt =====
-- What `bytesToCrockford` of src/socket/pairing.ts promises: the code that a user types is the number of
-- the bytes, in the 32 characters of the alphabet.
use nexawhats.Common.{
  ℕ, zero, suc, ◌+◌, ◌-◌, ◌*◌, ◌/◌, ◌%◌, ◌^◌, ◌<◌, leb, ltb, ◌==◌, ==_iff, and-true, ◌&&◌, ◌≡◌,
  refl, ap, ◌∙◌, subst, arith, if◌then◌else◌, Bool, true, false, List, [], ◌∷◌, map, length, All,
  All-append,
}
use native.Mathlib.Decide.{dec_lt}
use nexawhats.Common.Text.{Str}
use nexawhats.Socket.Crockford.{
  crockford_chars, char_at, take_digits, digits_from, digits_from-value, scaled_eq,
  bytes_to_crockford, value, padding, IsByte, IsDigit,
}

-- The place of a character in the alphabet.
abbrev number_in : Str → ℕ → ℕ
number_in [] c = 0
number_in (d ∷ s) c = if c == d then 0 else suc (number_in s c)

abbrev pub number_of : ℕ → ℕ
number_of c = number_in crockford_chars c

abbrev are_told_apart : ℕ → Bool
are_told_apart zero = true
are_told_apart (suc n) = number_of (char_at n) == n && are_told_apart n

told_apart : (n d : ℕ) → are_told_apart n ≡ true → d < n → number_of (char_at d) ≡ d
told_apart zero d e h = absurd (omega (arith, h))
told_apart (suc n) d e h =
    let (here, rest) = and-true (number_of (char_at n) == n) (are_told_apart n) e in
    elim (dec_lt d n) [
      | yes below ↦ told_apart n d rest below
      | no other ↦
          subst (λ k. number_of (char_at k) ≡ k) (omega (arith, h, other))
            ((==_iff (number_of (char_at n)) n).0 here)
    ]

number_of-char_at : (d : ℕ) → IsDigit d → number_of (char_at d) ≡ d
number_of-char_at d h = told_apart 32 d refl h

numbers : (ds : List ℕ) → All IsDigit ds → map number_of (map char_at ds) ≡ ds
numbers [] k = refl
numbers (d ∷ ds) (h, k) =
    ap (λ x. x ∷ map number_of (map char_at ds)) (number_of-char_at d h)
    ∙ ap (λ xs. d ∷ xs) (numbers ds k)

take_digits-IsDigit : (fuel v b : ℕ) → All IsDigit (take_digits fuel v b).0
unfolding take_digits
take_digits-IsDigit zero v b = tt
take_digits-IsDigit (suc fuel) v b =
    go (leb 5 b) (take_digits fuel v (b - 5)) (take_digits-IsDigit fuel v (b - 5))
  where
    go :
        (p : Bool) (rest : List ℕ × ℕ)
        → All IsDigit rest.0
        → let found : List ℕ × ℕ =
            if p then ((v / 2 ^ (b - 5)) % 32 ∷ rest.0, rest.1) else ([], b) in
          All IsDigit found.0
    go true rest k = (omega arith, k)
    go false rest k = tt

digits_from-IsDigit : (v b : ℕ) (bs : List ℕ) → All IsDigit (digits_from v b bs)
unfolding digits_from
digits_from-IsDigit v b [] = go (ltb 0 b)
  where
    go : (p : Bool) → All IsDigit (if p then ((v * 2 ^ (5 - b)) % 2 ^ 32) % 32 ∷ [] else [])
    go true = (omega arith, tt)
    go false = tt
digits_from-IsDigit v b (c ∷ bs) =
    let next = (v * 2 ^ 8) % 2 ^ 32 + c % 256 in
    let found = take_digits 2 next (b + 8) in
    All-append IsDigit found.0 _ (take_digits-IsDigit 2 next (b + 8))
      (digits_from-IsDigit next found.1 bs)

-- The characters of the code of some bytes, each read as its place in the alphabet, write the number of
-- the bytes with as many zero bits behind it as fill the last character. This
-- holds for more bytes, too, than the 32 bits of the accumulator hold.
pub bytes_to_crockford-value :
    (bs : List ℕ)
    → All IsByte bs
    → value 32 0 (map number_of (bytes_to_crockford bs))
      ≡ 2 ^ padding (8 * length bs) * value 256 0 bs
unfolding bytes_to_crockford
bytes_to_crockford-value bs k =
    ap (λ ds. value 32 0 ds) (numbers (digits_from 0 0 bs) (digits_from-IsDigit 0 0 bs))
    ∙ digits_from-value 0 0 0 bs (omega arith) k
    ∙ scaled_eq (0 + 8 * length bs) (8 * length bs) (2 ^ 0 * 0 + 0 % 2 ^ 0) 0 bs (omega arith)
        (omega arith)
