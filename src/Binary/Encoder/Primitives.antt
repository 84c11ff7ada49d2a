-- ===== src/Binary/Encoder/Primitives.antt =====
-- src/binary/encoder.ts: the numbers, the lengths, and the strings that are written raw or packed.
use nexawhats.Common.{
  ◌>>=◌, ℕ, ◌+◌, ◌-◌, ◌*◌, ◌/◌, ◌%◌, leb, ltb, ◌==◌, if◌then◌else◌, Bool, false, ◌&&◌, ◌||◌, Option,
  none, some, List, [], ◌∷◌, ◌++◌, length, all,
}
use nexawhats.Common.Text.{Str}
use nexawhats.Binary.Tags
use nexawhats.Binary.Utf8.{utf8_encode}

-- `pushInt(value, 4)`, `pushInt16` and `pushInt20`
abbrev pub int_32 : ℕ → List ℕ
int_32 n = (n / 16777216 % 256) ∷ (n / 65536 % 256) ∷ (n / 256 % 256) ∷ (n % 256) ∷ []

abbrev pub int_16 : ℕ → List ℕ
int_16 n = (n / 256 % 256) ∷ (n % 256) ∷ []

abbrev pub int_20 : ℕ → List ℕ
int_20 n = (n / 65536 % 16) ∷ (n / 256 % 256) ∷ (n % 256) ∷ []

unfoldable pub write_byte_length : ℕ → Option (List ℕ)
write_byte_length n =
    if leb 4294967296 n
    then none
    else some (
        if leb 1048576 n
        then Tags.binary_32 ∷ int_32 n
        else if leb 256 n
        then Tags.binary_20 ∷ int_20 n
        else Tags.binary_8 ∷ (n % 256) ∷ [])

-- `writeByteLength(bytes.length)` and `pushBytes(bytes)`
unfoldable pub write_bytes : List ℕ → Option (List ℕ)
write_bytes bs = do size ← write_byte_length (length bs); some (size ++ bs)

unfoldable pub write_string_raw : Str → Option (List ℕ)
write_string_raw s = write_bytes (utf8_encode s)

abbrev pub is_digit : ℕ → Bool
is_digit c = leb b'0' c && leb c b'9'

abbrev pub in_range : ℕ → ℕ → ℕ → Bool
in_range lo hi c = leb lo c && leb c hi

unfoldable pub pack_nibble : ℕ → Option ℕ
pack_nibble c =
    if c == b'-'
    then some 10
    else if c == b'.'
    then some 11
    else if c == 0
    then some 15
    else if is_digit c
    then some (c - b'0')
    else none

unfoldable pub pack_hex : ℕ → Option ℕ
pack_hex c =
    if is_digit c
    then some (c - b'0')
    else if in_range b'A' b'F' c
    then some (10 + c - b'A')
    else if in_range b'a' b'f' c
    then some (10 + c - b'a')
    else if c == 0
    then some 15
    else none

-- `packBytePair`, pushed as a byte.
unfoldable pub pack_byte_pair : (ℕ → Option ℕ) → ℕ → ℕ → Option ℕ
pack_byte_pair pack a b = do x ← pack a; y ← pack b; some ((x * 16 + y) % 256)

-- The loop over the pairs, and the last unit with a zero where their number is odd.
unfoldable pub pack_pairs : (ℕ → Option ℕ) → Str → Option (List ℕ)
pack_pairs pack [] = some []
pack_pairs pack (a ∷ []) = do x ← pack_byte_pair pack a 0; some (x ∷ [])
pack_pairs pack (a ∷ b ∷ s) = do
  x ← pack_byte_pair pack a b
  rest ← pack_pairs pack s
  some (x ∷ rest)

-- `Math.ceil(n / 2)`, with the top bit set where `n` is odd (`n` is at most 127).
abbrev pub rounded_length : ℕ → ℕ
rounded_length n = if n % 2 == 0 then (n + 1) / 2 else (n + 1) / 2 + 128

unfoldable pub write_packed_bytes : ℕ → (ℕ → Option ℕ) → Str → Option (List ℕ)
write_packed_bytes tag pack s =
    if ltb Tags.packed_max (length s)
    then none
    else (do packed ← pack_pairs pack s; some (tag ∷ (rounded_length (length s) % 256) ∷ packed))

abbrev pub is_nibble_unit : ℕ → Bool
is_nibble_unit c = is_digit c || (c == b'-' || c == b'.')

abbrev pub is_hex_unit : ℕ → Bool
is_hex_unit c = is_digit c || in_range b'A' b'F' c

-- `isNibble` and `isHex`; the source walks code points, of which all that pass are single units.
abbrev is_packable : (ℕ → Bool) → Str → Bool
is_packable test [] = false
is_packable test (c ∷ s) = leb (length (c ∷ s)) Tags.packed_max && all test (c ∷ s)

unfoldable pub is_nibble : Str → Bool
is_nibble s = is_packable is_nibble_unit s

unfoldable pub is_hex : Str → Bool
is_hex s = is_packable is_hex_unit s
