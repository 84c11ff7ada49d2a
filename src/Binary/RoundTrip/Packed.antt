-- ===== src/Binary/RoundTrip/Packed.antt =====
-- Packed strings: two units to a byte.
use nexawhats.Common.{
  ℕ, suc, ◌+◌, ◌-◌, ◌*◌, ◌/◌, ◌%◌, ◌≤◌, ◌<◌, ◌≡◌, refl, ap, arith, leb, ltb, ◌==◌, if◌then◌else◌,
  Bool, true, false, Option, some, List, [], ◌∷◌, ◌++◌, length, all, and-true, leb→le,
}
use native.Mathlib.Decide.{dec_lt}
use nexawhats.Common.Text.{Str}
use nexawhats.Binary.Encoder.{
  pack_nibble, pack_hex, pack_byte_pair, pack_pairs, rounded_length, write_packed_bytes,
  is_nibble_unit, is_hex_unit, is_nibble, is_hex,
}
use nexawhats.Binary.Decoder.{
  ok, read_byte, unpack_byte, unpack_nibble, unpack_hex, read_packed, drop_last, read_packed_8,
}

-- A unit packs to a half byte that unpacks to it.
pub record Packs (tag : ℕ) (pack : ℕ → Option ℕ) (c : ℕ) : Type 0 where
  pub half : ℕ
  pub packed : pack c ≡ some half
  pub small : half < 16
  unpacked : unpack_byte tag half ≡ ok c

nibble-Packs : (c : ℕ) → is_nibble_unit c ≡ true → Packs 255 pack_nibble c
unfolding pack_nibble unpack_byte unpack_nibble
nibble-Packs c h = record {
  half = if c == 45 then 10 else if c == 46 then 11 else c - 48;
  packed = ground arith;
  small = ground arith;
  unpacked = ground arith;
}

hex-Packs : (c : ℕ) → is_hex_unit c ≡ true → Packs 251 pack_hex c
unfolding pack_hex unpack_byte unpack_hex
hex-Packs c h = record {
  half = if leb c 57 then c - 48 else c - 55;
  packed = ground arith;
  small = ground arith;
  unpacked = ground arith;
}

abbrev halves : Str → ℕ
halves [] = 0
halves (a ∷ []) = 1
halves (a ∷ b ∷ s) = suc (halves s)

-- An odd string reads back with the unit `z` of the padding behind it.
abbrev padded : ℕ → Str → Str
padded z [] = []
padded z (a ∷ []) = a ∷ z ∷ []
padded z (a ∷ b ∷ s) = a ∷ b ∷ padded z s

halves_eq : (s : Str) → halves s ≡ (length s + 1) / 2
halves_eq [] = omega arith
halves_eq (a ∷ []) = omega arith
halves_eq (a ∷ b ∷ s) = omega (arith, halves_eq s)

padded_even : (z : ℕ) (s : Str) → length s % 2 ≡ 0 → padded z s ≡ s
padded_even z [] h = refl
padded_even z (a ∷ []) h = absurd (omega arith)
padded_even z (a ∷ b ∷ s) h = ap (λ t. a ∷ b ∷ t) (padded_even z s (omega arith))

padded_cons : (z : ℕ) (s : Str) → length s % 2 ≡ 1 → drop_last (padded z s) ≡ s
unfolding drop_last
padded_cons z [] h = absurd (omega arith)
padded_cons z (a ∷ []) h = refl
padded_cons z (a ∷ b ∷ []) h = absurd (omega arith)
padded_cons z (a ∷ b ∷ c ∷ []) h = refl
padded_cons z (a ∷ b ∷ c ∷ d ∷ s) h = ap (λ t. a ∷ b ∷ t) (padded_cons z (c ∷ d ∷ s) (omega arith))

pub record PackedBytes (tag : ℕ) (pack : ℕ → Option ℕ) (s : Str) : Type 0 where
  pub body : List ℕ
  pub written : write_packed_bytes tag pack s ≡ some (tag ∷ body)
  pub read_back : (rest : List ℕ) → read_packed_8 tag (body ++ rest) ≡ ok (s, rest)

module _ (tag : ℕ) (pack : ℕ → Option ℕ) (test : ℕ → Bool)
    (packs : (c : ℕ) → test c ≡ true → Packs tag pack c) (z : ℕ) (pad : pack 0 ≡ some 15)
    (unpad : unpack_byte tag 15 ≡ ok z) where
  record Pairs (s : Str) : Type 0 where
    bytes : List ℕ
    written : pack_pairs pack s ≡ some bytes
    read_back : (rest : List ℕ) → read_packed tag (halves s) (bytes ++ rest) ≡ ok (padded z s, rest)

  high_half : (x y : ℕ) → x < 16 → y < 16 → (x * 16 + y) % 256 / 16 ≡ x
  high_half x y h k = omega arith

  low_half : (x y : ℕ) → x < 16 → y < 16 → (x * 16 + y) % 256 % 16 ≡ y
  low_half x y h k = omega arith

  Pairs-of : (s : Str) → all test s ≡ true → Pairs s
  unfolding pack_pairs read_packed read_byte pack_byte_pair
  Pairs-of [] h = record { bytes = []; written = refl; read_back = λ rest. refl }
  Pairs-of (a ∷ []) h = of (packs a (and-true (test a) true h).0)
    where
      of : Packs tag pack a → Pairs (a ∷ [])
      of p = record {
        bytes = ((p.half * 16 + 15) % 256) ∷ [];
        written = rw (p.packed, pad) refl;
        read_back = λ rest.
            rw (high_half p.half 15 p.small (omega arith), low_half p.half 15 p.small (omega arith))
              (rw (p.unpacked, unpad) refl);
      }
  Pairs-of (a ∷ b ∷ s) h =
      let (first, others) = and-true (test a) _ h in
      let (second, last) = and-true (test b) _ others in
      of (packs a first) (packs b second) (Pairs-of s last)
    where
      of : Packs tag pack a → Packs tag pack b → Pairs s → Pairs (a ∷ b ∷ s)
      of p q r = record {
        bytes = ((p.half * 16 + q.half) % 256) ∷ r.bytes;
        written = rw (p.packed, q.packed, r.written) refl;
        read_back = λ rest.
            rw (high_half p.half q.half p.small q.small, low_half p.half q.half p.small q.small)
              (rw (p.unpacked, q.unpacked, r.read_back rest) refl);
      }

  even_start :
      (s : Str)
      → length s ≤ 127
      → length s % 2 ≡ 0
      → (rounded_length (length s) % 256 % 128 ≡ halves s)
        × ((rounded_length (length s) % 256 / 128 == 0) ≡ true)
  even_start s short even = (ground (arith, halves_eq s), ground arith)

  odd_start :
      (s : Str)
      → length s ≤ 127
      → length s % 2 ≡ 1
      → (rounded_length (length s) % 256 % 128 ≡ halves s)
        × ((rounded_length (length s) % 256 / 128 == 0) ≡ false)
  odd_start s short odd = (ground (arith, halves_eq s), ground arith)

  read_even :
      (s : Str) (bytes rest : List ℕ)
      → length s ≤ 127
      → length s % 2 ≡ 0
      → read_packed tag (halves s) (bytes ++ rest) ≡ ok (padded z s, rest)
      → read_packed_8 tag ((rounded_length (length s) % 256) ∷ (bytes ++ rest)) ≡ ok (s, rest)
  unfolding read_packed_8 read_byte
  read_even s bytes rest short even h =
      let (count, flag) = even_start s short even in
      rw (count, flag) (rw h (ap (λ t. ok (t, rest)) (padded_even z s even)))

  read_odd :
      (s : Str) (bytes rest : List ℕ)
      → length s ≤ 127
      → length s % 2 ≡ 1
      → read_packed tag (halves s) (bytes ++ rest) ≡ ok (padded z s, rest)
      → read_packed_8 tag ((rounded_length (length s) % 256) ∷ (bytes ++ rest)) ≡ ok (s, rest)
  unfolding read_packed_8 read_byte
  read_odd s bytes rest short odd h =
      let (count, flag) = odd_start s short odd in
      rw (count, flag) (rw h (ap (λ t. ok (t, rest)) (padded_cons z s odd)))

  -- A string of at most 127 units that all pack is read back.
  packed_bytes : (s : Str) → length s ≤ 127 → all test s ≡ true → PackedBytes tag pack s
  unfolding write_packed_bytes
  packed_bytes s short h = of (Pairs-of s h)
    where
      fits : ltb 127 (length s) ≡ false
      fits = ground arith

      of : Pairs s → PackedBytes tag pack s
      of p = record {
        body = (rounded_length (length s) % 256) ∷ p.bytes;
        written = rw fits (rw p.written refl);
        read_back = λ rest. elim (dec_lt 0 (length s % 2)) [
          | no even ↦ read_even s p.bytes rest short (omega arith) (p.read_back rest)
          | yes odd ↦ read_odd s p.bytes rest short (omega arith) (p.read_back rest)
        ];
      }

nibble_pad : pack_nibble 0 ≡ some 15
unfolding pack_nibble
nibble_pad = refl

nibble_unpad : unpack_byte 255 15 ≡ ok 0
unfolding unpack_byte unpack_nibble
nibble_unpad = refl

hex_pad : pack_hex 0 ≡ some 15
unfolding pack_hex
hex_pad = refl

hex_unpad : unpack_byte 251 15 ≡ ok b'F'
unfolding unpack_byte unpack_hex
hex_unpad = refl

-- What `isNibble` and `isHex` accept is packed and read back.
pub nibble_bytes : (s : Str) → is_nibble s ≡ true → PackedBytes 255 pack_nibble s
unfolding is_nibble
nibble_bytes [] h = cc
nibble_bytes (c ∷ s) h =
    let (short, units) = and-true (leb (length (c ∷ s)) 127) _ h in
    packed_bytes 255 pack_nibble is_nibble_unit nibble-Packs 0 nibble_pad nibble_unpad (c ∷ s)
      (leb→le _ _ short) units

pub hex_bytes : (s : Str) → is_hex s ≡ true → PackedBytes 251 pack_hex s
unfolding is_hex
hex_bytes [] h = cc
hex_bytes (c ∷ s) h =
    let (short, units) = and-true (leb (length (c ∷ s)) 127) _ h in
    packed_bytes 251 pack_hex is_hex_unit hex-Packs b'F' hex_pad hex_unpad (c ∷ s)
      (leb→le _ _ short) units
