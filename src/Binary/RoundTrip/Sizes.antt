-- ===== src/Binary/RoundTrip/Sizes.antt =====
-- Lengths, and bytes behind their length.
use nexawhats.Common.{
  ℕ, ◌+◌, ◌*◌, ◌/◌, ◌%◌, ◌<◌, ◌≡◌, refl, ap, ◌∙◌, arith, leb, ltb, ◌==◌, if◌then◌else◌, true, some,
  List, [], ◌∷◌, ◌++◌, ◌⊎◌, inl, inr, append_assoc, length, length-append, take-append, drop-append,
}
use native.Mathlib.Decide.{dec_lt}
use nexawhats.Binary.Encoder.{
  write_byte_length, write_bytes, int_32, int_16, int_20, write_list_start,
}
use nexawhats.Binary.Decoder.{
  Result, Reader, ok, read_byte, read_bytes, read_int, read_int_20, read_length_32, read_list_size,
  bind,
}

-- The three tags of binary content, and how each reads its length.
abbrev pub IsBinaryTag : ℕ → Type 0
IsBinaryTag t = (t ≡ 252) ⊎ ((t ≡ 253) ⊎ (t ≡ 254))

abbrev read_size : ℕ → Reader ℕ
read_size t = if t == 252 then read_byte else if t == 253 then read_int_20 else read_length_32

read_bytes-append : (bs rest : List ℕ) → read_bytes (length bs) (bs ++ rest) ≡ ok (bs, rest)
unfolding read_bytes
read_bytes-append bs rest = rw (fits, take-append bs rest, drop-append bs rest) refl
  where
    fits : leb (length bs) (length (bs ++ rest)) ≡ true
    fits = ground (arith, length-append bs rest)

read_size_8 : (n : ℕ) (rest : List ℕ) → n < 256 → read_byte ((n % 256) ∷ rest) ≡ ok (n, rest)
unfolding read_byte
read_size_8 n rest h = ground arith

read_size_20 : (n : ℕ) (rest : List ℕ) → n < 1048576 → read_int_20 (int_20 n ++ rest) ≡ ok (n, rest)
unfolding read_int_20 read_byte
read_size_20 n rest h = ap (λ k. ok (k, rest)) (omega arith)

read_size_32 :
    (n : ℕ) (rest : List ℕ) → n < 2147483648 → read_length_32 (int_32 n ++ rest) ≡ ok (n, rest)
unfolding read_length_32 read_int
read_size_32 n rest h =
    ap (λ k. if ltb k 2147483648 then ok (k, rest) else Result.rewind) value ∙ rw below refl
  where
    below : ltb n 2147483648 ≡ true
    below = ground arith

    value :
        (((0 * 256 + n / 16777216 % 256) * 256 + n / 65536 % 256) * 256 + n / 256 % 256) * 256
          + n % 256
        ≡ n
    value = omega arith

pub record Sized (n : ℕ) : Type 0 where
  pub tag : ℕ
  pub body : List ℕ
  pub written : write_byte_length n ≡ some (tag ∷ body)
  pub binary : IsBinaryTag tag
  pub read_back : (rest : List ℕ) → read_size tag (body ++ rest) ≡ ok (n, rest)

-- A length below 2 ^ 31 is written under one of the three tags, and read back.
pub sized : (n : ℕ) → n < 2147483648 → Sized n
unfolding write_byte_length
sized n h = elim (dec_lt n 256) [
  | yes a ↦ record {
    tag = 252;
    body = (n % 256) ∷ [];
    written = ground arith;
    binary = inl refl;
    read_back = λ rest. read_size_8 n rest a;
  }
  | no a ↦ elim (dec_lt n 1048576) [
    | yes b ↦ record {
      tag = 253;
      body = int_20 n;
      written = ground arith;
      binary = inr (inl refl);
      read_back = λ rest. read_size_20 n rest b;
    }
    | no b ↦ record {
      tag = 254;
      body = int_32 n;
      written = ground arith;
      binary = inr (inr refl);
      read_back = λ rest. read_size_32 n rest h;
    }
  ]
]

-- How bytes are read under a binary tag.
abbrev pub read_sized : ℕ → Reader (List ℕ)
read_sized t rest = bind (read_size t rest) λ (n, more). read_bytes n more

pub record SizedBytes (bs : List ℕ) : Type 0 where
  pub tag : ℕ
  pub body : List ℕ
  pub written : write_bytes bs ≡ some (tag ∷ body)
  pub binary : IsBinaryTag tag
  pub read_back : (rest : List ℕ) → read_sized tag (body ++ rest) ≡ ok (bs, rest)

pub sized_bytes : (bs : List ℕ) → length bs < 2147483648 → SizedBytes bs
unfolding write_bytes
sized_bytes bs h = of (sized (length bs) h)
  where
    of : Sized (length bs) → SizedBytes bs
    of z = record {
      tag = z.tag;
      body = z.body ++ bs;
      written = rw z.written refl;
      binary = z.binary;
      read_back = λ rest.
          rw (append_assoc z.body bs rest)
            (rw (z.read_back (bs ++ rest)) (read_bytes-append bs rest));
    }

abbrev pub IsListTag : ℕ → Type 0
IsListTag t = (t ≡ 0) ⊎ ((t ≡ 248) ⊎ (t ≡ 249))

pub record ListStart (n : ℕ) : Type 0 where
  pub tag : ℕ
  pub body : List ℕ
  pub written : write_list_start n ≡ tag ∷ body
  pub is_list : IsListTag tag
  pub read_back : (rest : List ℕ) → read_list_size tag (body ++ rest) ≡ ok (n, rest)

-- A list size below 2 ^ 16 is read back.
pub list_start : (n : ℕ) → n < 65536 → ListStart n
unfolding write_list_start read_list_size read_byte read_int
list_start n h = elim (dec_lt 0 n) [
  | no a ↦ record {
    tag = 0;
    body = [];
    written = ground arith;
    is_list = inl refl;
    read_back = λ rest. ground arith;
  }
  | yes a ↦ elim (dec_lt n 256) [
    | yes b ↦ record {
      tag = 248;
      body = n ∷ [];
      written = ground arith;
      is_list = inr (inl refl);
      read_back = λ rest. refl;
    }
    | no b ↦ record {
      tag = 249;
      body = int_16 n;
      written = ground arith;
      is_list = inr (inr refl);
      read_back = λ rest. ap (λ k. ok (k, rest)) (omega arith);
    }
  ]
]
