-- ===== src/Binary/RoundTrip/Strings/Reading.antt =====
-- What `readString` gives for each tag, of what stands behind it.
use nexawhats.Common.{
  ℕ, suc, ◌+◌, ◌-◌, ◌≤◌, ◌<◌, ◌≡◌, refl, arith, leb, ltb, Bool, true, false, ◌&&◌, inl, inr, some,
  List, ◌∷◌, length, get_elem?,
}
use nexawhats.Common.Text.{Str}
use nexawhats.Binary.Utf8.{utf8_decode}
use nexawhats.Binary.Tokens.{CodingOptions}
use nexawhats.Binary.Tokens.Laws.{IsTable, get_elem?-lt}
use nexawhats.Binary.Decoder.{
  Result, Reader, ok, err, rewind, out_of_fuel, ◌>>=◌, read_bytes, read_int_20, read_length_32,
  read_string_from, read_tag, read_byte, read_packed_8, read_jid_pair, read_ad_jid,
  read_token_double, get_token_double, read_string_from_chars, bind,
}
use nexawhats.Binary.RoundTrip.Sizes.{IsBinaryTag, read_sized}

chars_of :
    (size : Reader ℕ) (bs text rest : List ℕ)
    → bind (size bs) (λ (n, more). read_bytes n more) ≡ ok (text, rest)
    → (size >>= read_string_from_chars) bs ≡ ok (utf8_decode text, rest)
unfolding read_string_from_chars
chars_of size bs text rest h = go (size bs) h
  where
    go :
        (r : Result (ℕ × List ℕ))
        → bind r (λ (n, more). read_bytes n more) ≡ ok (text, rest)
        → bind r (λ (n, more).
          bind {B = Str × List ℕ} (read_bytes n more) (λ (b, m). ok (utf8_decode b, m)))
          ≡ ok (utf8_decode text, rest)
    go (ok (n, more)) e = rw e refl
    go (err x) e = cc
    go rewind e = cc
    go out_of_fuel e = cc

module _ (opts : CodingOptions) (table : IsTable opts.single opts.double) where
  past_singles : (t : ℕ) → 236 ≤ t → ltb t (length opts.single) ≡ false
  past_singles t h = let e = table.singles in ground arith

  pub read_nibble :
      (g : ℕ) (bs : List ℕ) → read_string_from opts (suc g) 255 bs ≡ read_packed_8 255 bs
  unfolding read_string_from read_tag
  read_nibble g bs = rw (past_singles 255 (omega arith)) refl

  pub read_hex : (g : ℕ) (bs : List ℕ) → read_string_from opts (suc g) 251 bs ≡ read_packed_8 251 bs
  unfolding read_string_from read_tag
  read_hex g bs = rw (past_singles 251 (omega arith)) refl

  pub read_pair :
      (g : ℕ) (bs : List ℕ)
      → read_string_from opts (suc g) 250 bs ≡ read_jid_pair (read_string_from opts g) bs
  unfolding read_string_from read_tag
  read_pair g bs = rw (past_singles 250 (omega arith)) refl

  pub read_device :
      (g : ℕ) (bs : List ℕ)
      → read_string_from opts (suc g) 247 bs ≡ read_ad_jid (read_string_from opts g) bs
  unfolding read_string_from read_tag
  read_device g bs = rw (past_singles 247 (omega arith)) refl

  pub read_single :
      (g i : ℕ) (s : Str) (bs : List ℕ)
      → 1 ≤ i
      → get_elem? opts.single i ≡ some s
      → read_string_from opts (suc g) i bs ≡ ok (s, bs)
  unfolding read_string_from read_tag
  read_single g i s bs pos e = rw in_table (rw e refl)
    where
      in_table : (leb 1 i && ltb i (length opts.single)) ≡ true
      in_table = ground (arith, get_elem?-lt opts.single i s e)

  pub read_double :
      (g d j : ℕ) (dict : List Str) (s : Str) (bs : List ℕ)
      → d < 4
      → get_elem? opts.double d ≡ some dict
      → get_elem? dict j ≡ some s
      → read_string_from opts (suc g) (236 + d) (j ∷ bs) ≡ ok (s, bs)
  unfolding read_string_from read_tag read_token_double read_byte get_token_double
  read_double g d j dict s bs few e f = rw (past_singles (236 + d) (omega arith)) (
      rw (not_single (leb 1 (236 + d)), in_dicts, offset)
        (rw (e, get_token_double) (rw (f, get_token_double) refl)))
    where
      not_single : (b : Bool) → (b && false) ≡ false
      not_single b = ground arith

      in_dicts : (leb 236 (236 + d) && leb (236 + d) 239) ≡ true
      in_dicts = ground arith

      offset : 236 + d - 236 ≡ d
      offset = omega arith

  read_chars :
      (g : ℕ) (bs text rest : List ℕ)
      → read_sized 252 bs ≡ ok (text, rest)
      → read_string_from opts (suc g) 252 bs ≡ ok (utf8_decode text, rest)
  unfolding read_string_from read_tag
  read_chars g bs text rest h =
      rw (past_singles 252 (omega arith)) (chars_of read_byte bs text rest h)

  read_chars_20 :
      (g : ℕ) (bs text rest : List ℕ)
      → read_sized 253 bs ≡ ok (text, rest)
      → read_string_from opts (suc g) 253 bs ≡ ok (utf8_decode text, rest)
  unfolding read_string_from read_tag
  read_chars_20 g bs text rest h =
      rw (past_singles 253 (omega arith)) (chars_of read_int_20 bs text rest h)

  read_chars_32 :
      (g : ℕ) (bs text rest : List ℕ)
      → read_sized 254 bs ≡ ok (text, rest)
      → read_string_from opts (suc g) 254 bs ≡ ok (utf8_decode text, rest)
  unfolding read_string_from read_tag
  read_chars_32 g bs text rest h =
      rw (past_singles 254 (omega arith)) (chars_of read_length_32 bs text rest h)

  -- Raw text is read back through its bytes.
  pub read_raw :
      (g t : ℕ) (bs text rest : List ℕ)
      → IsBinaryTag t
      → read_sized t bs ≡ ok (text, rest)
      → read_string_from opts (suc g) t bs ≡ ok (utf8_decode text, rest)
  read_raw g t bs text rest (inl e) h = rw e (read_chars g bs text rest (rw e at h))
  read_raw g t bs text rest (inr (inl e)) h = rw e (read_chars_20 g bs text rest (rw e at h))
  read_raw g t bs text rest (inr (inr e)) h = rw e (read_chars_32 g bs text rest (rw e at h))
