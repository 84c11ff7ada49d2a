-- ===== src/Binary/RoundTrip/Strings.antt =====
-- Strings: what `writeString` writes, `readString` reads back.
mod Text
mod Reading
unfoldable pub use Text.*
pub use Reading.*
use nexawhats.Common.{
  ℕ, zero, suc, ◌+◌, ◌-◌, ◌≤◌, ◌<◌, ◌≡◌, ◌≢◌, refl, ap, ◌∙◌, arith, leb, ltb, Bool, true, false,
  not, ◌&&◌, ◌⊎◌, inl, inr, Option, none, some, List, [], ◌∷◌, ◌++◌, length, get_elem?,
  All-get_elem?,
}
use mathlib.Core.Path.{ap₂}
use nexawhats.Common.Text.{Str, has, includes}
use nexawhats.Jid.{FullJid, jid_decode, lid, hosted, hosted_lid, s_whatsapp_net}
use nexawhats.Jid.Numbers.{decimal}
use nexawhats.Jid.Laws.{IsUser}
use nexawhats.Binary.Utf8.{utf8_encode, utf8_decode, is_well_formed}
use nexawhats.Binary.Utf8.RoundTrip.{utf8_decode-utf8_encode}
use nexawhats.Binary.Tokens.{CodingOptions, own, missing, find_token, inherited_names}
use nexawhats.Binary.Tokens.Laws.{IsTable, get_elem?-lt}
use nexawhats.Binary.Encoder.{
  is_nibble, is_hex, write_text, write_string_from, write_string_raw, write_bytes,
  write_packed_bytes,
}
use nexawhats.Binary.Decoder.{
  Result, Reader, ok, err, rewind, out_of_fuel, ◌>>=◌, read_bytes, read_int_20, read_length_32,
  read_string_from, read_tag, read_byte, read_packed_8, read_jid_pair, read_ad_jid,
  read_token_double, get_token_double, read_string_from_chars, bind,
}
use nexawhats.Binary.RoundTrip.Sizes.{IsBinaryTag, read_sized, SizedBytes, sized_bytes}
use nexawhats.Binary.RoundTrip.Packed.{PackedBytes}

raw_text :
    (write : Str → Option (List ℕ)) (s : Str)
    → s ≢ []
    → jid_decode s ≡ none
    → write_text write s ≡ write_bytes (utf8_encode s)
unfolding write_text write_string_raw
raw_text write [] ne jid = absurd (ne refl)
raw_text write (c ∷ s) ne jid = rw jid refl

module _ (opts : CodingOptions) (table : IsTable opts.single opts.double) where
  pub raw-Carried :
      (fuel : ℕ) (s : Str)
      → find_token opts.token_map s ≡ missing
      → is_nibble s ≡ false
      → is_hex s ≡ false
      → jid_decode s ≡ none
      → s ≢ []
      → is_well_formed s ≡ true
      → length (utf8_encode s) < 2147483648
      → Carried opts (suc fuel) s
  unfolding write_string_from sent_raw
  raw-Carried fuel s token nibble hex jid ne well fits = of (sized_bytes (utf8_encode s) fits)
    where
      text_eq : write_text (write_string_from opts fuel) s ≡ write_bytes (utf8_encode s)
      text_eq = raw_text (write_string_from opts fuel) s ne jid

      back :
          (z : SizedBytes (utf8_encode s)) (g : ℕ) (rest : List ℕ)
          → length (z.body ++ rest) < g
          → read_string_from opts g z.tag (z.body ++ rest) ≡ ok (s, rest)
      back z zero rest h = absurd (omega arith)
      back z (suc g) rest h =
          read_raw opts table g z.tag (z.body ++ rest) (utf8_encode s) rest z.binary
            (z.read_back rest)
          ∙ ap (λ t. ok (t, rest)) (utf8_decode-utf8_encode s well)

      of : SizedBytes (utf8_encode s) → Carried opts (suc fuel) s
      of z = record {
        tag = z.tag;
        body = z.body;
        written = rw (token, write_string_from) (rw (nibble, hex) (text_eq ∙ z.written));
        kind = inl (z.binary, rw (token, sent_raw) (rw (nibble, hex, jid) refl), z.read_back);
        read_back = back z;
      }

  pub packed-Carried :
      (fuel tag : ℕ) (pack : ℕ → Option ℕ) (s : Str)
      → write_string_from opts (suc fuel) s ≡ write_packed_bytes tag pack s
      → sent_raw opts s ≡ false
      → IsPlainTag tag
      → ((g : ℕ) (bs : List ℕ) → read_string_from opts (suc g) tag bs ≡ read_packed_8 tag bs)
      → PackedBytes tag pack s
      → Carried opts (suc fuel) s
  packed-Carried fuel tag pack s write raw plain_tag read z = record {
    tag = tag;
    body = z.body;
    written = write ∙ z.written;
    kind = inr (plain_tag, raw);
    read_back = back;
  }
    where
      back :
          (g : ℕ) (rest : List ℕ)
          → length (z.body ++ rest) < g
          → read_string_from opts g tag (z.body ++ rest) ≡ ok (s, rest)
      back zero rest h = absurd (omega arith)
      back (suc g) rest h = read g (z.body ++ rest) ∙ z.read_back rest

  pub single-Carried :
      (fuel : ℕ) (s : Str) (i : ℕ)
      → find_token opts.token_map s ≡ own (record { index = i; dict = none })
      → get_elem? opts.single i ≡ some s
      → 1 ≤ i
      → Carried opts (suc fuel) s
  unfolding write_string_from sent_raw
  single-Carried fuel s i token here pos = record {
    tag = i;
    body = [];
    written = rw (token, write_string_from) (ap (λ t. some (t ∷ [])) (omega (arith, small)));
    kind = inr (omega (arith, small), rw (token, sent_raw) refl);
    read_back = back;
  }
    where
      small : i < 236
      small = let e = table.singles in omega (arith, get_elem?-lt opts.single i s here)

      back :
          (g : ℕ) (rest : List ℕ) → length rest < g → read_string_from opts g i rest ≡ ok (s, rest)
      back zero rest h = absurd (omega arith)
      back (suc g) rest h = read_single opts table g i s rest pos here

  pub double-Carried :
      (fuel : ℕ) (s : Str) (d j : ℕ) (dict : List Str)
      → find_token opts.token_map s ≡ own (record { index = j; dict = some d })
      → get_elem? opts.double d ≡ some dict
      → get_elem? dict j ≡ some s
      → Carried opts (suc fuel) s
  unfolding write_string_from sent_raw
  double-Carried fuel s d j dict token in_double in_dict = record {
    tag = 236 + d;
    body = j ∷ [];
    written =
        rw (token, write_string_from)
          (ap₂ (λ a b. some (a ∷ b ∷ [])) (omega (arith, few)) (omega (arith, small)));
    kind = inr (omega (arith, few), rw (token, sent_raw) refl);
    read_back = back;
  }
    where
      few : d < 4
      few = let e = table.dictionaries in omega (arith, get_elem?-lt opts.double d dict in_double)

      small : j < 256
      small =
          let e : length dict ≤ 256 =
            All-get_elem? (λ l. length l ≤ 256) opts.double d dict table.entries in_double in
          omega (arith, get_elem?-lt dict j s in_dict)

      back :
          (g : ℕ) (rest : List ℕ)
          → length (j ∷ rest) < g
          → read_string_from opts g (236 + d) (j ∷ rest) ≡ ok (s, rest)
      back zero rest h = absurd (omega arith)
      back (suc g) rest h = read_double opts table g d j dict s rest few in_double in_dict
