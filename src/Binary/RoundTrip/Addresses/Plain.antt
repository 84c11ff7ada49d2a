-- ===== src/Binary/RoundTrip/Addresses/Plain.antt =====
-- Text without a mark: tokens, packed text and raw text.
use nexawhats.Common.{
  ℕ, suc, ◌<◌, ◌≡◌, ◌≢◌, refl, ◌∙◌, arith, true, false, not, ◌&&◌, inl, inr, Option, none, some,
  List, [], ◌∷◌, ◌++◌, length, Bool-cases, all,
}
use nexawhats.Common.Text.{Str, str_eq, has, includes, str_eq→eq, cut-none}
use nexawhats.Jid.{FullJid, jid_decode}
use nexawhats.Binary.Utf8.{utf8_encode, is_well_formed}
use nexawhats.Binary.Tokens.{CodingOptions, TokenEntry, own, missing, find_token, inherited_names}
use nexawhats.Binary.Tokens.Laws.{
  StandsFor, IsTable, Entries, find_token-Entries, find_token-inherited, TokenRef-cases,
}
use nexawhats.Binary.Encoder.{is_nibble, is_hex, write_text, write_jid, write_string_from}
use nexawhats.Binary.Decoder.{ok, read_string_from}
use nexawhats.Binary.RoundTrip.Packed.{nibble_bytes, hex_bytes}
use nexawhats.Binary.RoundTrip.Strings.{
  WireText, plain, no_user, pair, device, Carried, single-Carried, double-Carried, packed-Carried,
  raw-Carried, read_nibble, read_hex, sent_raw, IsPlainTag,
}

-- The tables are of the right sizes and the reverse table leads back to them.
pub record IsSound (opts : CodingOptions) : Type 0 where
  pub table : IsTable opts.single opts.double
  pub sound : Entries opts.single opts.double opts.token_map

pub has-append_mark : (c : ℕ) (l r : Str) → has c (l ++ (c ∷ r)) ≡ true
unfolding has
has-append_mark c [] r = ground arith
has-append_mark c (x ∷ l) r = ground (arith, has-append_mark c l r)

not_included :
    (c : ℕ) (s : Str) (names : List Str)
    → has c s ≡ true
    → all (λ t. not (has c t)) names ≡ true
    → includes s names ≡ false
unfolding includes
not_included c s [] h k = refl
not_included c s (t ∷ names) h k = elim (Bool-cases (str_eq t s)) [
  | inl same ↦ absurd (clash (rw (str_eq→eq t s same, h) at k))
  | inr other ↦ rw other (not_included c s names h (rest k))
]
  where
    clash : (not true && all (λ t'. not (has c t')) names) ≡ true → ⊥
    clash e = cc

    rest :
        (not (has c t) && all (λ t'. not (has c t')) names) ≡ true
        → all (λ t'. not (has c t')) names ≡ true
    rest e = ground arith

names_without_at : all (λ t. not (has b'@' t)) inherited_names ≡ true
unfolding has
names_without_at = refl

address_not_inherited : (s : Str) → has b'@' s ≡ true → includes s inherited_names ≡ false
address_not_inherited s h = not_included b'@' s inherited_names h names_without_at

jid_decode-none : (s : Str) → has b'@' s ≡ false → jid_decode s ≡ none
unfolding jid_decode
jid_decode-none s h = rw (cut-none b'@' s h) refl

ne_nil_of_has : (c : ℕ) (s : Str) → has c s ≡ true → s ≢ []
unfolding has
ne_nil_of_has c [] h = λ e. cc
ne_nil_of_has c (x ∷ s) h = λ e. cc

append_ne_nil : (l : Str) (x : ℕ) (r : Str) → l ++ (x ∷ r) ≢ []
append_ne_nil [] x r e = cc
append_ne_nil (y ∷ l) x r e = cc

pub WireText-ne-nil : {s : Str} → WireText s → s ≢ []
WireText-ne-nil (plain s ne at own_name well fits) = ne
WireText-ne-nil (no_user server w) = λ e. cc
WireText-ne-nil (pair user server u wu ws) = append_ne_nil user b'@' server
WireText-ne-nil (device user server n u wu ds pos small) = append_ne_nil user b':' _

-- How an address is written where its text is no token and does not pack.
pub record Address (opts : CodingOptions) (fuel : ℕ) (s : Str) : Type 0 where
  pub tag : ℕ
  pub body : List ℕ
  pub decoded : FullJid
  pub is_address : jid_decode s ≡ some decoded
  pub written : write_jid (write_string_from opts fuel) decoded ≡ some (tag ∷ body)
  pub plain_tag : IsPlainTag tag
  pub read_back :
      (g : ℕ) (rest : List ℕ)
      → length (body ++ rest) < g
      → read_string_from opts g tag (body ++ rest) ≡ ok (s, rest)

write_text_address :
    (write : Str → Option (List ℕ)) (s : Str) (d : FullJid)
    → s ≢ []
    → jid_decode s ≡ some d
    → write_text write s ≡ write_jid write d
unfolding write_text
write_text_address write [] d ne e = absurd (ne refl)
write_text_address write (c ∷ s) d ne e = rw e refl

module _ (opts : CodingOptions) (h : IsSound opts) where
  token-Carried :
      (fuel : ℕ) (s : Str) (e : TokenEntry)
      → find_token opts.token_map s ≡ own e
      → Carried opts (suc fuel) s
  token-Carried fuel s e token =
      go e.dict token (find_token-Entries opts.single opts.double opts.token_map s e h.sound token)
    where
      go :
          (o : Option ℕ)
          → find_token opts.token_map s ≡ own (record { index = e.index; dict = o })
          → StandsFor opts.single opts.double s (record { index = e.index; dict = o })
          → Carried opts (suc fuel) s
      go none t (here, pos) = single-Carried opts h.table fuel s e.index t here pos
      go (some d) t (dict, in_double, in_dict) =
          double-Carried opts h.table fuel s d e.index dict t in_double in_dict

  -- The branches before the one for other text.
  branches :
      (fuel : ℕ) (s : Str)
      → includes s inherited_names ≡ false
      → (find_token opts.token_map s ≡ missing
          → is_nibble s ≡ false
          → is_hex s ≡ false
          → Carried opts (suc fuel) s)
      → Carried opts (suc fuel) s
  unfolding write_string_from sent_raw
  branches fuel s own_name other = elim (TokenRef-cases (find_token opts.token_map s)) [
    | inl (e, token) ↦ token-Carried fuel s e token
    | inr (inl token) ↦ absurd (cc (find_token-inherited opts.token_map s token))
    | inr (inr token) ↦ elim (Bool-cases (is_nibble s)) [
      | inl nibble ↦
          packed-Carried opts h.table fuel 255 _ s (rw (token, write_string_from) (rw nibble refl))
            (rw (token, sent_raw) (rw nibble refl)) (omega arith) (read_nibble opts h.table)
            (nibble_bytes s nibble)
      | inr no_nibble ↦ elim (Bool-cases (is_hex s)) [
        | inl hex ↦
            packed-Carried opts h.table fuel 251 _ s
              (rw (token, write_string_from) (rw (no_nibble, hex) refl))
              (rw (token, sent_raw) (rw (no_nibble, hex) refl)) (omega arith)
              (read_hex opts h.table) (hex_bytes s hex)
        | inr no_hex ↦ other token no_nibble no_hex
      ]
    ]
  ]

  pub Address-Carried :
      (fuel : ℕ) (s : Str) → has b'@' s ≡ true → Address opts fuel s → Carried opts (suc fuel) s
  unfolding write_string_from sent_raw
  Address-Carried fuel s at a = branches fuel s (address_not_inherited s at) λ token nibble hex.
      record {
        tag = a.tag;
        body = a.body;
        written =
            rw (token, write_string_from)
              (rw (nibble, hex)
                (write_text_address _ s a.decoded (ne_nil_of_has b'@' s at) a.is_address
                  ∙ a.written));
        kind = inr (a.plain_tag, rw (token, sent_raw) (rw (nibble, hex, a.is_address) refl));
        read_back = a.read_back;
      }

  pub plain-Carried :
      (fuel : ℕ) (s : Str)
      → s ≢ []
      → has b'@' s ≡ false
      → includes s inherited_names ≡ false
      → is_well_formed s ≡ true
      → length (utf8_encode s) < 2147483648
      → Carried opts (suc fuel) s
  plain-Carried fuel s ne at own_name well fits = branches fuel s own_name λ token nibble hex.
      raw-Carried opts h.table fuel s token nibble hex (jid_decode-none s at) ne well fits
