-- ===== src/Binary/Utf8/RoundTrip.antt =====
-- `toString('utf-8')` after `Buffer.from(text, 'utf-8')` gives back well-formed text.
mod Steps
use nexawhats.Common.{
  ℕ, suc, ◌+◌, ◌-◌, ◌*◌, ◌/◌, ◌%◌, ◌≤◌, ◌<◌, ◌≡◌, refl, sym, ap, ◌∙◌, arith, leb, ltb, ◌==◌,
  if◌then◌else◌, Bool, true, ◌&&◌, ◌||◌, ◌⊎◌, inl, inr, List, [], ◌∷◌, ◌++◌, append-nil, Bool-cases,
}
use native.Mathlib.Decide.{dec_lt}
use nexawhats.Common.Text.{Str}
use nexawhats.Binary.Utf8.{
  State, idle, lead, start, step, decode_from, units, encode_point, encode_single, pair_point,
  is_high, is_low, utf8_encode, utf8_decode, is_well_formed,
}
use nexawhats.Binary.Utf8.RoundTrip.Steps.{
  decode_one, decode_two, decode_three, decode_four, lower_3, upper_3, lower_4, upper_4,
}

abbrev IsScalar : ℕ → Type 0
IsScalar c = (c < 0xd800) ⊎ (0xe000 ≤ c)

split_two : (c : ℕ) → c / 64 * 64 + c % 64 ≡ c
split_two c = omega arith

split_three : (c : ℕ) → (c / 4096 * 64 + c / 64 % 64) * 64 + c % 64 ≡ c
split_three c = omega arith

split_four : (c : ℕ) → ((c / 262144 * 64 + c / 4096 % 64) * 64 + c / 64 % 64) * 64 + c % 64 ≡ c
split_four c = omega arith

encode_one : (c : ℕ) → c < 0x80 → encode_point c ≡ c ∷ []
encode_one c h = ground arith

units_one : (c : ℕ) → c < 0x10000 → units c ≡ c ∷ []
units_one c h = ground arith

encode_two :
    (c : ℕ) → 0x80 ≤ c → c < 0x800 → encode_point c ≡ (0xc0 + c / 64) ∷ (0x80 + c % 64) ∷ []
encode_two c h k = ground arith

encode_three :
    (c : ℕ)
    → 0x800 ≤ c
    → c < 0x10000
    → encode_point c ≡ (0xe0 + c / 4096) ∷ (0x80 + c / 64 % 64) ∷ (0x80 + c % 64) ∷ []
encode_three c h k = ground arith

encode_four :
    (c : ℕ)
    → 0x10000 ≤ c
    → encode_point c
      ≡ (0xf0 + c / 262144) ∷ (0x80 + c / 4096 % 64) ∷ (0x80 + c / 64 % 64) ∷ (0x80 + c % 64) ∷ []
encode_four c h = ground arith

module _ (c : ℕ) (bs : List ℕ) where
  abbrev Reads : Type 0
  Reads = decode_from idle (encode_point c ++ bs) ≡ units c ++ decode_from idle bs

  reads_one : c < 0x80 → Reads
  reads_one h =
      ap (λ l. decode_from idle (l ++ bs)) (encode_one c h)
      ∙ decode_one c bs h
      ∙ ap (λ l. l ++ decode_from idle bs) (sym (units_one c (omega arith)))

  reads_two : 0x80 ≤ c → c < 0x800 → Reads
  reads_two h k =
      ap (λ l. decode_from idle (l ++ bs)) (encode_two c h k)
      ∙ decode_two (c / 64) (c % 64) bs (omega arith) (omega arith) (omega arith)
      ∙ ap (λ t. units t ++ decode_from idle bs) (split_two c)

  reads_three : 0x800 ≤ c → c < 0x10000 → IsScalar c → Reads
  reads_three h k s =
      ap (λ l. decode_from idle (l ++ bs)) (encode_three c h k)
      ∙ decode_three (c / 4096) (c / 64 % 64) (c % 64) bs (omega arith) (omega arith) (omega arith)
          (ground arith) (ground arith)
      ∙ ap (λ t. units t ++ decode_from idle bs) (split_three c)

  reads_four : 0x10000 ≤ c → c < 0x110000 → Reads
  reads_four h k =
      ap (λ l. decode_from idle (l ++ bs)) (encode_four c h)
      ∙ decode_four (c / 262144) (c / 4096 % 64) (c / 64 % 64) (c % 64) bs (omega arith)
          (omega arith) (omega arith) (omega arith) (ground arith) (ground arith)
      ∙ ap (λ t. units t ++ decode_from idle bs) (split_four c)

  -- A code point that is no surrogate is read back, as one unit or as a pair.
  decode-encode_point : c < 0x110000 → IsScalar c → Reads
  decode-encode_point h s = elim (dec_lt c 0x80) [
    | yes a ↦ reads_one a
    | no a ↦ elim (dec_lt c 0x800) [
      | yes b ↦ reads_two (omega arith) b
      | no b ↦ elim (dec_lt c 0x10000) [
        | yes d ↦ reads_three (omega arith) d s
        | no d ↦ reads_four (omega arith) h
      ]
    ]
  ]

single_unit : (u : ℕ) → IsScalar u → encode_single u ≡ encode_point u
single_unit u s = ground arith

paired_units : (u v : ℕ) → (is_high u && is_low v) ≡ true → units (pair_point u v) ≡ u ∷ v ∷ []
paired_units u v h = ground arith

pair_bounds :
    (u v : ℕ)
    → (is_high u && is_low v) ≡ true
    → (pair_point u v < 0x110000) × (0xe000 ≤ pair_point u v)
pair_bounds u v h = ground arith

reads_single :
    (u : ℕ) (bs : List ℕ)
    → (ltb u 0x10000 && (ltb u 0xd800 || leb 0xe000 u)) ≡ true
    → decode_from idle (encode_single u ++ bs) ≡ u ∷ decode_from idle bs
reads_single u bs h =
    ap (λ l. decode_from idle (l ++ bs)) (single_unit u (scalar h))
    ∙ decode-encode_point u bs (ground arith) (scalar h)
    ∙ ap (λ l. l ++ decode_from idle bs) (units_one u (ground arith))
  where
    scalar : (ltb u 0x10000 && (ltb u 0xd800 || leb 0xe000 u)) ≡ true → IsScalar u
    scalar k = ground arith

reads_pair :
    (u v : ℕ) (bs : List ℕ)
    → (is_high u && is_low v) ≡ true
    → decode_from idle (encode_point (pair_point u v) ++ bs) ≡ u ∷ v ∷ decode_from idle bs
reads_pair u v bs h =
    let (below, above) = pair_bounds u v h in
    decode-encode_point (pair_point u v) bs below (inr above)
    ∙ ap (λ l. l ++ decode_from idle bs) (paired_units u v h)

decode_from_nil : decode_from idle [] ≡ []
unfolding decode_from
decode_from_nil = refl

decode_from-utf8_encode : (s : Str) → is_well_formed s ≡ true → decode_from idle (utf8_encode s) ≡ s
unfolding utf8_encode is_well_formed
decode_from-utf8_encode [] h = decode_from_nil
decode_from-utf8_encode (u ∷ []) h =
    ap (decode_from idle) (sym (append-nil (encode_single u)))
    ∙ reads_single u [] h
    ∙ ap (λ l. u ∷ l) decode_from_nil
decode_from-utf8_encode (u ∷ v ∷ s) h = elim (Bool-cases (is_high u && is_low v)) [
  | inl p ↦ rw p (
      reads_pair u v (utf8_encode s) p
      ∙ ap (λ l. u ∷ v ∷ l) (decode_from-utf8_encode s (rw p at h)))
  | inr p ↦
      let (this, rest) = both (ltb u 0x10000) (ltb u 0xd800 || leb 0xe000 u) _ (rw p at h) in
      rw p (
        reads_single u (utf8_encode (v ∷ s)) this
        ∙ ap (λ l. u ∷ l) (decode_from-utf8_encode (v ∷ s) rest))
]
  where
    both : (a b c : Bool) → (a && (b && c)) ≡ true → ((a && b) ≡ true) × (c ≡ true)
    both a b c e = ground arith

-- Text whose surrogates all stand in pairs is given back by decoding its UTF-8 form.
pub utf8_decode-utf8_encode : (s : Str) → is_well_formed s ≡ true → utf8_decode (utf8_encode s) ≡ s
utf8_decode-utf8_encode s h = utf8_decode_eq (utf8_encode s) ∙ decode_from-utf8_encode s h
  where
    utf8_decode_eq : (bs : List ℕ) → utf8_decode bs ≡ decode_from idle bs
    utf8_decode_eq bs = unfold utf8_decode in refl
