-- ===== src/Binary/Utf8.antt =====
-- `Buffer.from(text, 'utf-8')` and `buffer.toString('utf-8')`, the conversions of Node that the
-- codec uses: between UTF-16 code units and UTF-8 bytes, with U+FFFD for what is ill-formed.
pub mod RoundTrip
use nexawhats.Common.{
  ℕ, zero, suc, ◌+◌, ◌-◌, ◌*◌, ◌/◌, ◌%◌, ◌≤◌, ◌<◌, ◌≡◌, refl, ap, ◌∙◌, arith, leb, ltb, ◌==◌,
  if◌then◌else◌, Bool, true, false, ◌&&◌, ◌||◌, ◌⊎◌, inl, inr, List, [], ◌∷◌, ◌++◌, append_assoc,
}
use nexawhats.Common.Text.{Str}

abbrev pub is_high : ℕ → Bool
is_high u = leb 0xd800 u && ltb u 0xdc00

abbrev pub is_low : ℕ → Bool
is_low u = leb 0xdc00 u && ltb u 0xe000

-- One code point; a pair of surrogates stands for a point from 0x10000 on.
abbrev encode_point : ℕ → List ℕ
encode_point c =
    if ltb c 0x80
    then c ∷ []
    else if ltb c 0x800
    then (0xc0 + c / 64) ∷ (0x80 + c % 64) ∷ []
    else if ltb c 0x10000
    then (0xe0 + c / 4096) ∷ (0x80 + c / 64 % 64) ∷ (0x80 + c % 64) ∷ []
    else (0xf0 + c / 262144) ∷ (0x80 + c / 4096 % 64) ∷ (0x80 + c / 64 % 64) ∷ (0x80 + c % 64) ∷ []

abbrev pub pair_point : ℕ → ℕ → ℕ
pair_point hi lo = 0x10000 + (hi - 0xd800) * 1024 + (lo - 0xdc00)

-- A unit that is half of no pair is replaced.
abbrev encode_single : ℕ → List ℕ
encode_single u = encode_point (if is_high u then 0xfffd else if is_low u then 0xfffd else u)

unfoldable pub utf8_encode : Str → List ℕ
utf8_encode [] = []
utf8_encode (u ∷ []) = encode_single u
utf8_encode (u ∷ v ∷ s) =
    let paired = encode_point (pair_point u v) ++ utf8_encode s in
    let single = encode_single u ++ utf8_encode (v ∷ s) in
    if is_high u && is_low v then paired else single

-- The decoder's state: what is still expected, the point so far, the range of the next byte.
pub record State : Type 0 where
  pub needed : ℕ
  pub point : ℕ
  pub lower : ℕ
  pub upper : ℕ

abbrev idle : State
idle = record { needed = 0; point = 0; lower = 0x80; upper = 0xbf }

abbrev lead : ℕ → ℕ → ℕ → ℕ → State
lead needed point lower upper = record {
  needed = needed;
  point = point;
  lower = lower;
  upper = upper;
}

abbrev units : ℕ → Str
units c =
    if ltb c 0x10000
    then c ∷ []
    else (0xd800 + (c - 0x10000) / 1024) ∷ (0xdc00 + (c - 0x10000) % 1024) ∷ []

-- A byte where a sequence begins.
start : ℕ → Str × State
start b =
    if ltb b 0x80
    then (b ∷ [], idle)
    else if leb 0xc2 b && leb b 0xdf
    then ([], lead 1 (b - 0xc0) 0x80 0xbf)
    else if leb 0xe0 b && leb b 0xef
    then (
      [],
      lead 2 (b - 0xe0) (if b == 0xe0 then 0xa0 else 0x80) (if b == 0xed then 0x9f else 0xbf),
    )
    else if leb 0xf0 b && leb b 0xf4
    then (
      [],
      lead 3 (b - 0xf0) (if b == 0xf0 then 0x90 else 0x80) (if b == 0xf4 then 0x8f else 0xbf),
    )
    else (0xfffd ∷ [], idle)

-- A byte in a sequence; one out of range ends it, and begins the next.
step : State → ℕ → Str × State
unfolding start
step st b =
    if st.needed == 0
    then start b
    else if leb st.lower b && leb b st.upper
    then (if st.needed == 1
        then (units (st.point * 64 + (b - 0x80)), idle)
        else ([], lead (st.needed - 1) (st.point * 64 + (b - 0x80)) 0x80 0xbf))
    else (0xfffd ∷ (start b).0, (start b).1)

pub decode_from : State → List ℕ → Str
decode_from st [] = if st.needed == 0 then [] else 0xfffd ∷ []
decode_from st (b ∷ bs) = (step st b).0 ++ decode_from (step st b).1 bs

pub utf8_decode : List ℕ → Str
unfolding decode_from step
utf8_decode bs = decode_from idle bs

-- Text with no half of a pair alone.
unfoldable pub is_well_formed : Str → Bool
is_well_formed [] = true
is_well_formed (u ∷ []) = ltb u 0x10000 && (ltb u 0xd800 || leb 0xe000 u)
is_well_formed (u ∷ v ∷ s) =
    let paired = is_well_formed s in
    let single = ltb u 0x10000 && ((ltb u 0xd800 || leb 0xe000 u) && is_well_formed (v ∷ s)) in
    if is_high u && is_low v then paired else single
