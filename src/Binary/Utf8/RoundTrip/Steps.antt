-- ===== src/Binary/Utf8/RoundTrip/Steps.antt =====
-- The states that the decoder of UTF-8 passes on the bytes of one character.
use nexawhats.Common.{
  ℕ, suc, ◌+◌, ◌-◌, ◌*◌, ◌≤◌, ◌<◌, ◌≡◌, refl, ◌∙◌, arith, leb, ◌==◌, if◌then◌else◌, true, ◌&&◌,
  List, [], ◌∷◌, ◌++◌,
}
use nexawhats.Common.Text.{Str}
use nexawhats.Binary.Utf8.{State, idle, lead, start, step, decode_from, units}

step-idle : (b : ℕ) → step idle b ≡ start b
unfolding step
step-idle b = refl

step_last :
    (p lower upper r : ℕ)
    → lower ≤ 0x80 + r
    → 0x80 + r ≤ upper
    → step (lead 1 p lower upper) (0x80 + r) ≡ (units (p * 64 + r), idle)
unfolding step
step_last p lower upper r h k = rw (in_range, drop_base) refl
  where
    in_range : (leb lower (0x80 + r) && leb (0x80 + r) upper) ≡ true
    in_range = ground arith

    drop_base : 0x80 + r - 0x80 ≡ r
    drop_base = omega arith

step_more :
    (n p lower upper r : ℕ)
    → lower ≤ 0x80 + r
    → 0x80 + r ≤ upper
    → step (lead (suc (suc n)) p lower upper) (0x80 + r) ≡ ([], lead (suc n) (p * 64 + r) 0x80 0xbf)
unfolding step
step_more n p lower upper r h k = ground arith

start_one : (c : ℕ) → c < 0x80 → start c ≡ (c ∷ [], idle)
unfolding start
start_one c h = ground arith

start_two : (p : ℕ) → 2 ≤ p → p < 0x20 → start (0xc0 + p) ≡ ([], lead 1 p 0x80 0xbf)
unfolding start
start_two p h k = ground arith

abbrev pub lower_3 : ℕ → ℕ
lower_3 p = if p == 0 then 0xa0 else 0x80

abbrev pub upper_3 : ℕ → ℕ
upper_3 p = if p == 13 then 0x9f else 0xbf

start_three : (p : ℕ) → p < 0x10 → start (0xe0 + p) ≡ ([], lead 2 p (lower_3 p) (upper_3 p))
unfolding start
start_three p h = ground arith

abbrev pub lower_4 : ℕ → ℕ
lower_4 p = if p == 0 then 0x90 else 0x80

abbrev pub upper_4 : ℕ → ℕ
upper_4 p = if p == 4 then 0x8f else 0xbf

start_four : (p : ℕ) → p ≤ 4 → start (0xf0 + p) ≡ ([], lead 3 p (lower_4 p) (upper_4 p))
unfolding start
start_four p h = ground arith

decode_step :
    (st st' : State) (b : ℕ) (bs : List ℕ) (out : Str)
    → step st b ≡ (out, st')
    → decode_from st (b ∷ bs) ≡ out ++ decode_from st' bs
unfolding decode_from
decode_step st st' b bs out e = rw e refl

pub decode_one :
    (c : ℕ) (bs : List ℕ) → c < 0x80 → decode_from idle (c ∷ bs) ≡ c ∷ decode_from idle bs
decode_one c bs h = decode_step idle idle c bs (c ∷ []) (step-idle c ∙ start_one c h)

pub decode_two :
    (p q : ℕ) (bs : List ℕ)
    → 2 ≤ p
    → p < 0x20
    → q < 64
    → decode_from idle ((0xc0 + p) ∷ (0x80 + q) ∷ bs) ≡ units (p * 64 + q) ++ decode_from idle bs
decode_two p q bs h k l =
    decode_step idle _ _ _ [] (step-idle _ ∙ start_two p h k)
    ∙ decode_step _ idle _ bs _ (step_last p 0x80 0xbf q (omega arith) (omega arith))

pub decode_three :
    (p q r : ℕ) (bs : List ℕ)
    → p < 0x10
    → q < 64
    → r < 64
    → lower_3 p ≤ 0x80 + q
    → 0x80 + q ≤ upper_3 p
    → decode_from idle ((0xe0 + p) ∷ (0x80 + q) ∷ (0x80 + r) ∷ bs)
      ≡ units ((p * 64 + q) * 64 + r) ++ decode_from idle bs
decode_three p q r bs hp hq hr lo hi =
    decode_step idle _ _ _ [] (step-idle _ ∙ start_three p hp)
    ∙ decode_step _ _ _ _ [] (step_more 0 p (lower_3 p) (upper_3 p) q lo hi)
    ∙ decode_step _ idle _ bs _ (step_last (p * 64 + q) 0x80 0xbf r (omega arith) (omega arith))

pub decode_four :
    (p q r t : ℕ) (bs : List ℕ)
    → p ≤ 4
    → q < 64
    → r < 64
    → t < 64
    → lower_4 p ≤ 0x80 + q
    → 0x80 + q ≤ upper_4 p
    → decode_from idle ((0xf0 + p) ∷ (0x80 + q) ∷ (0x80 + r) ∷ (0x80 + t) ∷ bs)
      ≡ units (((p * 64 + q) * 64 + r) * 64 + t) ++ decode_from idle bs
decode_four p q r t bs hp hq hr ht lo hi =
    decode_step idle _ _ _ [] (step-idle _ ∙ start_four p hp)
    ∙ decode_step _ _ _ _ [] (step_more 1 p (lower_4 p) (upper_4 p) q lo hi)
    ∙ decode_step _ _ _ _ [] (step_more 0 (p * 64 + q) 0x80 0xbf r (omega arith) (omega arith))
    ∙ decode_step _ idle _ bs _
        (step_last ((p * 64 + q) * 64 + r) 0x80 0xbf t (omega arith) (omega arith))
