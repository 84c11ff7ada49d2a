-- ===== src/Noise/Chunks.antt =====
-- How the bytes of a stream are cut into messages of the socket makes no difference to its frames.
use nexawhats.Common.{
  ℕ, zero, suc, ◌+◌, ◌*◌, ◌≤◌, ◌<◌, ◌≡◌, refl, subst, ap, sym, ◌∙◌, arith, Bool, true, false,
  Option, none, some, List, [], ◌∷◌, ◌++◌, length, take, drop, length-drop, length-append,
  append_assoc,
}
use nexawhats.Crypto.{Bytes, NodeCrypto}
use nexawhats.Noise.{Cipher, Noise}
use nexawhats.Noise.Frames.{
  Frame, Run, split_frame, open_frame, prepend, stop, frames_from, decode_frame,
}

take-app : (n : ℕ) (xs ys : Bytes) → n ≤ length xs → take n (xs ++ ys) ≡ take n xs
take-app zero xs ys h = refl
take-app (suc n) [] ys h = absurd (omega arith)
take-app (suc n) (x ∷ xs) ys h = ap (λ l. x ∷ l) (take-app n xs ys (omega arith))

drop-app : (n : ℕ) (xs ys : Bytes) → n ≤ length xs → drop n (xs ++ ys) ≡ drop n xs ++ ys
drop-app zero xs ys h = refl
drop-app (suc n) [] ys h = absurd (omega arith)
drop-app (suc n) (x ∷ xs) ys h = drop-app n xs ys (omega arith)

-- A frame that is there is still there when more bytes come.
pub split_frame-append :
    (x y frame rest : Bytes)
    → split_frame x ≡ some (frame, rest)
    → split_frame (x ++ y) ≡ some (frame, rest ++ y)
unfolding split_frame
split_frame-append (a ∷ b ∷ d ∷ xs) y frame rest h = ground (
  arith,
  length-append xs y,
  take-app (a * 65536 + b * 256 + d) xs y,
  drop-app (a * 65536 + b * 256 + d) xs y,
)
split_frame-append [] y frame rest h = cc
split_frame-append (a ∷ []) y frame rest h = cc
split_frame-append (a ∷ b ∷ []) y frame rest h = cc

pub split_frame-shorter :
    (x frame rest : Bytes) → split_frame x ≡ some (frame, rest) → length rest + 3 ≤ length x
unfolding split_frame
split_frame-shorter (a ∷ b ∷ d ∷ xs) frame rest h =
    ground (arith, length-drop (a * 65536 + b * 256 + d) xs)
split_frame-shorter [] frame rest h = cc
split_frame-shorter (a ∷ []) frame rest h = cc
split_frame-shorter (a ∷ b ∷ []) frame rest h = cc

module _ {ℓ} {N : Type ℓ} (c : NodeCrypto) (decode_node : Bytes → Option N) where
  abbrev pub then_loop : ℕ → Bytes → Cipher × Option (Frame N) → Run N
  then_loop fuel rest o = elim o.1 [
    | none ↦ stop c decode_node true o.0 rest
    | some x ↦ prepend c decode_node (x ∷ []) (frames_from c decode_node fuel o.0 rest)
  ]

  abbrev pub round : ℕ → Cipher → Bytes → Option (Bytes × Bytes) → Run N
  round fuel s b o = elim o [
    | none ↦ stop c decode_node false s b
    | some (frame, rest) ↦ then_loop fuel rest (open_frame c decode_node frame s)
  ]

  pub frames_from_lem :
      (fuel : ℕ) (s : Cipher) (b : Bytes) (o : Option (Bytes × Bytes))
      → split_frame b ≡ o
      → frames_from c decode_node (suc fuel) s b ≡ round fuel s b o
  unfolding frames_from
  frames_from_lem fuel s b o e = ap (round fuel s b) e

  -- The loop never runs out of fuel above the number of bytes.
  frames_from-fuel :
      (f g : ℕ) (s : Cipher) (b : Bytes)
      → length b < f
      → length b < g
      → frames_from c decode_node f s b ≡ frames_from c decode_node g s b
  frames_from-fuel zero g s b h k = absurd (omega arith)
  frames_from-fuel (suc f) zero s b h k = absurd (omega arith)
  frames_from-fuel (suc f) (suc g) s b h k =
      go (split_frame b) refl
        λ s' rest less. frames_from-fuel f g s' rest (omega arith) (omega arith)
    where
      opened :
          (rest : Bytes)
          → ((s' : Cipher)
              → frames_from c decode_node f s' rest ≡ frames_from c decode_node g s' rest)
          → (o : Cipher × Option (Frame N)) → then_loop f rest o ≡ then_loop g rest o
      opened rest ih (s', none) = refl
      opened rest ih (s', some x) = ap (prepend c decode_node (x ∷ [])) (ih s')

      go :
          (o : Option (Bytes × Bytes))
          → split_frame b ≡ o
          → ((s' : Cipher) (rest : Bytes)
              → length rest < length b
              → frames_from c decode_node f s' rest ≡ frames_from c decode_node g s' rest)
          → frames_from c decode_node (suc f) s b ≡ frames_from c decode_node (suc g) s b
      go none e ih = frames_from_lem f s b none e ∙ sym (frames_from_lem g s b none e)
      go (some (frame, rest)) e ih =
          let less = split_frame-shorter b frame rest e in
          frames_from_lem f s b (some (frame, rest)) e
          ∙ opened rest (λ s'. ih s' rest (omega arith)) (open_frame c decode_node frame s)
          ∙ sym (frames_from_lem g s b (some (frame, rest)) e)

  -- What the loop does from where a run `r` has stopped, when `y` comes.
  abbrev continue : Run N → Bytes → Run N
  continue r y =
      prepend c decode_node r.frames
        (frames_from c decode_node (length (r.rest ++ y) + 1) r.cipher (r.rest ++ y))

  frames_from-append :
      (f g : ℕ) (s : Cipher) (x y : Bytes)
      → length x < f
      → length (x ++ y) < g
      → (frames_from c decode_node f s x).failed ≡ false
      → frames_from c decode_node g s (x ++ y) ≡ continue (frames_from c decode_node f s x) y
  frames_from-append zero g s x y h k fine = absurd (omega arith)
  frames_from-append (suc f) zero s x y h k fine = absurd (omega arith)
  frames_from-append (suc f) (suc g) s x y h k fine = go (split_frame x) refl λ s' rest less good.
      frames_from-append f g s' rest y (omega arith)
        (omega (arith, length-append x y, length-append rest y)) good
    where
      opened :
          (rest : Bytes)
          → ((s' : Cipher)
              → (frames_from c decode_node f s' rest).failed ≡ false
              → frames_from c decode_node g s' (rest ++ y)
                ≡ continue (frames_from c decode_node f s' rest) y)
          → (o : Cipher × Option (Frame N)) → (then_loop f rest o).failed ≡ false
          → then_loop g (rest ++ y) o ≡ continue (then_loop f rest o) y
      opened rest ih (s', none) bad = cc
      opened rest ih (s', some m) good = ap (prepend c decode_node (m ∷ [])) (ih s' good)

      go :
          (o : Option (Bytes × Bytes))
          → split_frame x ≡ o
          → ((s' : Cipher) (rest : Bytes)
              → length rest < length x
              → (frames_from c decode_node f s' rest).failed ≡ false
              → frames_from c decode_node g s' (rest ++ y)
                ≡ continue (frames_from c decode_node f s' rest) y)
          → frames_from c decode_node (suc g) s (x ++ y)
            ≡ continue (frames_from c decode_node (suc f) s x) y
      go none e ih =
          frames_from-fuel (suc g) (length (x ++ y) + 1) s (x ++ y) (omega arith) (omega arith)
          ∙ ap (λ r. continue r y) (sym (frames_from_lem f s x none e))
      go (some (frame, rest)) e ih =
          let less = split_frame-shorter x frame rest e in
          frames_from_lem g s (x ++ y) (some (frame, rest ++ y))
            (split_frame-append x y frame rest e)
          ∙ opened rest (λ s'. ih s' rest (omega arith)) (open_frame c decode_node frame s)
              (ap (λ r. r.failed) (sym (frames_from_lem f s x (some (frame, rest)) e)) ∙ fine)
          ∙ ap (λ r. continue r y) (sym (frames_from_lem f s x (some (frame, rest)) e))

  -- Two messages of the socket, of which the second comes when `decodeFrame` has come to its end with
  -- the first and has thrown nothing, give the frames, the variables and the outcome that one message
  -- with the bytes of both gives.
  pub decode_frame-append :
      (a b : Bytes) (s : Noise)
      → (decode_frame c decode_node a s).2 ≡ false
      → let (first, before, _) = decode_frame c decode_node a s in
        let (last, after, failed) = decode_frame c decode_node b first in
        decode_frame c decode_node (a ++ b) s ≡ (last, before ++ after, failed)
  unfolding decode_frame
  decode_frame-append a b s fine =
      subst
        (λ w.
          let r = frames_from c decode_node (length w + 1) s.cipher w in
          (record s { cipher = r.cipher; in_bytes = r.rest }, r.frames, r.failed)
          ≡ done (
              continue
                (frames_from c decode_node (length (s.in_bytes ++ a) + 1) s.cipher
                  (s.in_bytes ++ a))
                b))
        (append_assoc s.in_bytes a b)
        (ap done (
          frames_from-append (length (s.in_bytes ++ a) + 1) (length ((s.in_bytes ++ a) ++ b) + 1)
            s.cipher (s.in_bytes ++ a) b (omega arith) (omega arith) fine))
    where
      done : Run N → Noise × List (Frame N) × Bool
      done r = (record s { cipher = r.cipher; in_bytes = r.rest }, r.frames, r.failed)
