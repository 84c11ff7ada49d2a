-- ===== src/Noise/Frames.antt =====
-- `decodeFrame` of src/socket/noise.ts: the bytes that came in are cut into frames. `decode_frame` is a
-- call that runs to its end before the next one starts: what it awaits gives its result at once.
use nexawhats.Common.{
  ℕ, zero, suc, leb, ◌+◌, ◌*◌, if◌then◌else◌, Bool, true, false, Option, none, some, List, [], ◌∷◌,
  ◌++◌, length, take, drop,
}
use nexawhats.Crypto.{Bytes, NodeCrypto}
use nexawhats.Noise.{Cipher, Noise, decrypt}

-- What `onFrame` gets: a buffer in the handshake, and a node after it.
pub data Frame {ℓ} (N : Type ℓ) : Type ℓ where
  raw : Bytes → Frame N
  parsed : N → Frame N

-- The size in the first three bytes, and the frame where all of it is there.
unfoldable pub split_frame : Bytes → Option (Bytes × Bytes)
split_frame (a ∷ b ∷ d ∷ rest) =
    let size = a * 65536 + b * 256 + d in
    if leb size (length rest) then some (take size rest, drop size rest) else none
split_frame _ = none

-- The variables and the frames of a run of the loop; `failed` when it throws.
pub record Run {ℓ} (N : Type ℓ) : Type ℓ where
  pub cipher : Cipher
  pub rest : Bytes
  pub frames : List (Frame N)
  pub failed : Bool

module _ {ℓ} {N : Type ℓ} (c : NodeCrypto) (decode_node : Bytes → Option N) where
  -- A frame that does not decrypt leaves the counters; one that is not a node has moved them.
  unfoldable pub parse : Bytes × Cipher → Cipher × Option (Frame N)
  parse (plaintext, s) = elim (decode_node plaintext) [
    | none ↦ (s, none)
    | some n ↦ (s, some (parsed n))
  ]

  unfoldable pub open_frame : Bytes → Cipher → Cipher × Option (Frame N)
  open_frame frame s =
      if s.is_finished
      then elim (decrypt c frame s) [ none ↦ (s, none) | some opened ↦ parse opened ]
      else (s, some (raw frame))

  abbrev pub prepend : List (Frame N) → Run N → Run N
  prepend fs r = record r { frames = fs ++ r.frames }

  abbrev pub stop : Bool → Cipher → Bytes → Run N
  stop failed s buffer = record { cipher = s; rest = buffer; frames = []; failed = failed }

  -- The loop.
  unfoldable pub frames_from : ℕ → Cipher → Bytes → Run N
  frames_from zero s buffer = stop false s buffer
  frames_from (suc fuel) s buffer = elim (split_frame buffer) [
    | none ↦ stop false s buffer
    | some (frame, rest) ↦ elim (open_frame frame s).1 [
      | none ↦ stop true (open_frame frame s).0 rest
      | some f ↦ prepend (f ∷ []) (frames_from fuel (open_frame frame s).0 rest)
    ]
  ]

  -- The state, the frames given to `onFrame`, and whether the call throws.
  unfoldable pub decode_frame : Bytes → Noise → Noise × List (Frame N) × Bool
  decode_frame new_data s =
      let buffer = s.in_bytes ++ new_data in
      let r = frames_from (length buffer + 1) s.cipher buffer in
      (record s { cipher = r.cipher; in_bytes = r.rest }, r.frames, r.failed)
