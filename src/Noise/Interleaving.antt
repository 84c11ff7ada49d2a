-- ===== src/Noise/Interleaving.antt =====
-- `decodeFrame` of src/socket/noise.ts after the handshake, as src/client/connect.ts calls it: for each
-- message of the socket, without waiting for the calls before. A call runs until it awaits
-- `decodeBinaryNode` of a frame, and other calls run before it goes on.
use nexawhats.Common.{ℕ, zero, suc, ◌≡◌, Option, none, some, List, [], ◌∷◌, ◌++◌, get_elem?}
use nexawhats.Crypto.{Bytes, NodeCrypto}
use nexawhats.Noise.{Cipher, decrypt}
use nexawhats.Noise.Frames.{split_frame}

-- The variables that the calls share, the frames that calls wait with, all that were decrypted, and
-- what was given to `onFrame`.
pub record Line {ℓ} (N : Type ℓ) : Type ℓ where
  pub cipher : Cipher
  pub in_bytes : Bytes
  pub waiting : List Bytes
  pub opened : List Bytes
  pub frames : List N

-- A message of the socket comes, or what one of the waiting calls awaits is there.
pub data Step : Type 0 where
  arrives : Bytes → Step
  resolves : ℕ → Step

abbrev pub fresh_line {ℓ} : {N : Type ℓ} → Cipher → Bytes → Line N
fresh_line s buffer = record {
  cipher = s;
  in_bytes = buffer;
  waiting = [];
  opened = [];
  frames = [];
}

abbrev without : ℕ → List Bytes → List Bytes
without k [] = []
without zero (p ∷ ps) = ps
without (suc k) (p ∷ ps) = p ∷ without k ps

module _ {ℓ} {N : Type ℓ} (c : NodeCrypto) (decode_node : Bytes → Option N) where
  -- A frame is cut off and decrypted; a call whose frame does not decrypt throws.
  unfoldable pub cut : Option (Bytes × Cipher) → Bytes → Line N → Line N
  cut none rest l = record l { in_bytes = rest }
  cut (some (plaintext, s)) rest l = record l {
    cipher = s;
    in_bytes = rest;
    waiting = l.waiting ++ (plaintext ∷ []);
    opened = l.opened ++ (plaintext ∷ []);
  }

  -- The loop, from its test to the `await`, or to its end.
  unfoldable pub take_frame : Line N → Line N
  take_frame l = elim (split_frame l.in_bytes) [
    | none ↦ l
    | some (frame, rest) ↦ cut (decrypt c frame l.cipher) rest l
  ]

  -- A call whose frame is no node throws; the others give it to `onFrame` and go on.
  unfoldable pub given : Option N → Line N → Line N
  given none l = l
  given (some n) l = take_frame (record l { frames = l.frames ++ (n ∷ []) })

  unfoldable pub step : Step → Line N → Line N
  step (arrives new_data) l = take_frame (record l { in_bytes = l.in_bytes ++ new_data })
  step (resolves k) l = elim (get_elem? l.waiting k) [
    | none ↦ l
    | some plaintext ↦ given (decode_node plaintext) (record l { waiting = without k l.waiting })
  ]

  unfoldable pub run_steps : List Step → Line N → Line N
  run_steps [] l = l
  run_steps (x ∷ xs) l = run_steps xs (step x l)

-- The bytes that came, in the order of the messages.
unfoldable pub arrived : List Step → Bytes
arrived [] = []
arrived (arrives new_data ∷ xs) = new_data ++ arrived xs
arrived (resolves k ∷ xs) = arrived xs

-- Reading frames one after the other off a stream: the plaintexts of those that decrypt, with the
-- cipher and the bytes that are left. A frame that does not decrypt is passed over.
pub data Opens (c : NodeCrypto) (s : Cipher) (buffer : Bytes)
    : List Bytes → Cipher → Bytes → Type 0 where
  begin : Opens c s buffer [] s buffer
  open_one :
      {ps : List Bytes} {t u : Cipher} {b frame rest plaintext : Bytes}
      → Opens c s buffer ps t b
      → split_frame b ≡ some (frame, rest)
      → decrypt c frame t ≡ some (plaintext, u)
      → Opens c s buffer (ps ++ (plaintext ∷ [])) u rest
  pass_over :
      {ps : List Bytes} {t : Cipher} {b frame rest : Bytes}
      → Opens c s buffer ps t b
      → split_frame b ≡ some (frame, rest)
      → decrypt c frame t ≡ none
      → Opens c s buffer ps t rest

module _ {ℓ} {N : Type ℓ} (c : NodeCrypto) (decode_node : Bytes → Option N) (s : Cipher) where
  -- What was decrypted, and what is left, come from reading a buffer.
  abbrev Reads : Bytes → Line N → Type 0
  Reads buffer l = Opens c s buffer l.opened l.cipher l.in_bytes
