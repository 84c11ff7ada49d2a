-- ===== src/Noise/Session.antt =====
-- Frames of one side of a connection, read by the other side after the handshake.
use nexawhats.Common.{
  ℕ, zero, suc, ◌+◌, ◌/◌, ◌%◌, ◌^◌, ◌<◌, ◌≡◌, refl, ap, ◌∙◌, arith, true, false, Option, none, some,
  List, [], ◌∷◌, ◌++◌, map, length, take-append, drop-append, length-append, append_assoc, All,
}
use nexawhats.Crypto.{Bytes, NodeCrypto, aes_encrypt_gcm}
use nexawhats.Crypto.Laws.{IsSound, length-aes_encrypt_gcm, aes_decrypt_gcm-aes_encrypt_gcm}
use nexawhats.Noise.{
  Cipher, Noise, generate_iv, authenticate, encrypt, decrypt, intro, frame_length, payload_of,
  frame_payload, encode_frame,
}
use nexawhats.Noise.Chunks.{split_frame-shorter, then_loop, frames_from_lem}
use nexawhats.Noise.Frames.{parsed, split_frame, parse, open_frame, prepend, frames_from}

-- `r` reads what `s` writes: the handshake is over, the key is the same, and so is the number of
-- the next frame.
pub record Follows (s r : Cipher) : Type 0 where
  pub sender : s.is_finished ≡ true
  pub receiver : r.is_finished ≡ true
  pub key : s.enc_key ≡ r.dec_key
  pub counter : s.write_counter ≡ r.read_counter
  pub hash : s.hash ≡ r.hash

abbrev pub written_one : Cipher → Cipher
written_one s = record s { write_counter = s.write_counter + 1 }

abbrev read_one : Cipher → Cipher
read_one r = record r { read_counter = r.read_counter + 1 }

Follows-one : (s r : Cipher) → Follows s r → Follows (written_one s) (read_one r)
Follows-one s r f = record {
  sender = f.sender;
  receiver = f.receiver;
  key = f.key;
  counter = ap (λ n. n + 1) f.counter;
  hash = f.hash;
}

abbrev pub sealed : NodeCrypto → Bytes → Cipher → Bytes
sealed c p s = aes_encrypt_gcm c p s.enc_key (generate_iv s.write_counter) s.hash

module _ (c : NodeCrypto) where
  pub encrypt-finished :
      (p : Bytes) (s : Cipher)
      → s.is_finished ≡ true
      → payload_of c p s ≡ (sealed c p s, written_one s)
  unfolding encrypt authenticate
  encrypt-finished p s e = ground (arith, e)

  decrypt-sealed :
      (p : Bytes) (s r : Cipher)
      → IsSound c
      → Follows s r
      → decrypt c (sealed c p s) r ≡ some (p, read_one r)
  unfolding decrypt authenticate
  decrypt-sealed p s r sound f = ground (
    arith,
    f.sender,
    f.receiver,
    f.key,
    f.counter,
    f.hash,
    aes_decrypt_gcm-aes_encrypt_gcm c p s.enc_key (generate_iv s.write_counter) s.hash,
  )

split_frame-frame_length :
    (frame later : Bytes)
    → length frame < 2 ^ 24
    → (size : Bytes) × (frame_length (length frame) ≡ some size)
      × (split_frame (size ++ (frame ++ later)) ≡ some (frame, later))
unfolding split_frame frame_length
split_frame-frame_length frame later h =
    let n = length frame in
    (
      n / 65536 ∷ n / 256 % 256 ∷ n % 256 ∷ [],
      ground arith,
      ground (arith, take-append frame later, drop-append frame later, length-append frame later),
    )

abbrev pub and_then : Option Bytes → Noise × Option Bytes → Noise × Option Bytes
and_then none (s, later) = (s, none)
and_then (some frame) (s, none) = (s, none)
and_then (some frame) (s, some later) = (s, some (frame ++ later))

module _ {ℓ} {N : Type ℓ} (c : NodeCrypto) (decode_node : Bytes → Option N) where
  -- Frames that are sent one after the other; `none` when one of the calls throws.
  unfoldable pub send_all : Option Bytes → Bytes → List (Bytes × N) → Noise → Noise × Option Bytes
  send_all routing_info header [] s = (s, some [])
  send_all routing_info header ((p, n) ∷ ps) s =
      let one = encode_frame c routing_info header p s in
      and_then one.1 (send_all routing_info header ps one.0)

  -- A buffer that the decoder reads as the node beside it, and that fits a frame with its tag.
  abbrev pub Fits : Bytes × N → Type ℓ
  Fits (p, n) = (decode_node p ≡ some n) × (length p + 16 < 2 ^ 24)

  encode_frame-finished :
      (routing_info : Option Bytes) (header first p size : Bytes) (s : Noise)
      → intro routing_info header ≡ some first
      → s.sent_intro ≡ true
      → s.cipher.is_finished ≡ true
      → frame_length (length (sealed c p s.cipher)) ≡ some size
      → encode_frame c routing_info header p s
        ≡ (record s { cipher = written_one s.cipher }, some (size ++ sealed c p s.cipher))
  unfolding encode_frame frame_payload
  encode_frame-finished routing_info header first p size s h k e f =
      ap (λ o. frame_payload s o (payload_of c p s.cipher)) h
      ∙ ap (frame_payload s (some first)) (encrypt-finished c p s.cipher e)
      ∙ ground (arith, k, f)

  open_frame-sealed :
      (p : Bytes) (n : N) (s r : Cipher)
      → IsSound c
      → Follows s r
      → decode_node p ≡ some n
      → open_frame c decode_node (sealed c p s) r ≡ (read_one r, some (parsed n))
  unfolding open_frame parse
  open_frame-sealed p n s r sound f e =
      ground (arith, f.receiver, decrypt-sealed c p s r sound f, e)

  pub record Sent (routing_info : Option Bytes) (header : Bytes) (ps : List (Bytes × N)) (s : Noise)
      (r : Cipher) : Type ℓ where
    pub state : Noise
    pub bytes : Bytes
    pub reader : Cipher
    pub written : send_all routing_info header ps s ≡ (state, some bytes)
    pub follows : Follows state.cipher reader
    pub read_back :
        (fuel : ℕ)
        → length bytes < fuel
        → frames_from c decode_node fuel r bytes
          ≡ record { cipher = reader; rest = []; frames = map (λ q. parsed q.1) ps; failed = false }

  frames_from_nil :
      (fuel : ℕ) (r : Cipher)
      → frames_from c decode_node fuel r []
        ≡ record { cipher = r; rest = []; frames = []; failed = false }
  unfolding frames_from split_frame
  frames_from_nil zero r = refl
  frames_from_nil (suc fuel) r = refl

  module _ (routing_info : Option Bytes) (header first : Bytes) (sound : IsSound c)
      (started : intro routing_info header ≡ some first) where
    one_more :
        (p : Bytes) (n : N) (ps : List (Bytes × N)) (s : Noise) (r : Cipher)
        → s.sent_intro ≡ true
        → Follows s.cipher r
        → Fits (p, n)
        → Sent routing_info header ps (record s { cipher = written_one s.cipher }) (read_one r)
        → Sent routing_info header ((p, n) ∷ ps) s r
    unfolding send_all
    one_more p n ps s r k f (decodes, short) later =
        let (size, sized, split) = split_frame-frame_length frame later.bytes (
          omega (
            arith,
            length-aes_encrypt_gcm c p s.cipher.enc_key (generate_iv s.cipher.write_counter)
                s.cipher.hash sound,
          )) in
        record {
          state = later.state;
          bytes = (size ++ frame) ++ later.bytes;
          reader = later.reader;
          written =
              ap (λ one. and_then one.1 (send_all routing_info header ps one.0))
                (encode_frame-finished routing_info header first p size s started k f.sender sized)
              ∙ ap (and_then (some (size ++ frame))) later.written;
          follows = later.follows;
          read_back = back size split;
        }
      where
        frame : Bytes
        frame = sealed c p s.cipher

        back :
            (size : Bytes)
            → split_frame (size ++ (frame ++ later.bytes)) ≡ some (frame, later.bytes)
            → (fuel : ℕ) → length ((size ++ frame) ++ later.bytes) < fuel
            → frames_from c decode_node fuel r ((size ++ frame) ++ later.bytes) ≡ record {
              cipher = later.reader;
              rest = [];
              frames = parsed n ∷ map (λ q. parsed q.1) ps;
              failed = false;
            }
        back size split zero h = absurd (omega arith)
        back size split (suc fuel) h =
            frames_from_lem c decode_node fuel r ((size ++ frame) ++ later.bytes)
              (some (frame, later.bytes))
              (ap split_frame (append_assoc size frame later.bytes) ∙ split)
            ∙ ap (then_loop c decode_node fuel later.bytes)
                (open_frame-sealed p n s.cipher r sound f decodes)
            ∙ ap (prepend c decode_node (parsed n ∷ [])) (
                later.read_back fuel (
                  omega (
                    arith,
                    length-append (size ++ frame) later.bytes,
                    split_frame-shorter _ _ _ split,
                    length-append size (frame ++ later.bytes),
                    length-append size frame,
                    length-append frame later.bytes,
                  )))

    pub send :
        (ps : List (Bytes × N)) (s : Noise) (r : Cipher)
        → s.sent_intro ≡ true
        → Follows s.cipher r
        → All Fits ps
        → Sent routing_info header ps s r
    unfolding send_all
    send [] s r k f fits = record {
      state = s;
      bytes = [];
      reader = r;
      written = refl;
      follows = f;
      read_back = λ fuel h. frames_from_nil fuel r;
    }
    send ((p, n) ∷ ps) s r k f (one, fits) = one_more p n ps s r k f one (
        send ps (record s { cipher = written_one s.cipher }) (read_one r) k
          (Follows-one s.cipher r f) fits)
