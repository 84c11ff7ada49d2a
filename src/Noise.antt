-- ===== src/Noise.antt =====
-- src/socket/noise.ts: the handshake, and the frames that carry everything else. The closures over
-- the variables of `makeNoiseHandler` take the values of these and give the new ones back.
pub mod Frames
pub mod Chunks
pub mod Interleaving
pub mod Session
pub mod Delivery
pub mod Oversize
pub mod Handshake
pub mod Established
pub mod Tests
use nexawhats.Common.{
  ◌>>=◌, ℕ, zero, suc, ltb, leb, ◌+◌, ◌-◌, ◌*◌, ◌/◌, ◌%◌, ◌^◌, ◌==◌, if◌then◌else◌, Bool, true,
  false, Option, none, some, List, [], ◌∷◌, ◌++◌, length, take, drop,
}
use nexawhats.Common.Text.{codes}
use nexawhats.Crypto.{Bytes, NodeCrypto, hkdf, sha256, aes_encrypt_gcm, aes_decrypt_gcm, shared_key}

-- `NOISE_MODE`, which has 32 bytes: its text and four zero bytes.
abbrev pub mode_bytes : Bytes
mode_bytes = codes "Noise_XX_25519_AESGCM_SHA256" ++ (0 ∷ 0 ∷ 0 ∷ 0 ∷ [])

abbrev pub noise_wa_header : Bytes
noise_wa_header = 87 ∷ 65 ∷ 6 ∷ 3 ∷ []

abbrev pub cert_serial : ℕ
cert_serial = 0

-- The variables of the handshake and of the ciphers.
pub record Cipher : Type 0 where
  pub hash : Bytes
  pub salt : Bytes
  pub enc_key : Bytes
  pub dec_key : Bytes
  pub read_counter : ℕ
  pub write_counter : ℕ
  pub is_finished : Bool

-- All variables; `in_bytes` is what came in and is not yet a frame.
pub record Noise : Type 0 where
  pub cipher : Cipher
  pub sent_intro : Bool
  pub in_bytes : Bytes

-- `setUint32(8, counter)`
unfoldable pub generate_iv : ℕ → Bytes
generate_iv counter =
    0
    ∷ 0
    ∷ 0
    ∷ 0
    ∷ 0
    ∷ 0
    ∷ 0
    ∷ 0
    ∷ counter / 16777216 % 256
    ∷ counter / 65536 % 256
    ∷ counter / 256 % 256
    ∷ counter % 256
    ∷ []

module _ (c : NodeCrypto) where
  unfoldable pub authenticate : Bytes → Cipher → Cipher
  authenticate data' s = if s.is_finished then s else record s { hash = sha256 c (s.hash ++ data') }

  unfoldable pub encrypt : Bytes → Cipher → Bytes × Cipher
  encrypt plaintext s =
      let result = aes_encrypt_gcm c plaintext s.enc_key (generate_iv s.write_counter) s.hash in
      (result, authenticate result (record s { write_counter = s.write_counter + 1 }))

  -- Before the end of the handshake both directions count with the same counter.
  unfoldable pub decrypt : Bytes → Cipher → Option (Bytes × Cipher)
  decrypt ciphertext s = do
    result ←
        aes_decrypt_gcm c ciphertext s.dec_key
          (generate_iv (if s.is_finished then s.read_counter else s.write_counter)) s.hash
    some (
      result,
      authenticate ciphertext (
          if s.is_finished
          then record s { read_counter = s.read_counter + 1 }
          else record s { write_counter = s.write_counter + 1 }),
    )

  abbrev pub local_hkdf : Bytes → Bytes → Bytes × Bytes
  local_hkdf data' salt = let key = hkdf c data' 64 salt [] in (take 32 key, drop 32 key)

  unfoldable pub mix_into_key : Bytes → Cipher → Cipher
  mix_into_key data' s =
      let (write, read) = local_hkdf data' s.salt in
      record s { salt = write; enc_key = read; dec_key = read; read_counter = 0; write_counter = 0 }

  unfoldable pub finish_init : Cipher → Cipher
  finish_init s =
      let (write, read) = local_hkdf [] s.salt in
      record s {
        enc_key = write;
        dec_key = read;
        hash = [];
        read_counter = 0;
        write_counter = 0;
        is_finished = true;
      }

  -- `makeNoiseHandler`
  unfoldable pub make_noise_handler : Bytes → Bytes → Noise
  make_noise_handler header public_key =
      let h = if length mode_bytes == 32 then mode_bytes else sha256 c mode_bytes in
      let start : Cipher = record {
        hash = h;
        salt = h;
        enc_key = h;
        dec_key = h;
        read_counter = 0;
        write_counter = 0;
        is_finished = false;
      } in
      record {
        cipher = authenticate public_key (authenticate header start);
        sent_intro = false;
        in_bytes = [];
      }

-- The first bytes of a connection. `none` is the `RangeError` of `writeUInt8`.
unfoldable pub intro : Option Bytes → Bytes → Option Bytes
intro none header = some header
intro (some routing_info) header =
    let n = length routing_info in
    if ltb (n / 65536) 256
    then some
        ((69 ∷ 68 ∷ 0 ∷ 1 ∷ n / 65536 ∷ n / 256 % 256 ∷ n % 256 ∷ []) ++ (routing_info ++ header))
    else none

-- The length of a frame in three bytes, of which the first takes no more than a byte.
unfoldable pub frame_length : ℕ → Option Bytes
frame_length n =
    if ltb (n / 65536) 256 then some (n / 65536 ∷ n / 256 % 256 ∷ n % 256 ∷ []) else none

-- `encodeFrame`, from the payload on and with the header, where that could be made. What has
-- changed stays changed when a `RangeError` is thrown.
unfoldable pub frame_payload : Noise → Option Bytes → Bytes × Cipher → Noise × Option Bytes
frame_payload s none (payload, cipher) = (record s { cipher = cipher }, none)
frame_payload s (some first) (payload, cipher) = (
  record s { cipher = cipher; sent_intro = true },
  do
    size ← frame_length (length payload)
    some ((if s.sent_intro then [] else first) ++ (size ++ payload)),
)

module _ (c : NodeCrypto) where
  abbrev pub payload_of : Bytes → Cipher → Bytes × Cipher
  payload_of data' s = if s.is_finished then encrypt c data' s else (data', s)

  unfoldable pub encode_frame : Option Bytes → Bytes → Bytes → Noise → Noise × Option Bytes
  encode_frame routing_info header data' s =
      frame_payload s (intro routing_info header) (payload_of data' s.cipher)
