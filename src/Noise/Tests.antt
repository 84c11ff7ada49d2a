-- ===== src/Noise/Tests.antt =====
-- A handshake and frames with ciphers that leave their text alone.
use nexawhats.Common.{
  List, ℕ, zero, suc, ◌^◌, ◌≡◌, ◌≢◌, refl, arith, true, false, Option, none, some, [], ◌∷◌, ◌++◌,
  length,
}
use nexawhats.Binary.{Node}
use nexawhats.Crypto.{
  Bytes, hkdf, aes_encrypt_gcm, aes_decrypt_gcm, shared_key, raw_to_public_key, raw_to_private_key,
}
use nexawhats.Crypto.Tests.{plain_crypto, plain_crypto-IsSound, sixteen}
use nexawhats.Noise.{
  Cipher, Noise, generate_iv, intro, frame_length, authenticate, encrypt, decrypt, mix_into_key,
  finish_init, make_noise_handler, noise_wa_header, encode_frame, frame_payload,
}
use nexawhats.Noise.Frames.{raw, split_frame, open_frame, frames_from, decode_frame}
use nexawhats.Noise.Chunks.{decode_frame-append}
use nexawhats.Noise.Session.{Follows}
use nexawhats.Noise.Oversize.{encode_frame-oversize}
use nexawhats.Noise.Handshake.{
  ServerHello, RawKeyPair, Messages, Result, ok, err, check_cert, process_handshake,
  perform_handshake,
}
use nexawhats.Noise.Interleaving.{
  Line, Step, arrives, resolves, fresh_line, run_steps, step, take_frame, cut, given,
}
use nexawhats.Noise.Established.{Established, perform_handshake-Established}

abbrev connected : Cipher
connected = record {
  hash = [];
  salt = [];
  enc_key = sixteen;
  dec_key = sixteen;
  read_counter = 0;
  write_counter = 0;
  is_finished = true;
}

abbrev open_line : Noise
open_line = record { cipher = connected; sent_intro = true; in_bytes = [] }

abbrev fresh : Noise
fresh = record {
  cipher = record connected { is_finished = false };
  sent_intro = false;
  in_bytes = [];
}

abbrev no_node : Bytes → Option Node
no_node bs = none

-- Five bytes of two frames, and the rest of the second.
abbrev part_1 : Bytes
part_1 = 0 ∷ 0 ∷ 1 ∷ 42 ∷ 0 ∷ []

abbrev part_2 : Bytes
part_2 = 0 ∷ 2 ∷ 7 ∷ 8 ∷ []

runs :
    (decode_frame plain_crypto no_node (part_1 ++ part_2) fresh).1
    ≡ raw (42 ∷ []) ∷ raw (7 ∷ 8 ∷ []) ∷ []
unfolding decode_frame frames_from split_frame open_frame
runs = refl

part_1_fine : (decode_frame plain_crypto no_node part_1 fresh).2 ≡ false
unfolding decode_frame frames_from split_frame open_frame
part_1_fine = refl

decode_frame-append_example :
    let (first, before, _) = decode_frame plain_crypto no_node part_1 fresh in
    let (last, after, failed) = decode_frame plain_crypto no_node part_2 first in
    decode_frame plain_crypto no_node (part_1 ++ part_2) fresh ≡ (last, before ++ after, failed)
decode_frame-append_example =
    decode_frame-append plain_crypto no_node part_1 part_2 fresh part_1_fine

-- A frame of one byte, with the tag behind it.
abbrev one_byte : ℕ → Bytes
one_byte n = 0 ∷ 0 ∷ 17 ∷ n ∷ sixteen

-- The second message comes while the call of the first one waits, and its frame is decoded first.
abbrev overtaking : List Step
overtaking = arrives (one_byte 42) ∷ arrives (one_byte 43) ∷ resolves 1 ∷ resolves 0 ∷ []

abbrev swapped : Line Bytes
swapped = run_steps plain_crypto some overtaking (fresh_line connected [])

handed_over_swapped : swapped.frames ≡ (43 ∷ []) ∷ (42 ∷ []) ∷ []
unfolding run_steps step take_frame split_frame cut given decrypt aes_decrypt_gcm
handed_over_swapped = refl

follows : Follows connected connected
follows = record { sender = refl; receiver = refl; key = refl; counter = refl; hash = refl }

wa_intro : intro none noise_wa_header ≡ some noise_wa_header
unfolding intro
wa_intro = refl

zeros : ℕ → Bytes
zeros zero = []
zeros (suc n) = 0 ∷ zeros n

length-zeros : (n : ℕ) → length (zeros n) ≡ n
unfolding zeros
length-zeros zero = refl
length-zeros (suc n) = omega (arith, length-zeros n)

encode_frame-oversize_example :
    let (next, frame) = encode_frame plain_crypto none noise_wa_header (zeros (2 ^ 24)) open_line in
    (frame ≡ none) × (generate_iv next.cipher.write_counter ≢ generate_iv 0)
encode_frame-oversize_example =
    encode_frame-oversize plain_crypto none noise_wa_header noise_wa_header (zeros (2 ^ 24))
      open_line open_line plain_crypto-IsSound wa_intro follows
      (omega (arith, length-zeros (2 ^ 24)))

abbrev key : Bytes
key = sixteen ++ sixteen

abbrev pair : RawKeyPair
pair = record { private_key = key; public_key = key }

abbrev server : ServerHello
server = record { ephemeral = key; static = key ++ sixteen; payload = sixteen ++ sixteen }

abbrev messages : Messages
messages = record {
  client_hello = λ k. k;
  client_finish = λ k p. k ++ p;
  server_hello = λ bs. some (some server);
  issuer_serial = λ cert. some 0;
}

abbrev first_contact : Noise
first_contact = make_noise_handler plain_crypto noise_wa_header key

abbrev outcome : Result (Noise × Bytes × Bytes) → Noise × Bytes × Bytes
outcome (ok r) = r
outcome (err e) = (first_contact, [], [])

abbrev handshake : Result (Noise × Bytes × Bytes)
handshake =
    perform_handshake plain_crypto messages none noise_wa_header pair pair [] (0 ∷ 0 ∷ 0 ∷ [])
      first_contact

has_resolved : handshake ≡ ok (outcome handshake)
unfolding perform_handshake process_handshake check_cert encode_frame frame_payload intro
    frame_length encrypt decrypt authenticate mix_into_key finish_init make_noise_handler
    generate_iv hkdf aes_encrypt_gcm aes_decrypt_gcm shared_key raw_to_public_key raw_to_private_key
has_resolved = refl

starts : (first_contact.sent_intro ≡ false) × (first_contact.cipher.is_finished ≡ false)
unfolding make_noise_handler authenticate
starts = (refl, refl)

perform_handshake-Established_example :
    Established plain_crypto messages none noise_wa_header pair
      (0 ∷ 0 ∷ 0 ∷ [])
      (outcome handshake).1
      first_contact
      (outcome handshake).0
perform_handshake-Established_example =
    perform_handshake-Established plain_crypto messages none noise_wa_header pair pair []
      (0 ∷ 0 ∷ 0 ∷ []) first_contact (outcome handshake).0 (outcome handshake).1
      (outcome handshake).2 starts.0 starts.1 has_resolved
