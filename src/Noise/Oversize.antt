-- ===== src/Noise/Oversize.antt =====
-- What is left of a connection when a frame is too long.
use nexawhats.Common.{
  ℕ, ◌+◌, ◌^◌, ◌≤◌, ◌≡◌, ◌≢◌, ap, sym, ◌∙◌, arith, true, Option, none, some, length, get_elem?,
}
use nexawhats.Crypto.{Bytes, NodeCrypto}
use nexawhats.Crypto.Laws.{IsSound, length-aes_encrypt_gcm}
use nexawhats.Noise.{
  Noise, generate_iv, intro, frame_length, payload_of, frame_payload, encode_frame,
}
use nexawhats.Noise.Session.{Follows, sealed, written_one, encrypt-finished}

generate_iv-suc : (n : ℕ) → generate_iv (n + 1) ≢ generate_iv n
unfolding generate_iv
generate_iv-suc n e = grind (arith, ap (λ iv. get_elem? iv 11) e)

frame_length-none : (n : ℕ) → 2 ^ 24 ≤ n → frame_length n ≡ none
unfolding frame_length
frame_length-none n h = ground arith

-- After the handshake, a buffer that does not fit a frame with its tag makes `encodeFrame` throw,
-- but the counter of the sender has moved on: a side that followed the sender before now decrypts
-- the next frame with another IV than the one that it is encrypted with.
pub encode_frame-oversize :
    (c : NodeCrypto) (routing_info : Option Bytes) (header first p : Bytes) (s r : Noise)
    → IsSound c
    → intro routing_info header ≡ some first
    → Follows s.cipher r.cipher
    → 2 ^ 24 ≤ length p + 16
    → let (next, frame) = encode_frame c routing_info header p s in
      (frame ≡ none) × (generate_iv next.cipher.write_counter ≢ generate_iv r.cipher.read_counter)
unfolding encode_frame frame_payload
encode_frame-oversize c routing_info header first p s r sound h f long = (
  ap (λ q. q.1) thrown,
  λ e. generate_iv-suc r.cipher.read_counter (
      ap (λ n. generate_iv (n + 1)) (sym f.counter)
      ∙ ap (λ q. generate_iv q.0.cipher.write_counter) (sym thrown)
      ∙ e),
)
  where
    too_long : frame_length (length (sealed c p s.cipher)) ≡ none
    too_long = frame_length-none (length (sealed c p s.cipher)) (
        omega (
          arith,
          length-aes_encrypt_gcm c p s.cipher.enc_key (generate_iv s.cipher.write_counter)
              s.cipher.hash sound,
        ))

    thrown :
        encode_frame c routing_info header p s
        ≡ (record s { cipher = written_one s.cipher; sent_intro = true }, none)
    thrown =
        ap (λ o. frame_payload s o (payload_of c p s.cipher)) h
        ∙ ap (frame_payload s (some first)) (encrypt-finished c p s.cipher f.sender)
        ∙ ground (arith, too_long)
