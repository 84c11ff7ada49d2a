-- ===== src/Noise/Handshake.antt =====
-- `processHandshake` of src/socket/noise.ts and `performHandshake` of src/socket/handshake.ts, for
-- the frame that the server answers with. A handshake that throws ends the connection, so that its
-- variables are not given back.
use nexawhats.Common.{ℕ, ◌==◌, if◌then◌else◌, Option, none, some, drop}
use nexawhats.Crypto.{Bytes, NodeCrypto, shared_key}
use nexawhats.Noise.{
  Cipher, Noise, authenticate, encrypt, decrypt, mix_into_key, finish_init, cert_serial,
  encode_frame,
}

pub record ServerHello : Type 0 where
  pub ephemeral : Bytes
  pub static : Bytes
  pub payload : Bytes

pub record RawKeyPair : Type 0 where
  pub private_key : Bytes
  pub public_key : Bytes

-- The generated proto code: the two messages of the client, the server's (`none` when `decode`
-- throws, and the hello may be missing), and the serial of the issuer in a certificate.
pub record Messages : Type 0 where
  pub client_hello : Bytes → Bytes
  pub client_finish : Bytes → Bytes → Bytes
  pub server_hello : Bytes → Option (Option ServerHello)
  pub issuer_serial : Bytes → Option ℕ

pub data Error : Type 0 where
  bad_key bad_ciphertext undecodable missing_server_hello certificate_mismatch out_of_range : Error

pub data Result {ℓ} (A : Type ℓ) : Type ℓ where
  ok : A → Result A
  err : Error → Result A

abbrev pub bind {ℓ κ} : {A : Type ℓ} {B : Type κ} → Result A → (A → Result B) → Result B
bind (ok a) f = f a
bind (err e) f = err e

abbrev pub or_throw {ℓ} : {A : Type ℓ} → Error → Option A → Result A
or_throw e none = err e
or_throw e (some a) = ok a

abbrev pub sent_or_throw : Noise × Option Bytes → Result (Noise × Bytes)
sent_or_throw (s, none) = err out_of_range
sent_or_throw (s, some frame) = ok (s, frame)

module _ (c : NodeCrypto) (m : Messages) where
  abbrev pub mix_shared : Bytes → Bytes → Cipher → Result Cipher
  mix_shared private_key public_key s =
      bind (or_throw bad_key (shared_key c private_key public_key)) λ k. ok (mix_into_key c k s)

  -- The test of the certificate.
  unfoldable pub check_cert : Bytes → Result (Unit {0})
  check_cert cert =
      bind (or_throw undecodable (m.issuer_serial cert))
        λ serial. if serial == cert_serial then ok tt else err certificate_mismatch

  unfoldable pub process_handshake :
      Bytes → ServerHello → RawKeyPair → Cipher → Result (Bytes × Cipher)
  process_handshake private_key hello noise_key s =
      bind (mix_shared private_key hello.ephemeral (authenticate c hello.ephemeral s)) λ s1.
        bind (or_throw bad_ciphertext (decrypt c hello.static s1)) λ (static, s2).
          bind (mix_shared private_key static s2) λ s3.
            bind (or_throw bad_ciphertext (decrypt c hello.payload s3)) λ (cert, s4).
              bind (check_cert cert) λ _.
                let (key_enc, s5) = encrypt c noise_key.public_key s4 in
                bind (mix_shared noise_key.private_key hello.ephemeral s5) λ s6. ok (key_enc, s6)

  -- The ephemeral keys, the key of the account, the payload, the frame of the server and the
  -- variables; the two frames that are sent come with the new variables.
  unfoldable pub perform_handshake :
      Option Bytes
      → Bytes
      → RawKeyPair
      → RawKeyPair
      → Bytes
      → Bytes
      → Noise
      → Result (Noise × Bytes × Bytes)
  perform_handshake routing_info header ephemeral noise_key client_payload server_frame s =
      bind
        (sent_or_throw (encode_frame c routing_info header (m.client_hello ephemeral.public_key) s))
        λ (s1, hello_frame).
          bind (or_throw undecodable (m.server_hello (drop 3 server_frame))) λ reply.
            bind (or_throw missing_server_hello reply) λ hello.
              bind (process_handshake ephemeral.private_key hello noise_key s1.cipher)
                λ (key_enc, s2).
                  let (payload_enc, s3) = encrypt c client_payload s2 in
                  bind
                    (sent_or_throw (
                      encode_frame c routing_info header (m.client_finish key_enc payload_enc)
                        (record s1 { cipher = s3 })))
                    λ (s4, finish_frame).
                      ok (record s4 { cipher = finish_init c s4.cipher }, hello_frame, finish_frame)
