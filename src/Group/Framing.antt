-- ===== src/Group/Framing.antt =====
-- A message built from its fields is read back from its bytes, and its signature verifies.
use nexawhats.Common.{
  ℕ, ◌+◌, ◌-◌, ◌^◌, ◌<◌, ◌≡◌, refl, ap, ◌∙◌, arith, true, some, ◌∷◌, ◌++◌, length, length-append,
  take, drop, take-append, drop-append,
}
use nexawhats.Group.{Bytes, Crypto}
use nexawhats.Group.Message.{
  SenderKeyMessage, fields_of, message_of_fields, message_of_bytes, verify_signature, body_end,
  signature_part,
}

-- What the code relies on: the cipher opens what it closed under keys of the right sizes, the
-- secrets come in chunks of 32 bytes, a signature has 64, and proto messages are read back.
pub record IsSound (c : Crypto) : Type 0 where
  pub encrypts :
      (key plaintext iv : Bytes)
      → length key ≡ 32
      → length iv ≡ 16
      → (out : Bytes) × (c.encrypt key plaintext iv ≡ some out)
        × (c.decrypt key out iv ≡ some plaintext)
  pub first_chunk : (seed salt info : Bytes) → length (c.derive_secrets seed salt info).0 ≡ 32
  pub second_chunk : (seed salt info : Bytes) → length (c.derive_secrets seed salt info).1 ≡ 32
  pub signature_size : (key message : Bytes) → length (c.calculate_signature key message) ≡ 64
  pub decodes :
      (id iteration : ℕ) (ciphertext : Bytes)
      → id < 2 ^ 32
      → iteration < 2 ^ 32
      → c.decode_message (c.encode_message (fields_of id iteration ciphertext))
        ≡ some (fields_of id iteration ciphertext)

-- The two halves of a signing key.
abbrev pub IsKeyPair : Crypto → Bytes → Bytes → Type 0
IsKeyPair c public private =
    (message : Bytes)
    → c.verify_signature public message (c.calculate_signature private message) ≡ true

module _ (c : Crypto) (h : IsSound c) (id iteration : ℕ) (ciphertext private : Bytes) where
  abbrev sent : SenderKeyMessage
  sent = message_of_fields c id iteration ciphertext private

  abbrev payload : Bytes
  payload = 51 ∷ c.encode_message (fields_of id iteration ciphertext)

  abbrev signature : Bytes
  signature = c.calculate_signature private payload

  size : length (payload ++ signature) ≡ length payload + 64
  size =
      length-append payload signature
      ∙ ap (λ n. length payload + n) (h.signature_size private payload)

  body_end_size : (n k : ℕ) → n ≡ k + 64 → body_end n ≡ k
  body_end_size n k e = ground arith

  signature_part_sent : signature_part (payload ++ signature) ≡ signature
  signature_part_sent =
      ap (λ n. drop n (payload ++ signature))
        (less (length (payload ++ signature)) (length payload) size)
      ∙ drop-append payload signature
    where
      less : (n k : ℕ) → n ≡ k + 64 → n - 64 ≡ k
      less n k e = omega arith

  -- What the receiver makes of it.
  abbrev pub received : SenderKeyMessage
  received = record {
    serialized = payload ++ signature;
    message_version = 3;
    fields = fields_of id iteration ciphertext;
    signature = signature_part (payload ++ signature);
  }

  pub message_of_bytes-message_of_fields :
      id < 2 ^ 32
      → iteration < 2 ^ 32
      → message_of_bytes c (message_of_fields c id iteration ciphertext private).serialized
        ≡ some received
  unfolding message_of_bytes message_of_fields
  message_of_bytes-message_of_fields small few =
      rw (body ∙ h.decodes id iteration ciphertext small few, message_of_bytes) refl
    where
      one_less :
          (n : ℕ)
          → n ≡ length payload
          → n - 1 ≡ length (c.encode_message (fields_of id iteration ciphertext))
      one_less n e = omega arith

      body :
          c.decode_message
            (take (body_end (length (payload ++ signature)) - 1) (drop 1 (payload ++ signature)))
          ≡ c.decode_message (c.encode_message (fields_of id iteration ciphertext))
      body =
          ap
            (λ n.
              c.decode_message
                (take n (c.encode_message (fields_of id iteration ciphertext) ++ signature)))
            (one_less (body_end (length (payload ++ signature))) (body_end_size _ _ size))
          ∙ ap c.decode_message
              (take-append (c.encode_message (fields_of id iteration ciphertext)) signature)

  pub verify_signature-received :
      (public : Bytes) → IsKeyPair c public private → verify_signature c public received ≡ true
  unfolding verify_signature
  verify_signature-received public pair =
      ap
        (λ n.
          c.verify_signature public (take n (payload ++ signature))
            (signature_part (payload ++ signature)))
        (body_end_size _ _ size)
      ∙ ap (λ p. c.verify_signature public p (signature_part (payload ++ signature)))
          (take-append payload signature)
      ∙ ap (λ t. c.verify_signature public payload t) signature_part_sent
      ∙ pair payload
