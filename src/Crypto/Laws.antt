-- ===== src/Crypto/Laws.antt =====
-- Ciphers that undo each other, and the length of what HKDF gives.
use nexawhats.Common.{
  ℕ, zero, suc, leb, min, ◌+◌, ◌-◌, ◌*◌, ◌%◌, ◌^◌, ◌<◌, ◌≡◌, refl, sym, subst, arith, if◌then◌else◌,
  some, [], ◌∷◌, ◌++◌, length, length-append, take, drop, take-append, drop-append, length-drop,
}
use nexawhats.Crypto.{
  Bytes, NodeCrypto, blocks, expand, hkdf, aes_encrypt_gcm, tag_start, aes_decrypt_gcm,
  generate_registration_id,
}

-- What is documented of Node's functions: a digest of SHA-256 has 32 bytes, a tag has 16, what the
-- cipher gives is as long as what it takes, and the decipher gives back what the cipher took, under the same key, IV and additional data.
pub record IsSound (c : NodeCrypto) : Type 0 where
  pub digest : (key data' : Bytes) → length (c.hmac key data') ≡ 32
  pub tag : (key iv aad text : Bytes) → length (c.gcm_seal key iv aad text).1 ≡ 16
  pub size : (key iv aad text : Bytes) → length (c.gcm_seal key iv aad text).0 ≡ length text
  pub opened :
      (key iv aad text : Bytes)
      → c.gcm_open key iv aad (c.gcm_seal key iv aad text).0 (c.gcm_seal key iv aad text).1
        ≡ some text

module _ (c : NodeCrypto) where
  length-expand :
      IsSound c
      → (prk info : Bytes) (n i : ℕ) (prev : Bytes) → length (expand c prk info n i prev) ≡ n * 32
  unfolding expand
  length-expand s prk info zero i prev = refl
  length-expand s prk info (suc n) i prev =
      let block = c.hmac prk (prev ++ (info ++ (((i + 1) % 256) ∷ []))) in
      omega (
        arith,
        length-append block (expand c prk info n (i + 1) block),
        s.digest prk (prev ++ (info ++ (((i + 1) % 256) ∷ []))),
        length-expand s prk info n (i + 1) block,
      )

  length-take : (n : ℕ) (xs : Bytes) → length (take n xs) ≡ min n (length xs)
  length-take zero xs = omega arith
  length-take (suc n) [] = omega arith
  length-take (suc n) (x ∷ xs) = omega (arith, length-take n xs)

  length-hkdf :
      (ikm salt info : Bytes) (len : ℕ) → IsSound c → length (hkdf c ikm len salt info) ≡ len
  unfolding hkdf
  length-hkdf ikm salt info len s = omega (
    arith,
    length-take len (expand c (c.hmac salt ikm) info (blocks len) 0 []),
    length-expand s (c.hmac salt ikm) info (blocks len) 0 [],
  )

  pub length-aes_encrypt_gcm :
      (text key iv aad : Bytes)
      → IsSound c
      → length (aes_encrypt_gcm c text key iv aad) ≡ length text + 16
  unfolding aes_encrypt_gcm
  length-aes_encrypt_gcm text key iv aad s =
      let sealed = c.gcm_seal key iv aad text in
      omega (arith, length-append sealed.0 sealed.1, s.tag key iv aad text, s.size key iv aad text)

  -- What is encrypted with AES-256-GCM decrypts to itself under the same key, IV and data.
  pub aes_decrypt_gcm-aes_encrypt_gcm :
      (text key iv aad : Bytes)
      → IsSound c
      → aes_decrypt_gcm c (aes_encrypt_gcm c text key iv aad) key iv aad ≡ some text
  unfolding aes_decrypt_gcm aes_encrypt_gcm
  aes_decrypt_gcm-aes_encrypt_gcm text key iv aad s =
      subst (λ n. c.gcm_open key iv aad (take n (enc ++ tag)) (drop n (enc ++ tag)) ≡ some text)
        (sym at_tag) (rw (take-append enc tag, drop-append enc tag) (s.opened key iv aad text))
    where
      enc : Bytes
      enc = (c.gcm_seal key iv aad text).0

      tag : Bytes
      tag = (c.gcm_seal key iv aad text).1

      at_tag : tag_start (length (enc ++ tag)) ≡ length enc
      at_tag = ground (arith, length-append enc tag, s.tag key iv aad text)

-- The tag that the decipher gets has 16 bytes for a text of 16 bytes or more. For a shorter text
-- of `n` bytes it has `n` or `16 - n` bytes, whichever is less.
length-tag :
    (ciphertext : Bytes)
    → let n = length ciphertext in
      length (drop (tag_start n) ciphertext) ≡ (if leb 16 n then 16 else min n (16 - n))
length-tag ciphertext = ground (arith, length-drop (tag_start (length ciphertext)) ciphertext)

-- A registration id made of two random bytes is less than 256.
generate_registration_id-lt :
    (first second : ℕ)
    → first < 2 ^ 8
    → second < 2 ^ 8
    → generate_registration_id first second < 2 ^ 8
unfolding generate_registration_id
generate_registration_id-lt first second h k = omega arith
