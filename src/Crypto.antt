-- ===== src/Crypto.antt =====
-- src/utils/crypto.ts over the functions of node:crypto, which are the fields of `NodeCrypto`.
pub mod Laws
pub mod Tests
use nexawhats.Common.{
  ◌>>=◌, ℕ, zero, suc, leb, ◌+◌, ◌-◌, ◌/◌, ◌%◌, ◌==◌, if◌then◌else◌, Option, none, some, List, [],
  ◌∷◌, ◌++◌, length, take, drop,
}

abbrev pub Bytes : Type 0
Bytes = List ℕ

-- `createHmac('sha256', …)`, `createHash('sha256')`, the AES-256-GCM cipher and decipher (key, iv,
-- additional data; `gcm_open` is `none` when `final` throws) and `diffieHellman`.
pub record NodeCrypto : Type 0 where
  pub hmac : Bytes → Bytes → Bytes
  pub hash : Bytes → Bytes
  pub gcm_seal : Bytes → Bytes → Bytes → Bytes → Bytes × Bytes
  pub gcm_open : Bytes → Bytes → Bytes → Bytes → Bytes → Option Bytes
  pub diffie_hellman : Bytes → Bytes → Option Bytes

abbrev pub gcm_tag_length : ℕ
gcm_tag_length = 16

abbrev pub key_bundle_type : Bytes
key_bundle_type = 5 ∷ []

-- `Math.ceil(length / 32)`
abbrev pub blocks : ℕ → ℕ
blocks len = (len + 31) / 32

-- Where `cipherBuf.length - GCM_TAG_LENGTH` cuts: a negative place counts from the end again.
abbrev pub tag_start : ℕ → ℕ
tag_start n = if leb gcm_tag_length n then n - gcm_tag_length else n + n - gcm_tag_length

abbrev x25519_spki_prefix : Bytes
x25519_spki_prefix =
    0x30 ∷ 0x2a ∷ 0x30 ∷ 0x05 ∷ 0x06 ∷ 0x03 ∷ 0x2b ∷ 0x65 ∷ 0x6e ∷ 0x03 ∷ 0x21 ∷ 0x00 ∷ []

abbrev x25519_pkcs8_prefix : Bytes
x25519_pkcs8_prefix =
    0x30 ∷ 0x2e ∷ 0x02 ∷ 0x01 ∷ 0x00 ∷ 0x30 ∷ 0x05 ∷ 0x06 ∷ 0x03 ∷ 0x2b ∷ 0x65 ∷ 0x6e ∷ 0x04 ∷ 0x22
    ∷ 0x04 ∷ 0x20 ∷ []

-- `rawToPublicKey` and `rawToPrivateKey`, to the DER text that Node gets.
unfoldable pub raw_to_public_key : Bytes → Option Bytes
raw_to_public_key raw = if length raw == 32 then some (x25519_spki_prefix ++ raw) else none

unfoldable pub raw_to_private_key : Bytes → Option Bytes
raw_to_private_key raw = if length raw == 32 then some (x25519_pkcs8_prefix ++ raw) else none

module _ (c : NodeCrypto) where
  -- The loop of `hkdf`, for the rounds left from round `i` on; a digest has 32 bytes, so that each
  -- one stands right behind the one before.
  pub expand : Bytes → Bytes → ℕ → ℕ → Bytes → Bytes
  expand prk info zero i prev = []
  expand prk info (suc n) i prev =
      let block = c.hmac prk (prev ++ (info ++ (((i + 1) % 256) ∷ []))) in
      block ++ expand prk info n (i + 1) block

  -- `hkdf`, in the form that takes the salt and the info in an object.
  unfoldable pub hkdf : Bytes → ℕ → Bytes → Bytes → Bytes
  hkdf ikm len salt info = take len (expand (c.hmac salt ikm) info (blocks len) 0 [])

  abbrev pub sha256 : Bytes → Bytes
  sha256 buffer = c.hash buffer

  unfoldable pub aes_encrypt_gcm : Bytes → Bytes → Bytes → Bytes → Bytes
  aes_encrypt_gcm plaintext key iv aad =
      let sealed = c.gcm_seal key iv aad plaintext in sealed.0 ++ sealed.1

  unfoldable pub aes_decrypt_gcm : Bytes → Bytes → Bytes → Bytes → Option Bytes
  aes_decrypt_gcm ciphertext key iv aad =
      let start = tag_start (length ciphertext) in
      c.gcm_open key iv aad (take start ciphertext) (drop start ciphertext)

  -- `Curve.sharedKey`
  unfoldable pub shared_key : Bytes → Bytes → Option Bytes
  shared_key private_key public_key =
      let pub_raw = if length public_key == 33 then drop 1 public_key else public_key in
      do
        priv ← raw_to_private_key private_key
        pub_der ← raw_to_public_key pub_raw
        c.diffie_hellman priv pub_der

unfoldable pub generate_signal_pub_key : Bytes → Bytes
generate_signal_pub_key pub_key =
    if length pub_key == 33 then pub_key else key_bundle_type ++ pub_key

-- The elements of `Uint16Array.from` are the bytes that `generateRandomBytes(2)` returns.
unfoldable pub generate_registration_id : ℕ → ℕ → ℕ
generate_registration_id first second = first % 16384
