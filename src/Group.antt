-- ===== src/Group.antt =====
-- src/signal/group: the sender keys of a group. Each member has a chain of keys, one for each of
-- its messages; the others get the chain's state in a distribution message and follow it.
pub mod Keys
pub mod State
pub mod Record
pub mod Message
pub mod Cipher
pub mod Builder
pub mod Cache
pub mod Invariant
pub mod Updates
pub mod Spent
pub mod Ratchet
pub mod Framing
pub mod Skipped
pub mod OutOfOrder
pub mod Session
pub mod Delivery
pub mod Joining
pub mod Tests
use nexawhats.Common.{ℕ, Bool, Option, none, some, List}

abbrev pub Bytes : Type 0
Bytes = List ℕ

-- What the proto message `SenderKeyMessage` carries; each field may be missing.
pub record Fields : Type 0 where
  pub id : Option ℕ
  pub iteration : Option ℕ
  pub ciphertext : Option Bytes

-- The functions of libsignal's `crypto.js` and `curve.js` and of the generated proto code.
-- `decode_message` is `decode`, `toJSON` and the base64 step together.
pub record Crypto : Type 0 where
  pub calculate_mac : Bytes → Bytes → Bytes
  pub derive_secrets : Bytes → Bytes → Bytes → Bytes × Bytes
  pub encrypt : Bytes → Bytes → Bytes → Option Bytes
  pub decrypt : Bytes → Bytes → Bytes → Option Bytes
  pub calculate_signature : Bytes → Bytes → Bytes
  pub verify_signature : Bytes → Bytes → Bytes → Bool
  pub encode_message : Fields → Bytes
  pub decode_message : Bytes → Option Fields

-- The errors thrown.
pub data Error : Type 0 where
  no_session old_counter too_far invalid_signature invalid_message undecodable : Error

pub data Result {ℓ} (A : Type ℓ) : Type ℓ where
  ok : A → Result A
  err : Error → Result A

abbrev pub bind {ℓ κ} : {A : Type ℓ} {B : Type κ} → Result A → (A → Result B) → Result B
bind (ok a) f = f a
bind (err e) f = err e

-- A call of a library that throws, under the error that the code makes of it.
abbrev pub or_throw {ℓ} : {A : Type ℓ} → Error → Option A → Result A
or_throw e none = err e
or_throw e (some a) = ok a
