-- ===== src/Group/Message.antt =====
-- src/signal/group/sender-key-message.ts: a version byte, the proto message and its signature.
use nexawhats.Common.{
  ℕ, ◌-◌, ◌*◌, ◌/◌, ◌%◌, leb, if◌then◌else◌, Bool, Option, none, some, [], ◌∷◌, ◌++◌, length, take,
  drop,
}
use nexawhats.Group.{Bytes, Fields, Crypto}

pub record SenderKeyMessage : Type 0 where
  pub serialized : Bytes
  pub message_version : ℕ
  pub fields : Fields
  pub signature : Bytes

abbrev pub current_version : ℕ
current_version = 3

abbrev pub signature_length : ℕ
signature_length = 64

-- `(CURRENT_VERSION << 4) | CURRENT_VERSION`
abbrev pub version_byte : ℕ
version_byte = 51

-- `slice(start, length - SIGNATURE_LENGTH)`: a negative end counts from the end once more.
abbrev pub body_end : ℕ → ℕ
body_end n = if leb signature_length n then n - signature_length else 2 * n - signature_length

-- `slice(-SIGNATURE_LENGTH)`
abbrev pub signature_part : Bytes → Bytes
signature_part serialized = drop (length serialized - signature_length) serialized

abbrev version_of : Bytes → ℕ
version_of [] = 0
version_of (b ∷ bs) = b % 256 / 16

abbrev pub fields_of : ℕ → ℕ → Bytes → Fields
fields_of key_id iteration ciphertext = record {
  id = some key_id;
  iteration = some iteration;
  ciphertext = some ciphertext;
}

module _ (c : Crypto) where
  -- The constructor from the fields.
  unfoldable pub message_of_fields : ℕ → ℕ → Bytes → Bytes → SenderKeyMessage
  message_of_fields key_id iteration ciphertext signature_key =
      let fields = fields_of key_id iteration ciphertext in
      let payload = version_byte ∷ c.encode_message fields in
      let signature = c.calculate_signature signature_key payload in
      record {
        serialized = payload ++ signature;
        message_version = current_version;
        fields = fields;
        signature = signature;
      }

  -- The constructor from the bytes.
  unfoldable pub message_of_bytes : Bytes → Option SenderKeyMessage
  message_of_bytes serialized =
      elim (c.decode_message (take (body_end (length serialized) - 1) (drop 1 serialized))) [
        | none ↦ none
        | some fields ↦ some (record {
          serialized = serialized;
          message_version = version_of serialized;
          fields = fields;
          signature = signature_part serialized;
        })
      ]

  unfoldable pub verify_signature : Bytes → SenderKeyMessage → Bool
  verify_signature signature_key m =
      c.verify_signature signature_key (take (body_end (length m.serialized)) m.serialized)
        (signature_part m.serialized)
