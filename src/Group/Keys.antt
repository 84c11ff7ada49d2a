-- ===== src/Group/Keys.antt =====
-- src/signal/group/sender-chain-key.ts and sender-message-key.ts.
use nexawhats.Common.{ℕ, zero, suc, ◌+◌, [], ◌∷◌, ◌++◌, take, drop}
use nexawhats.Common.Text.{codes}
use nexawhats.Group.{Bytes, Crypto}

pub record SenderMessageKey : Type 0 where
  pub iteration : ℕ
  pub seed : Bytes
  pub iv : Bytes
  pub cipher_key : Bytes

pub record SenderChainKey : Type 0 where
  pub iteration : ℕ
  pub seed : Bytes

abbrev zeros : ℕ → Bytes
zeros zero = []
zeros (suc n) = 0 ∷ zeros n

module _ (c : Crypto) where
  -- The constructor. The chunks that `deriveSecrets` gives have 32 bytes, so that the two parts
  -- set into `keys` fill it.
  unfoldable pub sender_message_key : ℕ → Bytes → SenderMessageKey
  sender_message_key iteration seed =
      let derivative = c.derive_secrets seed (zeros 32) (codes "WhisperGroup") in
      record {
        iteration = iteration;
        seed = seed;
        iv = take 16 derivative.0;
        cipher_key = drop 16 derivative.0 ++ take 16 derivative.1;
      }

  unfoldable pub get_sender_message_key : SenderChainKey → SenderMessageKey
  get_sender_message_key k = sender_message_key k.iteration (c.calculate_mac k.seed (1 ∷ []))

  unfoldable pub get_next : SenderChainKey → SenderChainKey
  get_next k = record { iteration = k.iteration + 1; seed = c.calculate_mac k.seed (2 ∷ []) }
