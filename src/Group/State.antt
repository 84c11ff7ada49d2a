-- ===== src/Group/State.antt =====
-- src/signal/group/sender-key-state.ts: one version of a member's keys.
use nexawhats.Common.{
  ℕ, ◌==◌, ltb, if◌then◌else◌, Bool, Option, none, some, List, [], ◌∷◌, ◌++◌, length, any, drop,
}
use nexawhats.Group.{Bytes, Crypto}
use nexawhats.Group.Keys.{SenderMessageKey, SenderChainKey, sender_message_key}

-- An entry of `senderMessageKeys`.
pub record CachedKey : Type 0 where
  pub iteration : ℕ
  pub seed : Bytes

pub record SenderKeyState : Type 0 where
  pub key_id : ℕ
  pub chain : SenderChainKey
  pub signing_public : Bytes
  pub signing_private : Bytes
  pub message_keys : List CachedKey

abbrev pub max_message_keys : ℕ
max_message_keys = 2000

unfoldable pub set_sender_chain_key : SenderChainKey → SenderKeyState → SenderKeyState
set_sender_chain_key chain s = record {
  key_id = s.key_id;
  chain = chain;
  signing_public = s.signing_public;
  signing_private = s.signing_private;
  message_keys = s.message_keys;
}

abbrev pub with_keys : List CachedKey → SenderKeyState → SenderKeyState
with_keys keys s = record {
  key_id = s.key_id;
  chain = s.chain;
  signing_public = s.signing_public;
  signing_private = s.signing_private;
  message_keys = keys;
}

-- 32 bytes get the type byte of the curve in front.
unfoldable pub get_signing_key_public : SenderKeyState → Bytes
get_signing_key_public s =
    if length s.signing_public == 32 then 5 ∷ s.signing_public else s.signing_public

unfoldable pub has_sender_message_key : ℕ → List CachedKey → Bool
has_sender_message_key iteration keys = any (λ k. k.iteration == iteration) keys

-- `push`, and `shift` when there are more than the cap.
unfoldable pub push_bounded {ℓ} : {A : Type ℓ} → ℕ → A → List A → List A
push_bounded cap x xs =
    let longer = xs ++ (x ∷ []) in if ltb cap (length longer) then drop 1 longer else longer

unfoldable pub add_sender_message_key : SenderMessageKey → SenderKeyState → SenderKeyState
add_sender_message_key k s =
    with_keys
      (push_bounded max_message_keys (record { iteration = k.iteration; seed = k.seed })
        s.message_keys)
      s

-- The first entry of an iteration, and the entries without it.
unfoldable pub take_key : ℕ → List CachedKey → Option (CachedKey × List CachedKey)
take_key iteration [] = none
take_key iteration (k ∷ ks) =
    let later = take_key iteration ks in
    if k.iteration == iteration
    then some (k, ks)
    else elim later [ none ↦ none | some (found, rest) ↦ some (found, k ∷ rest) ]

module _ (c : Crypto) where
  unfoldable pub remove_sender_message_key :
      ℕ → SenderKeyState → Option (SenderMessageKey × SenderKeyState)
  remove_sender_message_key iteration s = elim (take_key iteration s.message_keys) [
    | none ↦ none
    | some (k, rest) ↦ some (sender_message_key c k.iteration k.seed, with_keys rest s)
  ]
