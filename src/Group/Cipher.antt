-- ===== src/Group/Cipher.antt =====
-- src/signal/group/group-cipher.ts. `loadSenderKey` gives the record and `storeSenderKey` takes
-- it: a run takes the record and gives it back changed. When it throws, nothing is stored.
use nexawhats.Common.{ℕ, zero, suc, ◌+◌, ◌-◌, ltb, ◌==◌, if◌then◌else◌, Option, none, some}
use nexawhats.Group.{
  Bytes, Crypto, Result, ok, err, bind, or_throw, no_session, old_counter, too_far,
  invalid_signature, invalid_message, undecodable,
}
use nexawhats.Group.Keys.{SenderMessageKey, SenderChainKey, get_sender_message_key, get_next}
use nexawhats.Group.State.{
  SenderKeyState, set_sender_chain_key, get_signing_key_public, has_sender_message_key,
  add_sender_message_key, remove_sender_message_key,
}
use nexawhats.Group.Record.{SenderKeyRecord, get_sender_key_state, put_sender_key_state}
use nexawhats.Group.Message.{
  SenderKeyMessage, message_of_fields, message_of_bytes, verify_signature,
}

abbrev pub max_ahead : ℕ
max_ahead = 2000

module _ (c : Crypto) where
  -- The loop: each key that is passed over is kept. The chain stands below `iteration` by the
  -- number of rounds.
  unfoldable pub skip_to : ℕ → ℕ → SenderChainKey → SenderKeyState → SenderChainKey × SenderKeyState
  skip_to zero iteration chain s = (chain, s)
  skip_to (suc fuel) iteration chain s =
      let rest =
        skip_to fuel iteration (get_next c chain)
          (add_sender_message_key (get_sender_message_key c chain) s) in
      if ltb chain.iteration iteration then rest else (chain, s)

  -- The key of the chain, which moves on by one.
  unfoldable pub use_chain : SenderChainKey × SenderKeyState → SenderMessageKey × SenderKeyState
  use_chain (chain, s) = (get_sender_message_key c chain, set_sender_chain_key (get_next c chain) s)

  unfoldable pub cached_key : ℕ → SenderKeyState → Result (SenderMessageKey × SenderKeyState)
  cached_key iteration s =
      if has_sender_message_key iteration s.message_keys
      then or_throw old_counter (remove_sender_message_key c iteration s)
      else err old_counter

  -- `getSenderKey`. All tests fail for an iteration that is missing.
  unfoldable pub get_sender_key :
      Option ℕ → SenderKeyState → Result (SenderMessageKey × SenderKeyState)
  get_sender_key none s = ok (use_chain (s.chain, s))
  get_sender_key (some iteration) s =
      if ltb iteration s.chain.iteration
      then cached_key iteration s
      else if ltb max_ahead (iteration - s.chain.iteration)
      then err too_far
      else ok (use_chain (skip_to (iteration - s.chain.iteration) iteration s.chain s))

  -- The iteration of the next message.
  abbrev pub next_iteration : ℕ → ℕ
  next_iteration i = if i == 0 then 0 else i + 1

  unfoldable pub encrypt_with : Bytes → SenderKeyState → Result (Bytes × SenderKeyState)
  encrypt_with plaintext s =
      bind (get_sender_key (some (next_iteration s.chain.iteration)) s) λ (key, s').
        bind (or_throw invalid_message (c.encrypt key.cipher_key plaintext key.iv)) λ ciphertext.
          let m = message_of_fields c s'.key_id key.iteration ciphertext s'.signing_private in
          ok (m.serialized, s')

  unfoldable pub encrypt : Bytes → SenderKeyRecord → Result (Bytes × SenderKeyRecord)
  encrypt plaintext states = bind (or_throw no_session (get_sender_key_state none states)) λ s.
      bind (encrypt_with plaintext s) λ (out, s'). ok (out, put_sender_key_state none s' states)

  -- `decrypt` of libsignal throws where there is no ciphertext.
  abbrev pub plain_text : SenderMessageKey → Option Bytes → Option Bytes
  plain_text key none = none
  plain_text key (some ciphertext) = c.decrypt key.cipher_key ciphertext key.iv

  unfoldable pub decrypt_with : SenderKeyMessage → SenderKeyState → Result (Bytes × SenderKeyState)
  decrypt_with m s =
      if verify_signature c (get_signing_key_public s) m
      then (bind (get_sender_key m.fields.iteration s) λ (key, s').
          bind (or_throw invalid_message (plain_text key m.fields.ciphertext))
            λ plaintext. ok (plaintext, s'))
      else err invalid_signature

  unfoldable pub decrypt : Bytes → SenderKeyRecord → Result (Bytes × SenderKeyRecord)
  decrypt bytes states = bind (or_throw undecodable (message_of_bytes c bytes)) λ m.
      bind (or_throw no_session (get_sender_key_state m.fields.id states)) λ s.
        bind (decrypt_with m s)
          λ (plaintext, s'). ok (plaintext, put_sender_key_state m.fields.id s' states)
