-- ===== src/Group/Tests.antt =====
-- Runs of the group cipher with a small stand-in for the libraries.
use nexawhats.Common.{
  if◌then◌else◌, ℕ, zero, suc, ◌≡◌, refl, arith, Option, none, some, [], ◌∷◌, ◌++◌, length, drop,
  drop-append, ap, All,
}
use nexawhats.Common.Text.{str_eq, str_eq_refl}
use nexawhats.Group.{Bytes, Crypto, Fields, ok, err, old_counter, invalid_signature}
use nexawhats.Group.Keys.{sender_message_key, get_sender_message_key, get_next}
use nexawhats.Group.State.{
  with_keys, remove_sender_message_key, take_key, set_sender_chain_key, SenderKeyState,
  get_signing_key_public, has_sender_message_key,
}
use nexawhats.Group.Record.{last, fresh_state, find}
use nexawhats.Group.Message.{verify_signature, SenderKeyMessage, fields_of, message_of_bytes}
use nexawhats.Group.Cipher.{cached_key, decrypt_with, skip_to, use_chain, get_sender_key}
use nexawhats.Group.Builder.{Generated, create, process, distribution_of}
use nexawhats.Group.Framing.{IsSound, IsKeyPair}
use nexawhats.Group.Invariant.{IsState}
use nexawhats.Group.Spent.{after, decrypt_with-after}
use nexawhats.Group.Ratchet.{advance, Forward, get_sender_key-Forward}
use nexawhats.Group.OutOfOrder.{get_sender_key-skipped}
use nexawhats.Group.Delivery.{FollowsIn, Delivered, decrypt-encrypt}
use nexawhats.Group.Joining.{created, process-create}

abbrev repeat : ℕ → ℕ → Bytes
repeat zero b = []
repeat (suc n) b = b ∷ repeat n b

-- A message is its fields written out: the id, the counter, the text.
abbrev number : Option ℕ → ℕ
number none = 0
number (some n) = n

abbrev text : Option Bytes → Bytes
text none = []
text (some bs) = bs

abbrev parse : Bytes → Option Fields
parse (i ∷ n ∷ bs) = some (fields_of i n bs)
parse _ = none

abbrev simple : Crypto
simple = record {
  calculate_mac = λ key message. message ++ key;
  derive_secrets = λ seed salt info. (repeat 32 (length seed), repeat 32 7);
  encrypt = λ key plaintext iv. some (iv ++ plaintext);
  decrypt = λ key ciphertext iv. some (drop 16 ciphertext);
  calculate_signature = λ key message. repeat 64 (length message);
  verify_signature = λ key message signature. str_eq signature (repeat 64 (length message));
  encode_message = λ f. number f.id ∷ number f.iteration ∷ text f.ciphertext;
  decode_message = parse;
}

drop_sixteen : (iv bs : Bytes) → length iv ≡ 16 → drop 16 (iv ++ bs) ≡ bs
drop_sixteen iv bs h = rw⁻¹ h (drop-append iv bs)

simple-IsSound : IsSound simple
simple-IsSound = record {
  encrypts = λ key plaintext iv k v. (iv ++ plaintext, refl, ap some (drop_sixteen iv plaintext v));
  first_chunk = λ seed salt info. refl;
  second_chunk = λ seed salt info. refl;
  signature_size = λ key message. refl;
  decodes = λ id iteration ciphertext small few. refl;
}

any_pair : (public private : Bytes) → IsKeyPair simple public private
any_pair public private message = str_eq_refl (repeat 64 (length message))

abbrev alice : Generated
alice = record { key_id = 7; sender_key = 1 ∷ 2 ∷ []; public = repeat 32 9; private = repeat 32 4 }

none_known : find 7 [] ≡ none
unfolding find
none_known = refl

process-create_example :
    (create alice [] ≡ ok (distribution_of (created alice), created alice ∷ []))
    × FollowsIn simple 0 (process (distribution_of (created alice)) []) (created alice ∷ [])
process-create_example =
    process-create simple alice [] none_known (omega arith)
      (any_pair (5 ∷ repeat 32 9) (repeat 32 4))

-- A chain at 5, with the keys of 1 and 3 kept.
abbrev ahead : SenderKeyState
ahead = record {
  key_id = 7;
  chain = record { iteration = 5; seed = 1 ∷ [] };
  signing_public = [];
  signing_private = [];
  message_keys =
      record { iteration = 1; seed = 8 ∷ [] } ∷ record { iteration = 3; seed = 9 ∷ [] } ∷ [];
}

ahead-IsState : IsState ahead
ahead-IsState = record {
  ascending = (omega arith, (omega arith, omega arith));
  bounded = omega arith;
}

get_sender_key-Forward_example : Forward simple ahead 8 3
get_sender_key-Forward_example =
    get_sender_key-Forward simple ahead 8 3 ahead-IsState (omega arith) (omega arith)

-- What is left when the key of 3 is taken.
abbrev without_3 : SenderKeyState
without_3 = with_keys (record { iteration = 1; seed = 8 ∷ [] } ∷ []) ahead

take_3 : get_sender_key simple (some 3) ahead ≡ ok (sender_message_key simple 3 (9 ∷ []), without_3)
unfolding get_sender_key cached_key has_sender_message_key remove_sender_message_key take_key
take_3 = refl

abbrev bob : SenderKeyState
bob = fresh_state 7 0 (1 ∷ 2 ∷ []) (repeat 32 9) []

bob-IsState : All IsState (bob ∷ [])
bob-IsState = (record { ascending = omega arith; bounded = omega arith }, tt)

abbrev bob_after : SenderKeyState
bob_after = record {
  key_id = 7;
  chain = record { iteration = 1; seed = 2 ∷ 1 ∷ 2 ∷ [] };
  signing_public = repeat 32 9;
  signing_private = [];
  message_keys = [];
}

-- The first message of the chain, which says `Hi`.
abbrev closed : Bytes
closed = repeat 16 3 ++ (72 ∷ 105 ∷ [])

abbrev hello : Bytes
hello = 51 ∷ 7 ∷ 0 ∷ (closed ++ repeat 64 21)

abbrev hello_message : SenderKeyMessage
hello_message = record {
  serialized = hello;
  message_version = 3;
  fields = fields_of 7 0 closed;
  signature = repeat 64 21;
}

hello_parsed : message_of_bytes simple hello ≡ some hello_message
unfolding message_of_bytes
hello_parsed = refl

hello_opened : decrypt_with simple hello_message bob ≡ ok (72 ∷ 105 ∷ [], bob_after)
unfolding decrypt_with verify_signature get_sender_key skip_to use_chain get_sender_message_key
    sender_message_key get_next set_sender_chain_key str_eq
hello_opened = refl

-- A later message of the chain, and one with the counter of the first and another text.
abbrev sixth : SenderKeyMessage
sixth = record hello_message { fields = fields_of 7 5 closed }

abbrev forged : SenderKeyMessage
forged = record hello_message { fields = fields_of 7 0 (repeat 16 3) }

decrypt_with-after_example :
    decrypt_with simple forged (after simple (sixth ∷ hello_message ∷ []) bob_after) ≡ (
      if verify_signature simple (get_signing_key_public bob) forged
      then err old_counter
      else err invalid_signature)
decrypt_with-after_example =
    decrypt_with-after simple hello_message 0 bob refl bob-IsState.0 (72 ∷ 105 ∷ []) bob_after
      (sixth ∷ hello_message ∷ []) forged hello_opened refl

alice_latest : last (created alice ∷ []) ≡ some (created alice)
unfolding last
alice_latest = refl

bob_known : find 7 (bob ∷ []) ≡ some bob
unfolding find
bob_known = refl

bob_chain : advance simple 0 bob.chain ≡ (created alice).chain
unfolding advance
bob_chain = refl

abbrev bob_follows : FollowsIn simple 0 (bob ∷ []) (created alice ∷ [])
bob_follows = record {
  r = bob;
  s = created alice;
  latest = alice_latest;
  known = bob_known;
  follows = record {
    receiver = record { ascending = omega arith; bounded = omega arith };
    sender = record { ascending = omega arith; bounded = omega arith };
    same_id = refl;
    chain = bob_chain;
    pair = any_pair (get_signing_key_public bob) (repeat 32 4);
  };
  small_id = omega arith;
}

decrypt-encrypt_example :
    Delivered simple simple-IsSound (72 ∷ 105 ∷ []) 0 (bob ∷ []) (created alice ∷ [])
decrypt-encrypt_example =
    decrypt-encrypt simple simple-IsSound (72 ∷ 105 ∷ []) 0 (bob ∷ []) (created alice ∷ [])
      bob_follows (omega arith) (omega arith)

abbrev forward : Forward simple ahead 8 3
forward = get_sender_key-Forward simple ahead 8 3 ahead-IsState (omega arith) (omega arith)

get_sender_key-skipped_example :
    (s'' : SenderKeyState) × (get_sender_key simple (some 6) forward.after
      ≡ ok (get_sender_message_key simple (advance simple 1 ahead.chain), s''))
get_sender_key-skipped_example =
    get_sender_key-skipped simple ahead forward.after
      (get_sender_message_key simple (advance simple 3 ahead.chain)) 8 6 ahead-IsState (omega arith)
      (omega arith) (omega arith) forward.given
