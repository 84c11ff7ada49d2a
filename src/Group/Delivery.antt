-- ===== src/Group/Delivery.antt =====
-- Messages of a group from one record to another, received or lost on the way.
use nexawhats.Common.{
  ℕ, zero, suc, ◌+◌, ◌^◌, ◌≤◌, ◌<◌, ◌≡◌, refl, sym, ap, subst, ◌∙◌, arith, Option, some,
}
use nexawhats.Group.{Bytes, Crypto, Result, ok, bind, or_throw, no_session}
use nexawhats.Group.State.{SenderKeyState, get_signing_key_public}
use nexawhats.Group.Record.{
  SenderKeyRecord, get_sender_key_state, put_sender_key_state, find, last, put_found, put_last,
}
use nexawhats.Group.Message.{SenderKeyMessage, message_of_bytes}
use nexawhats.Group.Cipher.{encrypt_with, encrypt, decrypt_with, decrypt, next_iteration, max_ahead}
use nexawhats.Group.Ratchet.{advance, advance_add}
use nexawhats.Group.Framing.{IsSound, IsKeyPair, message_of_bytes-message_of_fields}
use nexawhats.Group.Updates.{find-put_found, last-put_last}
use nexawhats.Group.Session.{Follows, encrypt_with-Sent, decrypt_with-received}

-- The latest state of the sender's record is followed by a state of the receiver's, `d` steps
-- behind.
pub record FollowsIn (c : Crypto) (d : ℕ) (peer states : SenderKeyRecord) : Type 0 where
  pub r : SenderKeyState
  pub s : SenderKeyState
  pub latest : last states ≡ some s
  pub known : find s.key_id peer ≡ some r
  pub follows : Follows c d r s
  pub small_id : s.key_id < 2 ^ 32

-- The counter of the sender's chain, which proto carries in 32 bits.
abbrev pub counter :
    {c : Crypto} {d : ℕ} {peer states : SenderKeyRecord} → FollowsIn c d peer states → ℕ
counter f = f.s.chain.iteration

module _ (c : Crypto) (sound : IsSound c) where
  -- The step of the counter.
  step_of : (i : ℕ) → (k : ℕ) × (next_iteration c i ≡ i + k) × (k ≤ 1)
  step_of zero = (0, refl, omega arith)
  step_of (suc i) = (1, ground arith, omega arith)

  encrypt_of :
      (plaintext bytes : Bytes) (states : SenderKeyRecord) (s s' : SenderKeyState)
      → last states ≡ some s
      → encrypt_with c plaintext s ≡ ok (bytes, s')
      → encrypt c plaintext states ≡ ok (bytes, put_last s' states)
  unfolding encrypt get_sender_key_state put_sender_key_state
  encrypt_of plaintext bytes states s s' latest e = rw (latest, e) refl

  decrypt_of :
      (bytes plaintext : Bytes) (peer : SenderKeyRecord) (m : SenderKeyMessage) (id : ℕ)
      (r r' : SenderKeyState)
      → message_of_bytes c bytes ≡ some m
      → m.fields.id ≡ some id
      → find id peer ≡ some r
      → decrypt_with c m r ≡ ok (plaintext, r')
      → decrypt c bytes peer ≡ ok (plaintext, put_found id r' peer)
  unfolding decrypt get_sender_key_state put_sender_key_state
  decrypt_of bytes plaintext peer m id r r' parsed at known opened =
      rw (parsed) (rest m.fields.id at)
    where
      rest :
          (o : Option ℕ)
          → o ≡ some id
          → Path
              (Result (Bytes × SenderKeyRecord))
              (bind
                (or_throw no_session (get_sender_key_state o peer))
                λ s. bind (decrypt_with c m s) λ (p, s'). ok (p, put_sender_key_state o s' peer))
              (ok (plaintext, put_found id r' peer))
      rest o e = rw (e, known, opened) refl

  -- What a message does to a sender and a receiver: it is encrypted, and then decrypted or lost.
  pub record Delivered (plaintext : Bytes) (d : ℕ) (peer states : SenderKeyRecord) : Type 0 where
    pub bytes : Bytes
    pub states' : SenderKeyRecord
    pub peer' : SenderKeyRecord
    pub behind : ℕ
    pub encrypted : encrypt c plaintext states ≡ ok (bytes, states')
    pub decrypted : decrypt c bytes peer ≡ ok (plaintext, peer')
    pub in_step : FollowsIn c 0 peer' states'
    pub lost : FollowsIn c behind peer states'
    pub not_far : behind ≤ d + 2

  -- The latest state of a member encrypts any text, a receiver that is less than 2000 steps behind
  -- decrypts the message to the same text and has then caught up, and one that does not get the
  -- message falls behind by at most two steps. The counter and the id fit in 32 bits, and the
  -- libraries behave as documented.
  pub decrypt-encrypt :
      (plaintext : Bytes) (d : ℕ) (peer states : SenderKeyRecord)
      → (f : FollowsIn c d peer states) → d < max_ahead
      → counter f + 1 < 2 ^ 32
      → Delivered plaintext d peer states
  decrypt-encrypt plaintext d peer states f near few =
      let (k, next, one) = step_of f.s.chain.iteration in
      let sent = encrypt_with-Sent c sound plaintext f.s k f.follows.sender next one in
      let (r', opened, same, follows) =
        decrypt_with-received c sound plaintext f.r f.s d k f.follows (omega arith) sent in
      record {
        bytes = _;
        states' = put_last sent.after states;
        peer' = put_found f.s.key_id r' peer;
        behind = d + (k + 1);
        encrypted = encrypt_of plaintext _ states f.s sent.after f.latest sent.written;
        decrypted =
            decrypt_of _ plaintext peer _ f.s.key_id f.r r'
              (message_of_bytes-message_of_fields c sound f.s.key_id (f.s.chain.iteration + k)
                sent.ciphertext f.s.signing_private f.small_id (omega arith))
              refl f.known opened;
        in_step = record {
          r = r';
          s = sent.after;
          latest = last-put_last states f.s sent.after f.latest;
          known =
              ap (λ i. find i (put_found f.s.key_id r' peer)) sent.used.same_id
              ∙ find-put_found f.s.key_id peer f.r r' f.known same;
          follows = follows;
          small_id = omega (arith, sent.used.same_id, f.small_id);
        };
        lost = record {
          r = f.r;
          s = sent.after;
          latest = last-put_last states f.s sent.after f.latest;
          known = ap (λ i. find i peer) sent.used.same_id ∙ f.known;
          follows = record {
            receiver = f.follows.receiver;
            sender = sent.used.is_state;
            same_id = f.follows.same_id ∙ sym sent.used.same_id;
            chain =
                advance_add c d (k + 1) f.r.chain
                ∙ ap (advance c (k + 1)) f.follows.chain
                ∙ sym sent.chain;
            pair =
                subst (λ p. IsKeyPair c (get_signing_key_public f.r) p) (sym sent.used.same_private)
                  f.follows.pair;
          };
          small_id = omega (arith, sent.used.same_id, f.small_id);
        };
        not_far = omega arith;
      }
