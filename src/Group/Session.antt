-- ===== src/Group/Session.antt =====
-- The two ends of a group: what a member encrypts, those who follow its chain decrypt.
use nexawhats.Common.{
  ℕ, zero, suc, ◌+◌, ◌≤◌, ◌≡◌, refl, sym, ap, subst, ◌∙◌, arith, true, some, List, [], ◌∷◌, ◌++◌,
  length, length-append, length-drop, take, drop,
}
use nexawhats.Group.{Bytes, Crypto, Result, ok}
use nexawhats.Group.Keys.{SenderMessageKey, sender_message_key, get_sender_message_key}
use nexawhats.Group.State.{SenderKeyState, get_signing_key_public}
use nexawhats.Group.Message.{message_of_fields, verify_signature}
use nexawhats.Group.Cipher.{
  get_sender_key, encrypt_with, decrypt_with, plain_text, next_iteration, max_ahead,
}
use nexawhats.Group.Invariant.{IsState, Used}
use nexawhats.Group.Ratchet.{advance, iteration-advance, advance_add, get_sender_key-Forward}
use nexawhats.Group.Framing.{IsSound, IsKeyPair, received, verify_signature-received}
use nexawhats.Group.Invariant.{same_signing_key}

length-take {ℓ} : {A : Type ℓ} (n : ℕ) (xs : List A) → n ≤ length xs → length (take n xs) ≡ n
length-take zero xs h = refl
length-take (suc n) [] h = absurd (omega arith)
length-take (suc n) (x ∷ xs) h = omega (arith, length-take n xs (omega arith))

joined_size : (a b : Bytes) → length a ≡ 32 → length b ≡ 32 → length (drop 16 a ++ take 16 b) ≡ 32
joined_size a b h k =
    let rest = length-drop 16 a in
    let part = length-take 16 b (omega arith) in
    omega (arith, length-append (drop 16 a) (take 16 b))

-- The state `r` of a receiver follows the sender's state `s`, `d` steps behind.
pub record Follows (c : Crypto) (d : ℕ) (r s : SenderKeyState) : Type 0 where
  pub receiver : IsState r
  pub sender : IsState s
  pub same_id : r.key_id ≡ s.key_id
  pub chain : advance c d r.chain ≡ s.chain
  pub pair : IsKeyPair c (get_signing_key_public r) s.signing_private

module _ (c : Crypto) (sound : IsSound c) where
  iv_size : (i : ℕ) (seed : Bytes) → length (sender_message_key c i seed).iv ≡ 16
  unfolding sender_message_key
  iv_size i seed = length-take 16 _ (omega (arith, sound.first_chunk seed _ _))

  cipher_key_size : (i : ℕ) (seed : Bytes) → length (sender_message_key c i seed).cipher_key ≡ 32
  unfolding sender_message_key
  cipher_key_size i seed =
      joined_size _ _ (sound.first_chunk seed _ _) (sound.second_chunk seed _ _)

  -- What `encrypt_with` does to a state: the key `k` steps on closes the text.
  pub record Sent (plaintext : Bytes) (s : SenderKeyState) (k : ℕ) : Type 0 where
    pub ciphertext : Bytes
    pub after : SenderKeyState
    pub written :
        encrypt_with c plaintext s
        ≡ ok (
          (message_of_fields c s.key_id
              (s.chain.iteration + k)
              ciphertext
              s.signing_private).serialized,
          after,
        )
    pub opens :
        plain_text c (get_sender_message_key c (advance c k s.chain)) (some ciphertext)
        ≡ some plaintext
    pub chain : after.chain ≡ advance c (k + 1) s.chain
    pub used : Used s (s.chain.iteration + k) after

  serialized_same :
      {id id' n n' : ℕ} {p p' : Bytes} (out : Bytes) (t : SenderKeyState)
      → id ≡ id'
      → n ≡ n'
      → p ≡ p'
      → Path
          (Result (Bytes × SenderKeyState))
          (ok ((message_of_fields c id n out p).serialized, t))
          (ok ((message_of_fields c id' n' out p').serialized, t))
  serialized_same out t e f g = rw (e, f, g) refl

  written_of :
      (plaintext : Bytes) (s : SenderKeyState) (n : ℕ) (key : SenderMessageKey) (t : SenderKeyState)
      (out : Bytes)
      → next_iteration c s.chain.iteration ≡ n
      → get_sender_key c (some n) s ≡ ok (key, t)
      → c.encrypt key.cipher_key plaintext key.iv ≡ some out
      → encrypt_with c plaintext s
        ≡ ok ((message_of_fields c t.key_id key.iteration out t.signing_private).serialized, t)
  unfolding encrypt_with
  written_of plaintext s n key t out next given closed = rw (next, given, closed) refl

  pub encrypt_with-Sent :
      (plaintext : Bytes) (s : SenderKeyState) (k : ℕ)
      → IsState s
      → next_iteration c s.chain.iteration ≡ s.chain.iteration + k
      → k ≤ 1
      → Sent plaintext s k
  unfolding get_sender_message_key sender_message_key
  encrypt_with-Sent plaintext s k h next few =
      let f = get_sender_key-Forward c s (s.chain.iteration + k) k h refl (omega arith) in
      let chain = advance c k s.chain in
      let seed = c.calculate_mac chain.seed (1 ∷ []) in
      let closed =
        sound.encrypts (get_sender_message_key c chain).cipher_key plaintext
          (get_sender_message_key c chain).iv (cipher_key_size chain.iteration seed)
          (iv_size chain.iteration seed) in
      record {
        ciphertext = closed.0;
        after = f.after;
        written =
            written_of plaintext s _ _ f.after closed.0 next f.given closed.1
            ∙ serialized_same closed.0 f.after f.used.same_id (iteration-advance c k s.chain)
                f.used.same_private;
        opens = closed.2;
        chain = f.chain;
        used = f.used;
      }

  opened_of :
      (id n : ℕ) (ciphertext private plaintext : Bytes) (key : SenderMessageKey)
      (r r' : SenderKeyState)
      → verify_signature c (get_signing_key_public r) (received c sound id n ciphertext private)
        ≡ true
      → get_sender_key c (some n) r ≡ ok (key, r')
      → plain_text c key (some ciphertext) ≡ some plaintext
      → decrypt_with c (received c sound id n ciphertext private) r ≡ ok (plaintext, r')
  unfolding decrypt_with
  opened_of id n ciphertext private plaintext key r r' verified given opens =
      rw (verified, given, opens) refl

  same_pair :
      (r r' s s' : SenderKeyState)
      → IsKeyPair c (get_signing_key_public r) s.signing_private
      → r'.signing_public ≡ r.signing_public
      → s'.signing_private ≡ s.signing_private
      → IsKeyPair c (get_signing_key_public r') s'.signing_private
  same_pair r r' s s' pair e f =
      subst (λ p. IsKeyPair c p s'.signing_private) (sym (same_signing_key r r' e))
        (subst (λ p. IsKeyPair c (get_signing_key_public r) p) (sym f) pair)

  -- The receiver's side of a message that was sent.
  pub decrypt_with-received :
      (plaintext : Bytes) (r s : SenderKeyState) (d k : ℕ)
      → Follows c d r s
      → d + k ≤ max_ahead
      → (sent : Sent plaintext s k)
      → (r' : SenderKeyState) × (decrypt_with c
            (received c sound s.key_id (s.chain.iteration + k) sent.ciphertext s.signing_private)
            r
          ≡ ok (plaintext, r'))
        × (r'.key_id ≡ r.key_id)
        × Follows c 0 r' sent.after
  decrypt_with-received plaintext r s d k f near sent =
      let g = get_sender_key-Forward c r (s.chain.iteration + k) (d + k) f.receiver far near in
      (
        g.after,
        opened_of s.key_id (s.chain.iteration + k) sent.ciphertext s.signing_private plaintext _ r
            g.after
            (verify_signature-received c sound s.key_id (s.chain.iteration + k) sent.ciphertext
              s.signing_private _ f.pair)
            (g.given ∙ ap (λ ch. ok (get_sender_message_key c ch, g.after)) there) sent.opens,
        g.used.same_id,
        record {
          receiver = g.used.is_state;
          sender = sent.used.is_state;
          same_id = g.used.same_id ∙ f.same_id ∙ sym sent.used.same_id;
          chain = unfold advance in g.chain ∙ beyond ∙ sym sent.chain;
          pair = same_pair r g.after s sent.after f.pair g.used.same_public sent.used.same_private;
        },
      )
    where
      far : s.chain.iteration + k ≡ r.chain.iteration + (d + k)
      far = omega (arith, iteration-advance c d r.chain, ap (λ ch. ch.iteration) f.chain)

      there : advance c (d + k) r.chain ≡ advance c k s.chain
      there = advance_add c d k r.chain ∙ ap (advance c k) f.chain

      beyond : advance c (d + k + 1) r.chain ≡ advance c (k + 1) s.chain
      beyond =
          advance_add c (d + k) 1 r.chain ∙ ap (advance c 1) there ∙ sym (advance_add c k 1 s.chain)
