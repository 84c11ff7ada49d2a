-- ===== src/Group/Spent.antt =====
-- A counter that was decrypted stays refused: what later messages do to the state that knows it.
mod Cached
use nexawhats.Common.{
  ℕ, zero, suc, ◌-◌, ◌<◌, ◌==◌, ◌≡◌, refl, ap, subst, ◌∙◌, arith, ltb, if◌then◌else◌, Bool, true,
  false, Option, none, some, List, [], ◌∷◌, ◌++◌, length, drop, Bool-cases, inl, inr,
}
use nexawhats.Group.{
  Bytes, Crypto, Result, ok, err, bind, or_throw, old_counter, too_far, invalid_message,
  invalid_signature,
}
use nexawhats.Group.Keys.{
  SenderMessageKey, SenderChainKey, sender_message_key, get_sender_message_key, get_next,
}
use nexawhats.Group.State.{
  CachedKey, SenderKeyState, set_sender_chain_key, has_sender_message_key, add_sender_message_key,
  remove_sender_message_key, take_key, with_keys, push_bounded, max_message_keys,
  get_signing_key_public,
}
use nexawhats.Group.Message.{SenderKeyMessage, verify_signature}
use nexawhats.Group.Cipher.{
  skip_to, use_chain, cached_key, get_sender_key, decrypt_with, plain_text,
}
use nexawhats.Group.Invariant.{same_signing_key, IsState, IfOk, Used, UsedIn, get_sender_key-Used}
use nexawhats.Group.Spent.Cached.{Left, take_key-Left, has-push_bounded}

-- The chain is past the iteration `n`, of which no key is in the cache; `key` is the public key.
record Spent (n : ℕ) (key : Bytes) (s : SenderKeyState) : Type 0 where
  pub passed : n < s.chain.iteration
  pub gone : has_sender_message_key n s.message_keys ≡ false
  pub same_public : s.signing_public ≡ key

abbrev SpentIn : ℕ → Bytes → SenderMessageKey × SenderKeyState → Type 0
SpentIn n key (k, s) = Spent n key s

module _ (c : Crypto) (n : ℕ) (key : Bytes) where
  skip_to-Spent :
      (fuel i : ℕ) (chain : SenderChainKey) (t : SenderKeyState)
      → n < chain.iteration
      → has_sender_message_key n t.message_keys ≡ false
      → t.signing_public ≡ key
      → SpentIn n key (use_chain c (skip_to c fuel i chain t))
  unfolding skip_to use_chain set_sender_chain_key get_next add_sender_message_key
  skip_to-Spent zero i chain t later h p = record {
    passed = omega (arith, later);
    gone = h;
    same_public = p;
  }
  skip_to-Spent (suc fuel) i chain t later h p = elim (Bool-cases (ltb chain.iteration i)) [
    | inl e ↦ rw e (
        skip_to-Spent fuel i (get_next c chain)
          (add_sender_message_key (get_sender_message_key c chain) t) (omega (arith, later)) pushed
          p)
    | inr e ↦ rw e (record { passed = omega (arith, later); gone = h; same_public = p })
  ]
    where
      pushed :
          has_sender_message_key n
            (add_sender_message_key (get_sender_message_key c chain) t).message_keys
          ≡ false
      pushed =
          unfold add_sender_message_key get_sender_message_key sender_message_key in
          has-push_bounded n max_message_keys _ t.message_keys h later

  cached_key-Spent :
      (i : ℕ) (s : SenderKeyState) → Spent n key s → IfOk (SpentIn n key) (cached_key c i s)
  unfolding cached_key remove_sender_message_key
  cached_key-Spent i s h =
      go (has_sender_message_key i s.message_keys) (take_key i s.message_keys)
        (take_key-Left n i s.message_keys h.gone)
    where
      go :
          (b : Bool) (o : Option (CachedKey × List CachedKey))
          → Left n o
          → IfOk (SpentIn n key) (
              if b
              then or_throw old_counter (elim o [
                | none ↦ none
                | some (k, rest) ↦ some (sender_message_key c k.iteration k.seed, with_keys rest s)
              ])
              else err old_counter)
      go false o l = tt
      go true none l = tt
      go true (some (k, rest)) l = record {
        passed = h.passed;
        gone = l;
        same_public = h.same_public;
      }

  get_sender_key-Spent :
      (o : Option ℕ) (s : SenderKeyState)
      → Spent n key s
      → IfOk (SpentIn n key) (get_sender_key c o s)
  unfolding get_sender_key skip_to
  get_sender_key-Spent none s h = skip_to-Spent 0 0 s.chain s h.passed h.gone h.same_public
  get_sender_key-Spent (some i) s h = elim (Bool-cases (ltb i s.chain.iteration)) [
    | inl e ↦ rw e (cached_key-Spent i s h)
    | inr e ↦ rw e (far (ltb 2000 (i - s.chain.iteration)))
  ]
    where
      far :
          (b : Bool)
          → IfOk (SpentIn n key) (
              if b
              then err too_far
              else ok (use_chain c (skip_to c (i - s.chain.iteration) i s.chain s)))
      far true = tt
      far false = skip_to-Spent (i - s.chain.iteration) i s.chain s h.passed h.gone h.same_public

-- The state after a message: it is stored where the message was decrypted, and left where that threw.
abbrev pub kept : SenderKeyState → Result (Bytes × SenderKeyState) → SenderKeyState
kept s (err e) = s
kept s (ok (plaintext, s')) = s'

-- The state after some messages.
unfoldable pub after : Crypto → List SenderKeyMessage → SenderKeyState → SenderKeyState
after c [] s = s
after c (m ∷ ms) s = after c ms (kept s (decrypt_with c m s))

module _ (c : Crypto) (n : ℕ) (key : Bytes) where
  decrypt_with-Spent :
      (m : SenderKeyMessage) (s : SenderKeyState)
      → Spent n key s
      → Spent n key (kept s (decrypt_with c m s))
  unfolding decrypt_with verify_signature
  decrypt_with-Spent m s h =
      verifying (verify_signature c (get_signing_key_public s) m)
        (get_sender_key c m.fields.iteration s)
        (get_sender_key-Spent c n key m.fields.iteration s h)
    where
      opened :
          (s' : SenderKeyState) (o : Option Bytes)
          → Spent n key s'
          → Spent n key (kept s (bind (or_throw invalid_message o) λ plaintext. ok (plaintext, s')))
      opened s' none k = h
      opened s' (some plaintext) k = k

      verifying :
          (b : Bool) (r : Result (SenderMessageKey × SenderKeyState))
          → IfOk (SpentIn n key) r
          → Spent n key (
              kept s (
                if b
                then (bind r λ (k, s').
                    bind
                      (or_throw invalid_message (plain_text c k m.fields.ciphertext))
                      λ plaintext. ok (plaintext, s'))
                else err invalid_signature))
      verifying false r k = h
      verifying true (err e) k = h
      verifying true (ok (k', s')) k = opened s' (plain_text c k' m.fields.ciphertext) k

  after-Spent :
      (ms : List SenderKeyMessage) (s : SenderKeyState) → Spent n key s → Spent n key (after c ms s)
  unfolding after
  after-Spent [] s h = h
  after-Spent (m ∷ ms) s h = after-Spent ms (kept s (decrypt_with c m s)) (decrypt_with-Spent m s h)

  refused :
      (m : SenderKeyMessage) (s : SenderKeyState)
      → m.fields.iteration ≡ some n
      → Spent n key s
      → decrypt_with c m s ≡ (
          if verify_signature c (get_signing_key_public s) m
          then err old_counter
          else err invalid_signature)
  unfolding decrypt_with get_sender_key cached_key
  refused m s at h = rw (at, before, h.gone) refl
    where
      before : ltb n s.chain.iteration ≡ true
      before = let p = h.passed in ground arith

module _ (c : Crypto) (m : SenderKeyMessage) (n : ℕ) (s : SenderKeyState)
    (at : m.fields.iteration ≡ some n) (h : IsState s) where
  abbrev DecryptedIn : Bytes × SenderKeyState → Type 0
  DecryptedIn (plaintext, s') = Spent n s.signing_public s'

  decrypt_with-DecryptedIn : IfOk DecryptedIn (decrypt_with c m s)
  unfolding decrypt_with verify_signature
  decrypt_with-DecryptedIn = rw at (
      verifying (verify_signature c (get_signing_key_public s) m) (get_sender_key c (some n) s)
        (get_sender_key-Used c s n h))
    where
      opened :
          (s' : SenderKeyState) (o : Option Bytes)
          → Used s n s'
          → IfOk DecryptedIn (bind (or_throw invalid_message o) λ plaintext. ok (plaintext, s'))
      opened s' none u = tt
      opened s' (some plaintext) u = record {
        passed = u.passed;
        gone = u.gone;
        same_public = u.same_public;
      }

      verifying :
          (b : Bool) (r : Result (SenderMessageKey × SenderKeyState))
          → IfOk (UsedIn s n) r
          → IfOk DecryptedIn (
              if b
              then (bind r λ (k, s').
                  bind
                    (or_throw invalid_message (plain_text c k m.fields.ciphertext))
                    λ plaintext. ok (plaintext, s'))
              else err invalid_signature)
      verifying false r u = tt
      verifying true (err e) u = tt
      verifying true (ok (k, s')) u = opened s' (plain_text c k m.fields.ciphertext) u

  -- When a state has decrypted a message with a counter, and has then been given any other messages,
  -- of which it refused some or all, then any message with that counter is refused: as an old one
  -- where it is signed with the key of the state, or else for its signature. The state that the
  -- message found kept the invariant.
  pub decrypt_with-after :
      (plaintext : Bytes) (s' : SenderKeyState) (later : List SenderKeyMessage)
      (again : SenderKeyMessage)
      → decrypt_with c m s ≡ ok (plaintext, s')
      → again.fields.iteration ≡ some n
      → decrypt_with c again (after c later s') ≡ (
          if verify_signature c (get_signing_key_public s) again
          then err old_counter
          else err invalid_signature)
  decrypt_with-after plaintext s' later again e same =
      let out : DecryptedIn (plaintext, s') = subst (IfOk DecryptedIn) e decrypt_with-DecryptedIn in
      let spent = after-Spent c n s.signing_public later s' out in
      refused c n s.signing_public again (after c later s') same spent
      ∙ ap (λ k. if verify_signature c k again then err old_counter else err invalid_signature)
          (same_signing_key s (after c later s') spent.same_public)
