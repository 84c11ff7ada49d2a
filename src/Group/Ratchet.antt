-- ===== src/Group/Ratchet.antt =====
-- Which key `getSenderKey` gives: the one of the chain, moved on to the iteration.
use nexawhats.Common.{
  ℕ, zero, suc, ◌+◌, ◌-◌, ◌≤◌, ◌≡◌, refl, sym, ap, subst, ◌∙◌, arith, ltb, true, false, some,
}
use nexawhats.Group.{Crypto, ok}
use nexawhats.Group.Keys.{SenderChainKey, get_sender_message_key, get_next}
use nexawhats.Group.State.{SenderKeyState, set_sender_chain_key}
use nexawhats.Group.Cipher.{skip_to, use_chain, get_sender_key, max_ahead}
use nexawhats.Group.Invariant.{IsState, IfOk, Used, UsedIn, get_sender_key-Used}

module _ (c : Crypto) where
  -- The chain after so many steps.
  unfoldable pub advance : ℕ → SenderChainKey → SenderChainKey
  advance zero chain = chain
  advance (suc n) chain = advance n (get_next c chain)

  pub iteration-advance :
      (n : ℕ) (chain : SenderChainKey) → (advance n chain).iteration ≡ chain.iteration + n
  unfolding advance get_next
  iteration-advance zero chain = omega arith
  iteration-advance (suc n) chain = omega (arith, iteration-advance n (get_next c chain))

  pub advance_add :
      (m n : ℕ) (chain : SenderChainKey) → advance (m + n) chain ≡ advance n (advance m chain)
  unfolding advance
  advance_add zero n chain = let e : 0 + n ≡ n = omega arith in ap (λ i. advance i chain) e
  advance_add (suc m) n chain =
      let e : suc m + n ≡ suc (m + n) = omega arith in
      ap (λ i. advance i chain) e ∙ advance_add m n (get_next c chain)

  pub get_next-advance :
      (n : ℕ) (chain : SenderChainKey) → get_next c (advance n chain) ≡ advance (n + 1) chain
  unfolding advance
  get_next-advance n chain = sym (advance_add n 1 chain)

  skip_to-advance :
      (fuel n : ℕ) (chain : SenderChainKey) (t : SenderKeyState)
      → n ≡ chain.iteration + fuel
      → (skip_to c fuel n chain t).0 ≡ advance fuel chain
  unfolding skip_to advance
  skip_to-advance zero n chain t far = refl
  skip_to-advance (suc fuel) n chain t far =
      rw less (skip_to-advance fuel n (get_next c chain) _ next)
    where
      less : ltb chain.iteration n ≡ true
      less = ground arith

      next : n ≡ (get_next c chain).iteration + fuel
      next = unfold get_next in omega arith

  -- What a state gives for an iteration that its chain has not passed.
  pub record Forward (s : SenderKeyState) (n k : ℕ) : Type 0 where
    pub after : SenderKeyState
    pub given :
        get_sender_key c (some n) s ≡ ok (get_sender_message_key c (advance k s.chain), after)
    pub chain : after.chain ≡ advance (k + 1) s.chain
    pub used : Used s n after

  -- For an iteration that is at most 2000 ahead of the chain, `getSenderKey` gives the key that the
  -- chain has there, and leaves the chain one step further.
  pub get_sender_key-Forward :
      (s : SenderKeyState) (n k : ℕ)
      → IsState s
      → n ≡ s.chain.iteration + k
      → k ≤ max_ahead
      → Forward s n k
  unfolding get_sender_key use_chain set_sender_chain_key
  get_sender_key-Forward s n k h at near =
      let out = skip_to c (n - s.chain.iteration) n s.chain s in
      let there = ahead (n - s.chain.iteration) (omega arith) in
      let run : get_sender_key c (some n) s ≡ ok (use_chain c out) =
        rw (not_before, not_far) refl in
      record {
        after = (use_chain c out).1;
        given = run ∙ ap (λ ch. ok (get_sender_message_key c ch, (use_chain c out).1)) there;
        chain = ap (get_next c) there ∙ get_next-advance k s.chain;
        used = subst (IfOk (UsedIn s n)) run (get_sender_key-Used c s n h);
      }
    where
      ahead : (d : ℕ) → d ≡ k → (skip_to c d n s.chain s).0 ≡ advance k s.chain
      ahead d e = rw e (skip_to-advance k n s.chain s at)

      not_before : ltb n s.chain.iteration ≡ false
      not_before = ground arith

      not_far : ltb 2000 (n - s.chain.iteration) ≡ false
      not_far = ground arith
