-- ===== src/Group/OutOfOrder.antt =====
-- The keys that a state in memory keeps for messages that were overtaken. What becomes of them when
-- the record is stored as JSON and read again is not modelled.
use nexawhats.Common.{
  ℕ, zero, suc, ◌+◌, ◌-◌, ◌≤◌, ◌<◌, ◌≡◌, refl, sym, ap, subst, ◌∙◌, arith, ltb, true, false, Option,
  none, some, List, Bool-cases, inl, inr,
}
use nexawhats.Group.{Crypto, Result, ok, err, or_throw, old_counter}
use nexawhats.Group.Keys.{
  SenderMessageKey, SenderChainKey, sender_message_key, get_sender_message_key, get_next,
}
use nexawhats.Group.State.{
  CachedKey, SenderKeyState, set_sender_chain_key, add_sender_message_key,
  remove_sender_message_key, take_key, with_keys, push_bounded,
}
use nexawhats.Group.Cipher.{skip_to, use_chain, cached_key, get_sender_key, max_ahead}
use nexawhats.Group.Cache.{Ascending, Ascending-push_bounded}
use nexawhats.Group.Invariant.{IsState}
use nexawhats.Group.Ratchet.{advance, get_next-advance}
use nexawhats.Group.Skipped.{
  lookup, has-lookup, lookup-push_bounded, lookup-pushed, first_of, first_of-take_key,
}

abbrev cached_of : SenderMessageKey → CachedKey
cached_of k = record { iteration = k.iteration; seed = k.seed }

module _ (c : Crypto) (s : SenderKeyState) where
  -- The key of an iteration that the chain of `s` has not passed.
  abbrev key_at : ℕ → SenderMessageKey
  key_at j = get_sender_message_key c (advance c (j - s.chain.iteration) s.chain)

  -- All keys from the chain of `s` up to `chain` are in the cache.
  record Kept (chain : SenderChainKey) (t : SenderKeyState) : Type 0 where
    pub ascending : Ascending 0 t.message_keys chain.iteration
    pub later : s.chain.iteration ≤ chain.iteration
    pub here : chain ≡ advance c (chain.iteration - s.chain.iteration) s.chain
    pub keys :
        (j : ℕ)
        → s.chain.iteration ≤ j
        → j < chain.iteration
        → lookup j t.message_keys ≡ some (cached_of (key_at j))

  keep_one :
      (chain : SenderChainKey) (t : SenderKeyState)
      → Kept chain t
      → chain.iteration < s.chain.iteration + 2000
      → Kept (get_next c chain) (add_sender_message_key (get_sender_message_key c chain) t)
  unfolding get_next add_sender_message_key get_sender_message_key sender_message_key
  keep_one chain t k near = record {
    ascending = Ascending-push_bounded 2000 0 t.message_keys _ k.ascending;
    later = omega (arith, k.later);
    here =
        ap (get_next c) k.here
        ∙ get_next-advance c (chain.iteration - s.chain.iteration) s.chain
        ∙ ap (λ n. advance c n s.chain) one_later;
    keys = λ j from below. elim (Bool-cases (ltb j chain.iteration)) [
      | inl e ↦
          lookup-push_bounded s.chain.iteration j t.message_keys _ _ k.ascending from near
            (k.keys j from (ground arith))
      | inr e ↦ newest j (ground arith)
    ];
  }
    where
      one_later : chain.iteration - s.chain.iteration + 1 ≡ chain.iteration + 1 - s.chain.iteration
      one_later = omega (arith, k.later)

      newest :
          (j : ℕ)
          → j ≡ chain.iteration
          → lookup j (push_bounded 2000 (cached_of (get_sender_message_key c chain)) t.message_keys)
            ≡ some (cached_of (key_at j))
      newest j e =
          subst
            (λ i.
              lookup i
                (push_bounded 2000 (cached_of (get_sender_message_key c chain)) t.message_keys)
              ≡ some (cached_of (key_at i)))
            (sym e)
            (lookup-pushed t.message_keys (cached_of (get_sender_message_key c chain)) k.ascending
              ∙ ap (λ ch. some (cached_of (get_sender_message_key c ch))) k.here)

  abbrev KeptIn : SenderChainKey × SenderKeyState → Type 0
  KeptIn (chain, t) = Kept chain t

  skip_to-Kept :
      (fuel n : ℕ) (chain : SenderChainKey) (t : SenderKeyState)
      → n ≡ chain.iteration + fuel
      → n ≤ s.chain.iteration + 2000
      → Kept chain t
      → KeptIn (skip_to c fuel n chain t) × ((skip_to c fuel n chain t).0.iteration ≡ n)
  unfolding skip_to
  skip_to-Kept zero n chain t far near k = (k, omega arith)
  skip_to-Kept (suc fuel) n chain t far near k =
      rw less
        (skip_to-Kept fuel n (get_next c chain) _ next near (keep_one chain t k (omega arith)))
    where
      less : ltb chain.iteration n ≡ true
      less = ground arith

      next : n ≡ (get_next c chain).iteration + fuel
      next = unfold get_next in omega arith

  -- A cached key is given out as it was derived.
  cached-given :
      (j : ℕ) (t : SenderKeyState) (x : CachedKey)
      → j < t.chain.iteration
      → lookup j t.message_keys ≡ some x
      → (t' : SenderKeyState) × (get_sender_key c (some j) t
          ≡ ok (sender_message_key c x.iteration x.seed, t'))
  unfolding get_sender_key cached_key remove_sender_message_key
  cached-given j t x before e =
      let (t', given) = go (take_key j t.message_keys) (first_of-take_key j t.message_keys ∙ e) in
      (t', rw (passed, has-lookup j t.message_keys x e) given)
    where
      passed : ltb j t.chain.iteration ≡ true
      passed = ground arith

      go :
          (o : Option (CachedKey × List CachedKey))
          → first_of o ≡ some x
          → (t' : SenderKeyState) × (or_throw {A = SenderMessageKey × SenderKeyState} old_counter
                (elim o [
                  | none ↦ none
                  | some (k, rest) ↦
                      some (sender_message_key c k.iteration k.seed, with_keys rest t)
                ])
              ≡ ok (sender_message_key c x.iteration x.seed, t'))
      go none h = cc
      go (some (k, rest)) h = (
        with_keys rest t,
        ap (λ q. ok (sender_message_key c q.iteration q.seed, with_keys rest t)) (same h),
      )
        where
          same : some k ≡ some x → k ≡ x
          same q = cc

  begin : IsState s → Kept s.chain s
  unfolding advance
  begin h = record {
    ascending = h.ascending;
    later = omega arith;
    here = ap (λ n. advance c n s.chain) none_yet;
    keys = λ j from below. absurd (omega arith);
  }
    where
      none_yet : 0 ≡ s.chain.iteration - s.chain.iteration
      none_yet = omega arith

  -- After the chain's key was used.
  used-given :
      (n j : ℕ) (out : SenderChainKey × SenderKeyState)
      → KeptIn out
      → out.0.iteration ≡ n
      → s.chain.iteration ≤ j
      → j < n
      → (t' : SenderKeyState) × (get_sender_key c (some j) (use_chain c out).1 ≡ ok (key_at j, t'))
  unfolding use_chain set_sender_chain_key get_sender_message_key sender_message_key
  used-given n j (chain, t) k at from before =
      cached-given j (set_sender_chain_key (get_next c chain) t) (cached_of (key_at j)) passed
        (k.keys j from (omega arith))
    where
      passed : j < (get_next c chain).iteration
      passed = unfold get_next in omega arith

abbrev state_of : Result (SenderMessageKey × SenderKeyState) → SenderKeyState → SenderKeyState
state_of (ok (key, s)) t = s
state_of (err e) t = t

far_given :
    (c : Crypto) (s : SenderKeyState) (n : ℕ)
    → s.chain.iteration ≤ n
    → n ≤ s.chain.iteration + max_ahead
    → get_sender_key c (some n) s ≡ ok (use_chain c (skip_to c (n - s.chain.iteration) n s.chain s))
unfolding get_sender_key
far_given c s n from near = rw (not_before, not_far) refl
  where
    not_before : ltb n s.chain.iteration ≡ false
    not_before = ground arith

    not_far : ltb 2000 (n - s.chain.iteration) ≡ false
    not_far = ground arith

-- When the chain has moved from its iteration past `n`, at most 2000 further on, the key of every
-- iteration in between is still to be had of the state in memory that this leaves, and it is the one
-- that the chain had there.
pub get_sender_key-skipped :
    (c : Crypto) (s s' : SenderKeyState) (key : SenderMessageKey) (n j : ℕ)
    → IsState s
    → n ≤ s.chain.iteration + max_ahead
    → s.chain.iteration ≤ j
    → j < n
    → get_sender_key c (some n) s ≡ ok (key, s')
    → (s'' : SenderKeyState) × (get_sender_key c (some j) s'
        ≡ ok (get_sender_message_key c (advance c (j - s.chain.iteration) s.chain), s''))
get_sender_key-skipped c s s' key n j h near from before e =
    let out = skip_to c (n - s.chain.iteration) n s.chain s in
    let (kept, at) =
      skip_to-Kept c s (n - s.chain.iteration) n s.chain s (omega arith) near (begin c s h) in
    subst
      (λ t.
        (s'' : SenderKeyState) × (get_sender_key c (some j) t
          ≡ ok (get_sender_message_key c (advance c (j - s.chain.iteration) s.chain), s'')))
      (ap (λ r. state_of r s) (sym (far_given c s n (omega arith) near) ∙ e))
      (used-given c s n j out kept at from before)
