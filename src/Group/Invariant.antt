-- ===== src/Group/Invariant.antt =====
-- The invariant of a state and what `getSenderKey` does to it.
use nexawhats.Common.{
  ◌==◌, ap, ◌∷◌, ℕ, zero, suc, ◌+◌, ◌-◌, ◌≤◌, ◌<◌, ◌≡◌, refl, arith, ltb, if◌then◌else◌, Bool, true,
  false, Option, none, some, List, length, Bool-cases, inl, inr, subst,
}
use nexawhats.Group.{Crypto, Result, ok, err, or_throw, old_counter, too_far}
use nexawhats.Group.Keys.{
  SenderMessageKey, SenderChainKey, sender_message_key, get_sender_message_key, get_next,
}
use nexawhats.Group.State.{
  get_signing_key_public, CachedKey, SenderKeyState, set_sender_chain_key, has_sender_message_key,
  add_sender_message_key, remove_sender_message_key, take_key, with_keys, max_message_keys,
}
use nexawhats.Group.Cipher.{skip_to, use_chain, cached_key, get_sender_key}
use nexawhats.Group.Cache.{
  Ascending, Ascending-to, Ascending-push_bounded, length-push_bounded, absent-above, IsTaken,
  take_key-IsTaken,
}

-- The cached keys are at most 2000 and in order, each of an iteration before the chain's.
pub record IsState (s : SenderKeyState) : Type 0 where
  pub ascending : Ascending 0 s.message_keys s.chain.iteration
  pub bounded : length s.message_keys ≤ max_message_keys

pub same_signing_key :
    (s s' : SenderKeyState)
    → s'.signing_public ≡ s.signing_public
    → get_signing_key_public s' ≡ get_signing_key_public s
unfolding get_signing_key_public
same_signing_key s s' e = ap (λ p. if length p == 32 then 5 ∷ p else p) e

-- What holds of the value, if there is one.
abbrev pub IfOk {ℓ κ} : {A : Type ℓ} → (A → Type κ) → Result A → Type κ
IfOk P (ok a) = P a
IfOk P (err e) = Unit

-- A state of which the key of an iteration is used up.
pub record Used (s : SenderKeyState) (n : ℕ) (s' : SenderKeyState) : Type 0 where
  pub is_state : IsState s'
  pub later : s.chain.iteration ≤ s'.chain.iteration
  pub passed : n < s'.chain.iteration
  pub gone : has_sender_message_key n s'.message_keys ≡ false
  pub same_id : s'.key_id ≡ s.key_id
  pub same_public : s'.signing_public ≡ s.signing_public
  pub same_private : s'.signing_private ≡ s.signing_private

abbrev pub UsedIn : SenderKeyState → ℕ → SenderMessageKey × SenderKeyState → Type 0
UsedIn s n (k, s') = Used s n s'

-- On the way to an iteration: the keys passed over are in the cache, the chain stands before it.
record Skipping (s : SenderKeyState) (chain : SenderChainKey) (t : SenderKeyState) : Type 0 where
  pub ascending : Ascending 0 t.message_keys chain.iteration
  pub bounded : length t.message_keys ≤ max_message_keys
  pub later : s.chain.iteration ≤ chain.iteration
  pub same_id : t.key_id ≡ s.key_id
  pub same_public : t.signing_public ≡ s.signing_public
  pub same_private : t.signing_private ≡ s.signing_private

module _ (c : Crypto) (s : SenderKeyState) where
  skip_one :
      (chain : SenderChainKey) (t : SenderKeyState)
      → Skipping s chain t
      → Skipping s (get_next c chain) (add_sender_message_key (get_sender_message_key c chain) t)
  unfolding get_next add_sender_message_key get_sender_message_key sender_message_key
  skip_one chain t k = record {
    ascending = Ascending-push_bounded 2000 0 t.message_keys _ k.ascending;
    bounded = length-push_bounded 2000 _ t.message_keys k.bounded (omega arith);
    later = omega (arith, k.later);
    same_id = k.same_id;
    same_public = k.same_public;
    same_private = k.same_private;
  }

  skip_to-Skipping :
      (fuel n : ℕ) (chain : SenderChainKey) (t : SenderKeyState)
      → n ≡ chain.iteration + fuel
      → Skipping s chain t
      → let out = skip_to c fuel n chain t in Skipping s out.0 out.1 × (out.0.iteration ≡ n)
  unfolding skip_to
  skip_to-Skipping zero n chain t far k = (k, omega arith)
  skip_to-Skipping (suc fuel) n chain t far k =
      rw (less) (skip_to-Skipping fuel n (get_next c chain) _ next (skip_one chain t k))
    where
      less : ltb chain.iteration n ≡ true
      less = ground arith

      next : n ≡ (get_next c chain).iteration + fuel
      next = unfold get_next in omega arith

  use_chain-Used :
      (chain : SenderChainKey) (t : SenderKeyState)
      → Skipping s chain t
      → Used s chain.iteration (use_chain c (chain, t)).1
  unfolding use_chain set_sender_chain_key get_next
  use_chain-Used chain t k = record {
    is_state = record {
      ascending =
          Ascending-to 0 t.message_keys chain.iteration (chain.iteration + 1) k.ascending
            (omega arith);
      bounded = k.bounded;
    };
    later = omega (arith, k.later);
    passed = omega arith;
    gone = absent-above chain.iteration 0 t.message_keys chain.iteration k.ascending (omega arith);
    same_id = k.same_id;
    same_public = k.same_public;
    same_private = k.same_private;
  }

  cached_key-Used :
      (n : ℕ) → IsState s → n < s.chain.iteration → IfOk (UsedIn s n) (cached_key c n s)
  unfolding cached_key remove_sender_message_key
  cached_key-Used n h before =
      go (has_sender_message_key n s.message_keys) (take_key n s.message_keys)
        (take_key-IsTaken n 0 s.message_keys _ h.ascending)
    where
      go :
          (b : Bool) (o : Option (CachedKey × List CachedKey))
          → IsTaken n 0 s.message_keys s.chain.iteration o
          → IfOk (UsedIn s n) (
              if b
              then or_throw old_counter (elim o [
                | none ↦ none
                | some (k, rest) ↦ some (sender_message_key c k.iteration k.seed, with_keys rest s)
              ])
              else err old_counter)
      go false o t = tt
      go true none t = tt
      go true (some (k, rest)) t = record {
        is_state = record {
          ascending = t.ascending;
          bounded = omega (arith, t.shorter, h.bounded);
        };
        later = omega arith;
        passed = before;
        gone = t.gone;
        same_id = refl;
        same_public = refl;
        same_private = refl;
      }

  start : IsState s → Skipping s s.chain s
  start h = record {
    ascending = h.ascending;
    bounded = h.bounded;
    later = omega arith;
    same_id = refl;
    same_public = refl;
    same_private = refl;
  }

  -- A key that is given out, from the chain or from the cache, is used up, and the state keeps its
  -- invariant: the cached keys stay at most 2000, in order and before the chain, which never goes
  -- back.
  pub get_sender_key-Used : (n : ℕ) → IsState s → IfOk (UsedIn s n) (get_sender_key c (some n) s)
  unfolding get_sender_key
  get_sender_key-Used n h = elim (Bool-cases (ltb n s.chain.iteration)) [
    | inl e ↦ rw e (cached_key-Used n h (ground arith))
    | inr e ↦ rw e (far (ground arith) (ltb 2000 (n - s.chain.iteration)))
  ]
    where
      far :
          s.chain.iteration ≤ n
          → (b : Bool)
          → IfOk (UsedIn s n) (
              if b
              then err too_far
              else ok (use_chain c (skip_to c (n - s.chain.iteration) n s.chain s)))
      far ahead true = tt
      far ahead false =
          let (k, arrived) =
            skip_to-Skipping (n - s.chain.iteration) n s.chain s (ground arith) (start h) in
          subst (λ i. UsedIn s i (use_chain c (skip_to c (n - s.chain.iteration) n s.chain s)))
            arrived (use_chain-Used _ _ k)
