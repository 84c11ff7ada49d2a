-- ===== src/Group/Joining.antt =====
-- How a receiver comes to follow a member: `create` on one side, `process` on the other.
use nexawhats.Common.{
  ℕ, suc, ◌^◌, ◌<◌, ◌≡◌, refl, sym, ap, subst, ◌∙◌, arith, ltb, ◌==◌, if◌then◌else◌, Bool, true,
  false, none, some, Bool-cases, inl, inr, [], ◌∷◌, ◌++◌, length, length-append, drop,
}
use nexawhats.Group.{Bytes, Crypto, ok}
use nexawhats.Group.State.{SenderKeyState, get_signing_key_public}
use nexawhats.Group.Record.{SenderKeyRecord, get_sender_key_state, find, last}
use nexawhats.Group.Invariant.{IsState}
use nexawhats.Group.Ratchet.{advance}
use nexawhats.Group.Framing.{IsKeyPair}
use nexawhats.Group.State.{push_bounded}
use nexawhats.Group.Record.{fresh_state, set_sender_key_state, add_sender_key_state, is_empty}
use nexawhats.Group.Builder.{Generated, process, create, distribution_of}
use nexawhats.Group.Delivery.{FollowsIn}

find-append :
    (id : ℕ) (peer : SenderKeyRecord) (x : SenderKeyState)
    → find id peer ≡ none
    → x.key_id ≡ id
    → find id (peer ++ (x ∷ [])) ≡ some x
unfolding find
find-append id [] x h e = rw same refl
  where
    same : (x.key_id == id) ≡ true
    same = ground arith
find-append id (s ∷ peer) x h e = go (λ k. find-append id peer x k e) (s.key_id == id) h
  where
    go :
        (find id peer ≡ none → find id (peer ++ (x ∷ [])) ≡ some x)
        → (b : Bool) → (if b then some s else find id peer) ≡ none
        → (if b then some s else find id (peer ++ (x ∷ []))) ≡ some x
    go later true k = cc
    go later false k = later k

find-drop :
    (id : ℕ) (peer : SenderKeyRecord) (x : SenderKeyState)
    → find id peer ≡ none
    → find id (peer ++ (x ∷ [])) ≡ some x
    → 0 < length peer
    → find id (drop 1 (peer ++ (x ∷ []))) ≡ some x
unfolding find
find-drop id [] x h e some' = absurd (omega arith)
find-drop id (s ∷ peer) x h e some' = go (s.key_id == id) h e
  where
    go :
        (b : Bool)
        → (if b then some s else find id peer) ≡ none
        → (if b then some s else find id (peer ++ (x ∷ []))) ≡ some x
        → find id (peer ++ (x ∷ [])) ≡ some x
    go true k e' = cc
    go false k e' = e'

find-push_bounded :
    (id : ℕ) (peer : SenderKeyRecord) (x : SenderKeyState)
    → find id peer ≡ none
    → x.key_id ≡ id
    → find id (push_bounded 5 x peer) ≡ some x
unfolding push_bounded
find-push_bounded id peer x h e = go (ltb 5 (length (peer ++ (x ∷ [])))) refl
  where
    go :
        (b : Bool)
        → ltb 5 (length (peer ++ (x ∷ []))) ≡ b
        → find id (if b then drop 1 (peer ++ (x ∷ [])) else peer ++ (x ∷ [])) ≡ some x
    go false k = find-append id peer x h e
    go true k =
        find-drop id peer x h (find-append id peer x h e)
          (ground (arith, length-append peer (x ∷ [])))

fresh-IsState :
    (id i : ℕ) (chain public private : Bytes) → IsState (fresh_state id i chain public private)
fresh-IsState id i chain public private = record { ascending = omega arith; bounded = omega arith }

-- The state that a new member makes.
abbrev pub created : Generated → SenderKeyState
created g = fresh_state g.key_id 0 g.sender_key g.public g.private

signing_public_idem :
    (s t : SenderKeyState)
    → t.signing_public ≡ get_signing_key_public s
    → get_signing_key_public t ≡ get_signing_key_public s
unfolding get_signing_key_public
signing_public_idem s t e = ap (λ p. if length p == 32 then 5 ∷ p else p) e ∙ twice s.signing_public
  where
    longer : (n : ℕ) → (n == 32) ≡ true → (suc n == 32) ≡ false
    longer n h = ground arith

    twice :
        (p : Bytes)
        → (let q = if length p == 32 then 5 ∷ p else p in if length q == 32 then 5 ∷ q else q)
          ≡ (if length p == 32 then 5 ∷ p else p)
    twice p = elim (Bool-cases (length p == 32)) [
      | inl h ↦ rw h (rw (longer (length p) h) refl)
      | inr h ↦ rw h (rw h refl)
    ]

module _ (c : Crypto) where
  -- A member without keys makes them, and a receiver that knows no state of that id and processes
  -- the distribution message is in step with it, however many states it has.
  pub process-create :
      (g : Generated) (peer : SenderKeyRecord)
      → find g.key_id peer ≡ none
      → g.key_id < 2 ^ 32
      → IsKeyPair c (get_signing_key_public (created g)) g.private
      → (create g [] ≡ ok (distribution_of (created g), created g ∷ []))
        × FollowsIn c 0 (process (distribution_of (created g)) peer) (created g ∷ [])
  unfolding create is_empty get_sender_key_state set_sender_key_state last process
      add_sender_key_state advance
  process-create g peer new small pair = (
    refl,
    record {
      r = fresh_state g.key_id 0 g.sender_key (get_signing_key_public (created g)) [];
      s = created g;
      latest = refl;
      known = find-push_bounded g.key_id peer _ new refl;
      follows = record {
        receiver = fresh-IsState g.key_id 0 g.sender_key _ [];
        sender = fresh-IsState g.key_id 0 g.sender_key g.public g.private;
        same_id = refl;
        chain = refl;
        pair =
            subst (λ p. IsKeyPair c p g.private) (sym (signing_public_idem (created g) _ refl))
              pair;
      };
      small_id = small;
    },
  )
