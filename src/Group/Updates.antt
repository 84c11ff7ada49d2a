-- ===== src/Group/Updates.antt =====
-- Changing a state inside its record: it is found again, and the invariant is kept.
use nexawhats.Common.{
  ℕ, ◌≡◌, refl, ap, subst, arith, ◌==◌, if◌then◌else◌, Bool, true, false, Option, none, some, [],
  ◌∷◌, Bool-cases, inl, inr, All,
}
use nexawhats.Group.State.{SenderKeyState}
use nexawhats.Group.Record.{
  SenderKeyRecord, get_sender_key_state, put_sender_key_state, find, last, put_found, put_last,
}
use nexawhats.Group.Invariant.{IsState}

pub find-put_found :
    (id : ℕ) (states : SenderKeyRecord) (s s' : SenderKeyState)
    → find id states ≡ some s
    → s'.key_id ≡ s.key_id
    → find id (put_found id s' states) ≡ some s'
unfolding find put_found
find-put_found id [] s s' e same = cc
find-put_found id (t ∷ states) s s' e same = elim (Bool-cases (t.key_id == id)) [
  | inl h ↦ rw h (rw (is_same (first h e)) refl)
  | inr h ↦ rw h (rw h (find-put_found id states s s' (rest h e) same))
]
  where
    first :
        (t.key_id == id) ≡ true
        → (if t.key_id == id then some t else find id states) ≡ some s
        → s.key_id ≡ id
    first h e' =
        let head : some t ≡ some s = rw⁻¹ e' (rw h refl) in
        let same_key : t.key_id ≡ s.key_id =
          ap (λ o. elim o [ none ↦ 0 | some x ↦ x.key_id ]) head in
        ground arith

    rest :
        (t.key_id == id) ≡ false
        → (if t.key_id == id then some t else find id states) ≡ some s
        → find id states ≡ some s
    rest h e' = rw⁻¹ e' (rw h refl)

    is_same : s.key_id ≡ id → (s'.key_id == id) ≡ true
    is_same h = ground arith

pub last-put_last :
    (states : SenderKeyRecord) (s s' : SenderKeyState)
    → last states ≡ some s
    → last (put_last s' states) ≡ some s'
unfolding last put_last
last-put_last [] s s' e = cc
last-put_last (t ∷ []) s s' e = refl
last-put_last (t ∷ u ∷ []) s s' e = refl
last-put_last (t ∷ u ∷ v ∷ states) s s' e = last-put_last (u ∷ v ∷ states) s s' e

pub get_sender_key_state-put_sender_key_state :
    (o : Option ℕ) (states : SenderKeyRecord) (s s' : SenderKeyState)
    → get_sender_key_state o states ≡ some s
    → s'.key_id ≡ s.key_id
    → get_sender_key_state o (put_sender_key_state o s' states) ≡ some s'
unfolding get_sender_key_state put_sender_key_state
get_sender_key_state-put_sender_key_state none states s s' e same = last-put_last states s s' e
get_sender_key_state-put_sender_key_state (some id) states s s' e same =
    find-put_found id states s s' e same

last-IsState :
    (states : SenderKeyRecord) (s : SenderKeyState)
    → All IsState states
    → last states ≡ some s
    → IsState s
unfolding last
last-IsState [] s h e = cc
last-IsState (t ∷ []) s (h, tt) e = subst IsState (head e) h
  where
    head : some t ≡ some s → t ≡ s
    head q = cc
last-IsState (t ∷ u ∷ states) s (h, hs) e = last-IsState (u ∷ states) s hs e

find-IsState :
    (id : ℕ) (states : SenderKeyRecord) (s : SenderKeyState)
    → All IsState states
    → find id states ≡ some s
    → IsState s
unfolding find
find-IsState id [] s h e = cc
find-IsState id (t ∷ states) s (h, hs) e =
    go (λ later. find-IsState id states s hs later) (t.key_id == id) e
  where
    head : some t ≡ some s → t ≡ s
    head q = cc

    go :
        (find id states ≡ some s → IsState s)
        → (b : Bool) → (if b then some t else find id states) ≡ some s
        → IsState s
    go later true e' = subst IsState (head e') h
    go later false e' = later e'

pub get_sender_key_state-IsState :
    (o : Option ℕ) (states : SenderKeyRecord) (s : SenderKeyState)
    → All IsState states
    → get_sender_key_state o states ≡ some s
    → IsState s
unfolding get_sender_key_state
get_sender_key_state-IsState none states s h e = last-IsState states s h e
get_sender_key_state-IsState (some id) states s h e = find-IsState id states s h e

put_last-IsState :
    (states : SenderKeyRecord) (s' : SenderKeyState)
    → All IsState states
    → IsState s'
    → All IsState (put_last s' states)
unfolding put_last
put_last-IsState [] s' h k = tt
put_last-IsState (t ∷ []) s' h k = (k, tt)
put_last-IsState (t ∷ u ∷ states) s' (h, hs) k = (h, put_last-IsState (u ∷ states) s' hs k)

put_found-IsState :
    (id : ℕ) (states : SenderKeyRecord) (s' : SenderKeyState)
    → All IsState states
    → IsState s'
    → All IsState (put_found id s' states)
unfolding put_found
put_found-IsState id [] s' h k = tt
put_found-IsState id (t ∷ states) s' (h, hs) k =
    go (put_found-IsState id states s' hs k) (t.key_id == id)
  where
    go :
        All IsState (put_found id s' states)
        → (b : Bool) → All IsState (if b then s' ∷ states else t ∷ put_found id s' states)
    go later true = (k, hs)
    go later false = (h, later)

pub put_sender_key_state-IsState :
    (o : Option ℕ) (states : SenderKeyRecord) (s' : SenderKeyState)
    → All IsState states
    → IsState s'
    → All IsState (put_sender_key_state o s' states)
unfolding put_sender_key_state
put_sender_key_state-IsState none states s' h k = put_last-IsState states s' h k
put_sender_key_state-IsState (some id) states s' h k = put_found-IsState id states s' h k
