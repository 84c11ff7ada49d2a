-- ===== src/Group/Spent/Cached.antt =====
-- The cache of keys goes on to hold no key of an iteration that the chain has passed.
use nexawhats.Common.{
  ℕ, ◌<◌, ◌==◌, ◌≡◌, refl, arith, ltb, if◌then◌else◌, Bool, true, false, Option, none, some, List,
  [], ◌∷◌, ◌++◌, length, drop, Bool-cases, inl, inr,
}
use nexawhats.Group.State.{CachedKey, has_sender_message_key, take_key, push_bounded}

has-append :
    (n : ℕ) (k : CachedKey) (ks : List CachedKey)
    → has_sender_message_key n ks ≡ false
    → n < k.iteration
    → has_sender_message_key n (ks ++ (k ∷ [])) ≡ false
unfolding has_sender_message_key
has-append n k [] h later = ground (arith, later)
has-append n k (j ∷ ks) h later = ground (arith, h, has-append n k ks, later)

has-drop :
    (n : ℕ) (ks : List CachedKey)
    → has_sender_message_key n ks ≡ false
    → has_sender_message_key n (drop 1 ks) ≡ false
unfolding has_sender_message_key
has-drop n [] h = refl
has-drop n (k ∷ ks) h = ground (arith, h)

pub has-push_bounded :
    (n cap : ℕ) (k : CachedKey) (ks : List CachedKey)
    → has_sender_message_key n ks ≡ false
    → n < k.iteration
    → has_sender_message_key n (push_bounded cap k ks) ≡ false
unfolding push_bounded
has-push_bounded n cap k ks h later = elim (Bool-cases (ltb cap (length (ks ++ (k ∷ []))))) [
  | inl e ↦ rw e (has-drop n (ks ++ (k ∷ [])) (has-append n k ks h later))
  | inr e ↦ rw e (has-append n k ks h later)
]

-- The keys that are left when one was taken.
abbrev pub Left : ℕ → Option (CachedKey × List CachedKey) → Type 0
Left n none = Unit
Left n (some (k, rest)) = has_sender_message_key n rest ≡ false

pub take_key-Left :
    (n i : ℕ) (ks : List CachedKey) → has_sender_message_key n ks ≡ false → Left n (take_key i ks)
unfolding take_key has_sender_message_key
take_key-Left n i [] h = tt
take_key-Left n i (k ∷ ks) h =
    go (k.iteration == i) (take_key i ks) (take_key-Left n i ks (ground (arith, h)))
  where
    go :
        (b : Bool) (o : Option (CachedKey × List CachedKey))
        → Left n o
        → let taken : Option (CachedKey × List CachedKey) =
            if b
            then some (k, ks)
            else elim o [ none ↦ none | some (found, rest) ↦ some (found, k ∷ rest) ] in
          Left n taken
    go true o l = ground (arith, h)
    go false none l = tt
    go false (some (found, rest)) l = ground (arith, h, l)
