-- ===== src/Group/Cache.antt =====
-- The cached keys of a state: in the order of their iterations, all before the chain's.
use nexawhats.Common.{
  ℕ, ◌+◌, ◌≤◌, ◌<◌, ◌≡◌, refl, arith, ltb, ◌==◌, if◌then◌else◌, Bool, true, false, inl, inr, Option,
  none, some, List, [], ◌∷◌, ◌++◌, length, length-append, length-drop, drop, Bool-cases,
}
use nexawhats.Group.State.{CachedKey, push_bounded, take_key, has_sender_message_key}

-- From `lo` on, each later than the one before, and all before `hi`.
abbrev pub Ascending : ℕ → List CachedKey → ℕ → Type 0
Ascending lo [] hi = lo ≤ hi
Ascending lo (k ∷ ks) hi = lo ≤ k.iteration × Ascending (k.iteration + 1) ks hi

Ascending-le : (lo : ℕ) (ks : List CachedKey) (hi : ℕ) → Ascending lo ks hi → lo ≤ hi
Ascending-le lo [] hi h = h
Ascending-le lo (k ∷ ks) hi (le, h) = omega (arith, Ascending-le (k.iteration + 1) ks hi h)

Ascending-from :
    (lo low : ℕ) (ks : List CachedKey) (hi : ℕ)
    → Ascending lo ks hi
    → low ≤ lo
    → Ascending low ks hi
Ascending-from lo low [] hi h le = omega arith
Ascending-from lo low (k ∷ ks) hi (first, h) le = (omega arith, h)

pub Ascending-to :
    (lo : ℕ) (ks : List CachedKey) (hi high : ℕ)
    → Ascending lo ks hi
    → hi ≤ high
    → Ascending lo ks high
Ascending-to lo [] hi high h le = omega arith
Ascending-to lo (k ∷ ks) hi high (first, h) le =
    (first, Ascending-to (k.iteration + 1) ks hi high h le)

Ascending-append :
    (lo : ℕ) (ks : List CachedKey) (k : CachedKey)
    → Ascending lo ks k.iteration
    → Ascending lo (ks ++ (k ∷ [])) (k.iteration + 1)
Ascending-append lo [] k h = (h, omega arith)
Ascending-append lo (j ∷ ks) k (first, h) = (first, Ascending-append (j.iteration + 1) ks k h)

pub Ascending-push_bounded :
    (most lo : ℕ) (ks : List CachedKey) (k : CachedKey)
    → Ascending lo ks k.iteration
    → Ascending lo (push_bounded most k ks) (k.iteration + 1)
unfolding push_bounded
Ascending-push_bounded most lo ks k h =
    go (ltb most (length (ks ++ (k ∷ [])))) (ks ++ (k ∷ [])) (Ascending-append lo ks k h)
  where
    go :
        (b : Bool) (l : List CachedKey)
        → Ascending lo l (k.iteration + 1)
        → Ascending lo (if b then drop 1 l else l) (k.iteration + 1)
    go false l a = a
    go true [] a = a
    go true (j ∷ l) (first, a) = Ascending-from (j.iteration + 1) lo l _ a (omega arith)

pub length-push_bounded {ℓ} :
    {A : Type ℓ} (most : ℕ) (x : A) (xs : List A)
    → length xs ≤ most
    → 0 < most
    → length (push_bounded most x xs) ≤ most
unfolding push_bounded
length-push_bounded most x xs h pos = elim (Bool-cases (ltb most (length (xs ++ (x ∷ []))))) [
  | inl e ↦ rw e (omega (arith, length-drop 1 (xs ++ (x ∷ [])), length-append xs (x ∷ [])))
  | inr e ↦ rw e (ground (arith, length-append xs (x ∷ [])))
]

-- No key of an iteration before the first or from the end on.
absent-below :
    (n lo : ℕ) (ks : List CachedKey) (hi : ℕ)
    → Ascending lo ks hi
    → n < lo
    → has_sender_message_key n ks ≡ false
unfolding has_sender_message_key
absent-below n lo [] hi h lt = refl
absent-below n lo (k ∷ ks) hi (first, h) lt =
    ground (arith, absent-below n (k.iteration + 1) ks hi h)

pub absent-above :
    (n lo : ℕ) (ks : List CachedKey) (hi : ℕ)
    → Ascending lo ks hi
    → hi ≤ n
    → has_sender_message_key n ks ≡ false
unfolding has_sender_message_key
absent-above n lo [] hi h le = refl
absent-above n lo (k ∷ ks) hi (first, h) le =
    ground (arith, absent-above n (k.iteration + 1) ks hi h, Ascending-le (k.iteration + 1) ks hi h)

-- What is left when a key is taken.
pub record Taken (n lo : ℕ) (ks : List CachedKey) (hi : ℕ) (k : CachedKey) (rest : List CachedKey)
    : Type 0 where
  pub ascending : Ascending lo rest hi
  pub gone : has_sender_message_key n rest ≡ false
  pub iteration : k.iteration ≡ n
  pub shorter : length rest < length ks

-- What `take_key` may give.
abbrev pub IsTaken : (n lo : ℕ) → List CachedKey → ℕ → Option (CachedKey × List CachedKey) → Type 0
IsTaken n lo ks hi none = Unit
IsTaken n lo ks hi (some (k, rest)) = Taken n lo ks hi k rest

pub take_key-IsTaken :
    (n lo : ℕ) (ks : List CachedKey) (hi : ℕ)
    → Ascending lo ks hi
    → IsTaken n lo ks hi (take_key n ks)
unfolding take_key has_sender_message_key
take_key-IsTaken n lo [] hi h = tt
take_key-IsTaken n lo (j ∷ ks) hi (first, h) =
    go (j.iteration == n) refl (take_key n ks) (take_key-IsTaken n (j.iteration + 1) ks hi h)
  where
    go :
        (b : Bool)
        → (j.iteration == n) ≡ b
        → (later : Option (CachedKey × List CachedKey)) → IsTaken n (j.iteration + 1) ks hi later
        → IsTaken n lo (j ∷ ks) hi (
            if b
            then some (j, ks)
            else elim later [ none ↦ none | some (found, rest) ↦ some (found, j ∷ rest) ])
    go true eq later t = record {
      ascending = Ascending-from (j.iteration + 1) lo ks hi h (omega arith);
      gone = absent-below n (j.iteration + 1) ks hi h (ground arith);
      iteration = ground arith;
      shorter = omega arith;
    }
    go false eq none t = tt
    go false eq (some (k, rest)) t = record {
      ascending = (first, t.ascending);
      gone = rw eq t.gone;
      iteration = t.iteration;
      shorter = omega (arith, t.shorter);
    }
