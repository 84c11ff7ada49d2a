-- ===== src/Group/Skipped.antt =====
-- The keys that the chain passes over stay in the cache until their messages come.
use nexawhats.Common.{
  ℕ, ◌+◌, ◌≤◌, ◌<◌, ◌≡◌, refl, arith, ltb, ◌==◌, if◌then◌else◌, Bool, true, false, Option, none,
  some, List, [], ◌∷◌, ◌++◌, length, length-append, drop, ◌||◌,
}
use nexawhats.Group.State.{CachedKey, has_sender_message_key, take_key, push_bounded}
use nexawhats.Group.Cache.{Ascending, absent-above}

-- The first key of an iteration.
pub lookup : ℕ → List CachedKey → Option CachedKey
lookup j [] = none
lookup j (k ∷ ks) = let later = lookup j ks in if k.iteration == j then some k else later

abbrev pub first_of : Option (CachedKey × List CachedKey) → Option CachedKey
first_of none = none
first_of (some (k, rest)) = some k

pub first_of-take_key : (j : ℕ) (ks : List CachedKey) → first_of (take_key j ks) ≡ lookup j ks
unfolding take_key lookup
first_of-take_key j [] = refl
first_of-take_key j (k ∷ ks) = go (k.iteration == j) (take_key j ks) (first_of-take_key j ks)
  where
    go :
        (b : Bool) (o : Option (CachedKey × List CachedKey))
        → first_of o ≡ lookup j ks
        → first_of (
            if b
            then some (k, ks)
            else elim o [ none ↦ none | some (found, rest) ↦ some (found, k ∷ rest) ])
          ≡ (if b then some k else lookup j ks)
    go true o e = refl
    go false none e = e
    go false (some (f, r)) e = e

pub has-lookup :
    (j : ℕ) (ks : List CachedKey) (x : CachedKey)
    → lookup j ks ≡ some x
    → has_sender_message_key j ks ≡ true
unfolding lookup has_sender_message_key
has-lookup j [] x e = cc
has-lookup j (k ∷ ks) x e = go (k.iteration == j) (has-lookup j ks x) e
  where
    go :
        (b : Bool)
        → (lookup j ks ≡ some x → has_sender_message_key j ks ≡ true)
        → (if b then some k else lookup j ks) ≡ some x
        → (b || has_sender_message_key j ks) ≡ true
    go true later h = refl
    go false later h = later h

lookup-append :
    (j : ℕ) (ks : List CachedKey) (x y : CachedKey)
    → lookup j ks ≡ some x
    → lookup j (ks ++ (y ∷ [])) ≡ some x
unfolding lookup
lookup-append j [] x y e = cc
lookup-append j (k ∷ ks) x y e = go (k.iteration == j) (lookup-append j ks x y) e
  where
    go :
        (b : Bool)
        → (lookup j ks ≡ some x → lookup j (ks ++ (y ∷ [])) ≡ some x)
        → (if b then some k else lookup j ks) ≡ some x
        → (if b then some k else lookup j (ks ++ (y ∷ []))) ≡ some x
    go true later h = h
    go false later h = later h

lookup-last :
    (ks : List CachedKey) (y : CachedKey)
    → has_sender_message_key y.iteration ks ≡ false
    → lookup y.iteration (ks ++ (y ∷ [])) ≡ some y
unfolding lookup has_sender_message_key
lookup-last [] y h = rw same refl
  where
    same : (y.iteration == y.iteration) ≡ true
    same = ground arith
lookup-last (k ∷ ks) y h = go (k.iteration == y.iteration) (lookup-last ks y) h
  where
    go :
        (b : Bool)
        → (has_sender_message_key y.iteration ks ≡ false
            → lookup y.iteration (ks ++ (y ∷ [])) ≡ some y)
        → (b || has_sender_message_key y.iteration ks) ≡ false
        → (if b then some k else lookup y.iteration (ks ++ (y ∷ []))) ≡ some y
    go true later e = cc
    go false later e = later e

length-Ascending :
    (lo : ℕ) (ks : List CachedKey) (hi : ℕ) → Ascending lo ks hi → length ks + lo ≤ hi
length-Ascending lo [] hi h = omega arith
length-Ascending lo (k ∷ ks) hi (first, h) =
    omega (arith, length-Ascending (k.iteration + 1) ks hi h)

-- A key of the last 2000 iterations survives the next one.
pub lookup-push_bounded :
    (i j : ℕ) (ks : List CachedKey) (x y : CachedKey)
    → Ascending 0 ks y.iteration
    → i ≤ j
    → y.iteration < i + 2000
    → lookup j ks ≡ some x
    → lookup j (push_bounded 2000 y ks) ≡ some x
unfolding push_bounded
lookup-push_bounded i j ks x y asc from near e =
    go (ltb 2000 (length (ks ++ (y ∷ [])))) refl ks asc e refl
  where
    older :
        (b : Bool) (k : CachedKey) (ks' : List CachedKey)
        → (k.iteration == j) ≡ b
        → k.iteration < i
        → (if b then some k else lookup j ks') ≡ some x
        → lookup j ks' ≡ some x
    older true k ks' same before h = absurd (ground arith)
    older false k ks' same before h = h

    go :
        (b : Bool)
        → ltb 2000 (length (ks ++ (y ∷ []))) ≡ b
        → (l : List CachedKey) → Ascending 0 l y.iteration
        → lookup j l ≡ some x
        → length l ≡ length ks
        → lookup j (if b then drop 1 (l ++ (y ∷ [])) else l ++ (y ∷ [])) ≡ some x
    go false full l a h same = lookup-append j l x y h
    go true full [] a h same = unfold lookup in cc
    go true full (k ∷ l) (first, a) h same = lookup-append j l x y (
        older (k.iteration == j) k l refl
          (ground
            (arith, length-Ascending (k.iteration + 1) l y.iteration a, length-append ks (y ∷ [])))
          (unfold lookup in h))

pub lookup-pushed :
    (ks : List CachedKey) (y : CachedKey)
    → Ascending 0 ks y.iteration
    → lookup y.iteration (push_bounded 2000 y ks) ≡ some y
unfolding push_bounded
lookup-pushed ks y asc = go (ltb 2000 (length (ks ++ (y ∷ [])))) ks refl asc
  where
    go :
        (b : Bool) (l : List CachedKey)
        → ltb 2000 (length (l ++ (y ∷ []))) ≡ b
        → Ascending 0 l y.iteration
        → lookup y.iteration (if b then drop 1 (l ++ (y ∷ [])) else l ++ (y ∷ [])) ≡ some y
    go false l e a = lookup-last l y (absent-above y.iteration 0 l y.iteration a (omega arith))
    go true [] e a = cc
    go true (k ∷ l) e (first, a) =
        lookup-last l y (absent-above y.iteration (k.iteration + 1) l y.iteration a (omega arith))
