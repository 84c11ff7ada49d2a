-- ===== src/Messages/LruCache.antt =====
-- The caches of the package lru-cache, which is not part of the source: an interface, with what is
-- documented of it. Time is part of a cache: an entry that is too old is not there.
use nexawhats.Common.{◌≡◌, Option, none, some, ◌⊎◌, ◌≢◌}
use nexawhats.Common.Text.{Str}

pub record LruCache {ℓ} (V : Type ℓ) : Type (ℓ + 1) where
  pub State : Type ℓ
  pub empty : State
  pub get : Str → State → Option V
  pub set : Str → V → State → State
  pub delete : Str → State → State

-- What is set is there right away, whatever else goes to make room; what is deleted is gone.
pub record IsCache {ℓ} {V : Type ℓ} (c : LruCache V) : Type ℓ where
  pub get-empty : (k : Str) → c.get k c.empty ≡ none
  pub get-set : (k : Str) (v : V) (s : c.State) → c.get k (c.set k v s) ≡ some v
  pub get-delete : (k : Str) (s : c.State) → c.get k (c.delete k s) ≡ none
  pub get-set_other :
      (j k : Str) (v : V) (s : c.State)
      → j ≢ k
      → (c.get j (c.set k v s) ≡ none) ⊎ (c.get j (c.set k v s) ≡ c.get j s)
