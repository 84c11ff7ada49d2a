-- ===== src/Queue.antt =====
-- src/queue/index.ts: the outgoing messages in the order of their priorities.
pub mod Tests
pub mod DeadLetters
pub mod Processing
pub mod Order
pub mod Drain
pub mod RateLimiter
use nexawhats.Common.{
  ℕ, zero, suc, ltb, if◌then◌else◌, Bool, Option, none, some, List, [], ◌∷◌, ◌++◌, take, drop,
}
use nexawhats.Common.Text.{Str}

pub data Priority : Type 0 where
  urgent high normal low : Priority

-- `PRIORITY_WEIGHT`: the lower is processed first.
abbrev pub weight : Priority → ℕ
weight urgent = 0
weight high = 1
weight normal = 2
weight low = 3

-- `QueueEntry`. The object is shared and its `attempts` change: they stand in the state, by `id`,
-- under which the promise is settled too.
pub record Entry {ℓ} (C : Type ℓ) : Type ℓ where
  pub id : ℕ
  pub jid : Str
  pub content : C
  pub priority : Priority
  pub enqueued_at : ℕ

abbrev pub after_one : Option ℕ → Option ℕ
after_one none = none
after_one (some i) = some (suc i)

module _ {ℓ} {A : Type ℓ} where
  pub find_index : (A → Bool) → List A → Option ℕ
  find_index p [] = none
  find_index p (x ∷ xs) = let later = after_one (find_index p xs) in if p x then some 0 else later

  -- `splice(i, 0, x)`
  pub insert_at : ℕ → A → List A → List A
  insert_at i x xs = take i xs ++ (x ∷ drop i xs)

-- An entry goes before the first one that is less urgent.
pub insert {ℓ} : {C : Type ℓ} → Entry C → List (Entry C) → List (Entry C)
insert e entries = elim (find_index (λ x. ltb (weight e.priority) (weight x.priority)) entries) [
  | none ↦ entries ++ (e ∷ [])
  | some i ↦ insert_at i e entries
]
