-- ===== src/Messages/Tests.antt =====
-- Runs of the retry manager, with caches that keep everything.
use nexawhats.Common.{
  ℕ, ◌≡◌, ◌≢◌, inr, refl, ap, ◌∙◌, arith, ltb, if◌then◌else◌, Option, none, some, [],
}
use nexawhats.Common.Text.{Str, codes, str_eq, str_eq_refl, str_eq_iff}
use nexawhats.Common.Dict.{Dict, lookup, put, remove, lookup-put, lookup-remove}
use nexawhats.Messages.LruCache.{LruCache, IsCache}
use nexawhats.Messages.RetryManager
use nexawhats.Messages.RetryManager.{
  CachedMessage, MessageRetryManager, initial, get_retry_count, get_recent_message,
  add_recent_message, can_retry, max_retry_count, default_stats,
}
use nexawhats.Messages.Retries.{retries, can_retry-retries}

abbrev pub keep_all : (V : Type 0) → LruCache V
keep_all V = record { State = Dict V; empty = []; get = lookup; set = put; delete = remove }

pub keep_all-IsCache : (V : Type 0) → IsCache (keep_all V)
unfolding lookup
keep_all-IsCache V = record {
  get-empty = λ k. refl;
  get-set = λ k v s. lookup-put k k v s ∙ own k (some v) (lookup k s);
  get-delete = λ k s. lookup-remove k k s ∙ own k none (lookup k s);
  get-set_other =
      λ j k v s differ. inr (lookup-put k j v s ∙ others j k (some v) (lookup j s) differ);
}
  where
    own : (k : Str) (a b : Option V) → (if str_eq k k then a else b) ≡ a
    own k a b = ap (λ c. if c then a else b) (str_eq_refl k)

    others : (j k : Str) (a b : Option V) → j ≢ k → (if str_eq k j then a else b) ≡ b
    others j k a b differ = ground (arith, str_eq_iff k j, differ)

abbrev messages : LruCache (CachedMessage ℕ)
messages = keep_all (CachedMessage ℕ)

abbrev counts : LruCache ℕ
counts = keep_all ℕ

abbrev fresh : MessageRetryManager ℕ messages counts
fresh = initial ℕ messages counts

none_yet : get_retry_count ℕ messages counts (codes "b") (codes "1") fresh ≡ 0
unfolding get_retry_count lookup
none_yet = refl

can_retry-retries_example :
    let r' =
      retries ℕ messages counts
        (codes "b")
        (codes "1")
        5
        (add_recent_message ℕ messages counts (codes "b") (codes "1") 42 fresh) in
    let gone = RetryManager.remove ℕ messages counts (codes "b") (codes "1") r' in
    (get_recent_message ℕ messages counts (codes "b") (codes "1") r' ≡ some 42)
    × (get_retry_count ℕ messages counts (codes "b") (codes "1") r' ≡ 5)
    × (can_retry ℕ messages counts (codes "b") (codes "1") r' ≡ ltb 5 max_retry_count)
    × (get_recent_message ℕ messages counts (codes "b") (codes "1") gone ≡ none)
    × (get_retry_count ℕ messages counts (codes "b") (codes "1") gone ≡ 0)
can_retry-retries_example =
    can_retry-retries ℕ messages counts (codes "b") (codes "1") (keep_all-IsCache (CachedMessage ℕ))
      (keep_all-IsCache ℕ) 42 5 fresh none_yet
