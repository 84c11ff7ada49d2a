-- ===== src/Messages/Retries.antt =====
-- Counting of retries in src/messages/retry-manager.ts.
use nexawhats.Common.{ℕ, zero, suc, ◌+◌, ltb, ◌≡◌, refl, ap, subst, ◌∙◌, arith, Option, none, some}
use nexawhats.Common.Text.{Str}
use nexawhats.Messages.LruCache.{LruCache, IsCache}
use nexawhats.Messages.RetryManager.{
  CachedMessage, key_of, MessageRetryManager, or_zero, mark, add_recent_message, get_recent_message,
  get_retry_count, increment_retry_count, has_exceeded_max_retries, can_retry, remove,
  max_retry_count,
}

module _ (M : Type 0) (messages : LruCache (CachedMessage M)) (counts : LruCache ℕ)
    (to id : Str) where
  abbrev Manager : Type 0
  Manager = MessageRetryManager M messages counts

  -- A message is cached and the pair has been retried `n` times.
  record Retried (m : M) (n : ℕ) (r : Manager) : Type 0 where
    entry : CachedMessage M
    cached : messages.get (key_of to id) r.cache ≡ some entry
    holds : entry.message ≡ m
    count : get_retry_count M messages counts to id r ≡ n

  abbrev pub retries : ℕ → Manager → Manager
  retries zero r = r
  retries (suc n) r = retries n (increment_retry_count M messages counts to id r).0

  module _ (sound : IsCache messages) (counted : IsCache counts) where
    increment-Retried :
        (m : M) (n : ℕ) (r : Manager)
        → Retried m n r
        → Retried m (n + 1) (increment_retry_count M messages counts to id r).0
    unfolding increment_retry_count get_retry_count
    increment-Retried m n r h = record {
      entry = record h.entry {
        retry_count = or_zero (counts.get (key_of to id) r.retry_counts) + 1;
      };
      cached =
          ap
            (λ o. messages.get (key_of to id) (
              mark M messages counts (key_of to id)
                (or_zero (counts.get (key_of to id) r.retry_counts) + 1) o r.cache))
            h.cached
          ∙ sound.get-set (key_of to id) _ r.cache;
      holds = h.holds;
      count =
          ap or_zero (
            counted.get-set (key_of to id) (or_zero (counts.get (key_of to id) r.retry_counts) + 1)
              r.retry_counts)
          ∙ ap (λ k. k + 1) h.count;
    }

    retries-Retried :
        (m : M) (k n : ℕ) (r : Manager) → Retried m n r → Retried m (n + k) (retries k r)
    retries-Retried m zero n r h = subst (λ j. Retried m j r) (omega arith) h
    retries-Retried m (suc k) n r h =
        subst (λ j. Retried m j (retries (suc k) r)) (omega arith)
          (retries-Retried m k (n + 1) (increment_retry_count M messages counts to id r).0
            (increment-Retried m n r h))

    -- When a message is cached whose pair has no retries yet, and `n` retries of it are counted with
    -- nothing else in between, it can still be read, the count is `n`, and a retry is allowed as long as
    -- `n` is below five. When the pair is then removed, nothing is left of it.
    pub can_retry-retries :
        (m : M) (n : ℕ) (r : Manager)
        → get_retry_count M messages counts to id r ≡ 0
        → let r' = retries n (add_recent_message M messages counts to id m r) in
          let gone = remove M messages counts to id r' in
          (get_recent_message M messages counts to id r' ≡ some m)
          × (get_retry_count M messages counts to id r' ≡ n)
          × (can_retry M messages counts to id r' ≡ ltb n max_retry_count)
          × (get_recent_message M messages counts to id gone ≡ none)
          × (get_retry_count M messages counts to id gone ≡ 0)
    unfolding get_recent_message can_retry has_exceeded_max_retries remove get_retry_count
    can_retry-retries m n r zero_before =
        let h = retries-Retried m n 0 (add_recent_message M messages counts to id m r) start in
        (
          ap message_of h.cached ∙ ap some h.holds,
          h.count ∙ omega arith,
          ground (arith, h.cached, h.count),
          ap message_of (sound.get-delete (key_of to id) _),
          ap or_zero (counted.get-delete (key_of to id) _),
        )
      where
        message_of : Option (CachedMessage M) → Option M
        message_of o = elim o [ none ↦ none | some entry ↦ some entry.message ]

        start : Retried m 0 (add_recent_message M messages counts to id m r)
        start =
            unfold add_recent_message in
            record {
              entry = record { message = m; retry_count = 0 };
              cached = sound.get-set (key_of to id) _ r.cache;
              holds = refl;
              count = zero_before;
            }
