-- ===== src/Messages/RetryManager.antt =====
-- src/messages/retry-manager.ts, over messages of type `M` and the two caches. The time of a call
-- that reads the clock is an argument.
use nexawhats.Common.{
  ℕ, ◌+◌, ◌-◌, ◌*◌, leb, ltb, ◌==◌, if◌then◌else◌, Bool, true, false, not, ◌&&◌, Option, none, some,
  [], ◌++◌,
}
use nexawhats.Common.Text.{Str, codes}
use nexawhats.Common.Dict.{Dict, lookup, put}
use nexawhats.Messages.LruCache.{LruCache}

abbrev pub max_retry_count : ℕ
max_retry_count = 5

abbrev pub min_session_recreate_interval_ms : ℕ
min_session_recreate_interval_ms = 60 * 60 * 1000

pub record RetryStatistics : Type 0 where
  pub total : ℕ
  pub success : ℕ
  pub fail : ℕ
  pub media : ℕ
  pub session : ℕ
  pub phone : ℕ

abbrev pub default_stats : RetryStatistics
default_stats = record { total = 0; success = 0; fail = 0; media = 0; session = 0; phone = 0 }

-- A message that was sent, with its number of retries.
pub record CachedMessage {ℓ} (M : Type ℓ) : Type ℓ where
  pub message : M
  pub retry_count : ℕ

-- `${to}:${id}`
abbrev pub key_of : Str → Str → Str
key_of to id = to ++ (codes ":" ++ id)

abbrev pub or_zero : Option ℕ → ℕ
or_zero none = 0
or_zero (some n) = n

abbrev pub is_there : {M : Type 0} → Option (CachedMessage M) → Bool
is_there none = false
is_there (some entry) = true

-- A time of zero counts as none.
abbrev pub recreate_due : ℕ → Option ℕ → Bool
recreate_due now none = true
recreate_due now (some last_ts) =
    if last_ts == 0 then true else ltb min_session_recreate_interval_ms (now - last_ts)

module _ (M : Type 0) (messages : LruCache (CachedMessage M)) (counts : LruCache ℕ) where
  pub record MessageRetryManager : Type 0 where
    pub cache : messages.State
    pub retry_counts : counts.State
    pub session_recreate_ts : Dict ℕ
    pub pending_phone_request : Bool
    pub statistics : RetryStatistics

  abbrev pub initial : MessageRetryManager
  initial = record {
    cache = messages.empty;
    retry_counts = counts.empty;
    session_recreate_ts = [];
    pending_phone_request = false;
    statistics = default_stats;
  }

  unfoldable pub add_recent_message : Str → Str → M → MessageRetryManager → MessageRetryManager
  add_recent_message to id message r = record r {
    cache = messages.set (key_of to id) (record { message = message; retry_count = 0 }) r.cache;
  }

  unfoldable pub get_recent_message : Str → Str → MessageRetryManager → Option M
  get_recent_message to id r = elim (messages.get (key_of to id) r.cache) [
    | none ↦ none
    | some entry ↦ some entry.message
  ]

  unfoldable pub get_retry_count : Str → Str → MessageRetryManager → ℕ
  get_retry_count to id r = or_zero (counts.get (key_of to id) r.retry_counts)

  -- The cached message gets the number too.
  abbrev pub mark : Str → ℕ → Option (CachedMessage M) → messages.State → messages.State
  mark key n none s = s
  mark key n (some entry) s = messages.set key (record entry { retry_count = n }) s

  unfoldable pub increment_retry_count : Str → Str → MessageRetryManager → MessageRetryManager × ℕ
  increment_retry_count to id r =
      let key = key_of to id in
      let next = get_retry_count to id r + 1 in
      (
        record r {
          retry_counts = counts.set key next r.retry_counts;
          cache = mark key next (messages.get key r.cache) r.cache;
        },
        next,
      )

  unfoldable pub has_exceeded_max_retries : Str → Str → MessageRetryManager → Bool
  has_exceeded_max_retries to id r = leb max_retry_count (get_retry_count to id r)

  unfoldable pub can_retry : Str → Str → MessageRetryManager → Bool
  can_retry to id r =
      not (has_exceeded_max_retries to id r) && is_there (messages.get (key_of to id) r.cache)

  unfoldable pub remove : Str → Str → MessageRetryManager → MessageRetryManager
  remove to id r =
      let key = key_of to id in
      record r {
        cache = messages.delete key r.cache;
        retry_counts = counts.delete key r.retry_counts;
      }

  abbrev pub clear : MessageRetryManager → MessageRetryManager
  clear r = record r {
    cache = messages.empty;
    retry_counts = counts.empty;
    session_recreate_ts = [];
    statistics = default_stats;
  }

  unfoldable pub should_recreate_session : Str → ℕ → Bool → ℕ → MessageRetryManager → Bool
  should_recreate_session jid retry_count has_session now r =
      if not has_session
      then true
      else if ltb retry_count 2
      then false
      else recreate_due now (lookup jid r.session_recreate_ts)

  abbrev pub record_session_recreate : Str → ℕ → MessageRetryManager → MessageRetryManager
  record_session_recreate jid now r = record r {
    session_recreate_ts = put jid now r.session_recreate_ts;
  }

  -- `true` when a timer is set, whose end is `phone_request_done`.
  abbrev pub schedule_phone_request : MessageRetryManager → MessageRetryManager × Bool
  schedule_phone_request r =
      if r.pending_phone_request
      then (r, false)
      else (record r { pending_phone_request = true }, true)

  abbrev pub phone_request_done : MessageRetryManager → MessageRetryManager
  phone_request_done r = record r { pending_phone_request = false }

abbrev pub track_success : RetryStatistics → RetryStatistics
track_success s = record s { total = s.total + 1; success = s.success + 1 }

abbrev pub track_fail : RetryStatistics → RetryStatistics
track_fail s = record s { total = s.total + 1; fail = s.fail + 1 }

abbrev pub track_media : RetryStatistics → RetryStatistics
track_media s = record s { total = s.total + 1; media = s.media + 1 }

abbrev pub track_session : RetryStatistics → RetryStatistics
track_session s = record s { total = s.total + 1; session = s.session + 1 }

abbrev pub track_phone : RetryStatistics → RetryStatistics
track_phone s = record s { total = s.total + 1; phone = s.phone + 1 }
