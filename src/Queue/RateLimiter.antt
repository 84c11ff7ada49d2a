-- ===== src/Queue/RateLimiter.antt =====
-- src/queue/rate-limiter.ts. Tokens are counted in parts, of which `unit` make one: a millisecond
-- refills `maxTokens` parts. The source has the same numbers as fractions, rounded to doubles. When the
-- clock has gone back the number falls, below zero, too: it is `tokens` less `owed`, of which one is 0.
use nexawhats.Common.{
  ℕ, zero, suc, ◌+◌, ◌-◌, ◌*◌, ◌/◌, ◌≤◌, min, max, leb, ◌≡◌, refl, ap, subst, ◌∙◌, arith,
  if◌then◌else◌, Bool, true, false, List, [], ◌∷◌,
}

abbrev pub unit : ℕ
unit = 60000

pub record RateLimiter : Type 0 where
  pub tokens : ℕ
  pub owed : ℕ
  pub last_refill : ℕ
  pub max_tokens : ℕ
  pub human_like_timing : Bool

-- The constructor, with the time of the call.
abbrev pub make : ℕ → Bool → ℕ → RateLimiter
make messages_per_minute human_like_timing now = record {
  tokens = messages_per_minute * unit;
  owed = 0;
  last_refill = now;
  max_tokens = messages_per_minute;
  human_like_timing = human_like_timing;
}

unfoldable pub refill : ℕ → RateLimiter → RateLimiter
refill now r =
    let gained = r.tokens + (now - r.last_refill) * r.max_tokens in
    let lost = r.owed + (r.last_refill - now) * r.max_tokens in
    record r {
      tokens = min (r.max_tokens * unit) (gained - lost);
      owed = lost - gained;
      last_refill = now;
    }

abbrev can_acquire : ℕ → RateLimiter → RateLimiter × Bool
can_acquire now r = let r' = refill now r in (r', leb unit r'.tokens)

unfoldable pub try_acquire : ℕ → RateLimiter → RateLimiter × Bool
try_acquire now r =
    let r' = refill now r in
    if leb unit r'.tokens then (record r' { tokens = r'.tokens - unit }, true) else (r', false)

-- `Math.ceil(1 / this.refillRate)`, and the time of a round of `acquire`. With no tokens at all the
-- rate is zero and the quotient infinite.
unfoldable pub wait_ms : ℕ → ℕ
wait_ms max_tokens =
    if leb 1 max_tokens then min ((unit + (max_tokens - 1)) / max_tokens) 1000 else 1000

-- The loop of `acquire` without a signal, on fuel; each timer ends when it is due. The third part
-- says whether a token was acquired, the second is the time then.
pub acquire_from : ℕ → ℕ → RateLimiter → RateLimiter × ℕ × Bool
acquire_from zero now r = (r, now, false)
acquire_from (suc fuel) now r = elim (try_acquire now r).1 [
  | true ↦ ((try_acquire now r).0, now, true)
  | false ↦ acquire_from fuel (now + wait_ms r.max_tokens) (try_acquire now r).0
]

-- `Math.ceil((1 - this.tokens) / this.refillRate)`
abbrev time_until_available : ℕ → RateLimiter → RateLimiter × ℕ
time_until_available now r =
    let r' = refill now r in
    (
      r',
      if leb unit r'.tokens
          then 0
          else (unit + r'.owed - r'.tokens + (r'.max_tokens - 1)) / r'.max_tokens,
    )

-- `Math.floor(this.tokens)`, as what it is above zero and below.
abbrev available_tokens : ℕ → RateLimiter → RateLimiter × ℕ × ℕ
available_tokens now r =
    let r' = refill now r in (r', r'.tokens / unit, (r'.owed + (unit - 1)) / unit)

-- The bounds of `gaussianDelay`, whose value before is a parameter.
abbrev clamp_delay : ℕ → ℕ
clamp_delay delay = max 500 (min 5000 delay)

-- Calls of `tryAcquire` at the times of a list: the state at the end and the number of tokens.
unfoldable pub attempts : List ℕ → RateLimiter → RateLimiter × ℕ
attempts [] r = (r, 0)
attempts (now ∷ ts) r =
    let (r', got) = try_acquire now r in
    let (r'', n) = attempts ts r' in (r'', if got then suc n else n)

-- The times do not go back, and the last of them.
abbrev Ordered : ℕ → List ℕ → Type 0
Ordered t [] = Unit
Ordered t (now ∷ ts) = (t ≤ now) × Ordered now ts

abbrev pub last_time : ℕ → List ℕ → ℕ
last_time t [] = t
last_time t (now ∷ ts) = last_time now ts

try_acquire-paid :
    (now : ℕ) (r : RateLimiter)
    → let q = try_acquire now r in
      (q.0.tokens + (if q.1 then unit else 0) ≤ r.tokens + (now - r.last_refill) * r.max_tokens)
      × (q.0.last_refill ≡ now)
      × (q.0.max_tokens ≡ r.max_tokens)
unfolding try_acquire refill
try_acquire-paid now r = ground arith

last_time-le : (t : ℕ) (ts : List ℕ) → Ordered t ts → t ≤ last_time t ts
last_time-le t [] h = omega arith
last_time-le t (now ∷ ts) (at, later) = omega (arith, last_time-le now ts later)

two_spans : (a b m : ℕ) → a * m + b * m ≡ (a + b) * m
two_spans a b m = grind arith

attempts-paid :
    (ts : List ℕ) (r : RateLimiter) (t m : ℕ)
    → r.last_refill ≡ t
    → r.max_tokens ≡ m
    → Ordered t ts
    → (attempts ts r).1 * unit ≤ r.tokens + (last_time t ts - t) * m
unfolding attempts
attempts-paid [] r t m e k h = omega arith
attempts-paid (now ∷ ts) r t m e k (at, later) =
    let (paid, last, same) = try_acquire-paid now r in
    let ih = attempts-paid ts (try_acquire now r).0 now m last (same ∙ k) later in
    go (try_acquire now r).1 (attempts ts (try_acquire now r).0).1
      (subst
        (λ x.
          (try_acquire now r).0.tokens + (if (try_acquire now r).1 then unit else 0)
          ≤ r.tokens + (now - x) * m)
        e
        (subst
          (λ x.
            (try_acquire now r).0.tokens + (if (try_acquire now r).1 then unit else 0)
            ≤ r.tokens + (now - r.last_refill) * x)
          k paid))
      ih (two_spans (now - t) (last_time now ts - now) m)
  where
    spans : (now - t) + (last_time now ts - now) ≡ last_time now ts - t
    spans = omega (arith, last_time-le now ts later)

    go :
        (b : Bool) (n : ℕ)
        → (try_acquire now r).0.tokens + (if b then unit else 0) ≤ r.tokens + (now - t) * m
        → n * unit ≤ (try_acquire now r).0.tokens + (last_time now ts - now) * m
        → (now - t) * m + (last_time now ts - now) * m ≡ ((now - t) + (last_time now ts - now)) * m
        → (if b then suc n else n) * unit ≤ r.tokens + (last_time now ts - t) * m
    go true n p q d = omega (arith, p, q, d, ap (λ x. x * m) spans)
    go false n p q d = omega (arith, p, q, d, ap (λ x. x * m) spans)

-- However often `tryAcquire` is called on a new limiter, in a time that does not go back, it gives
-- no more tokens than `messagesPerMinute` and the share of the time that has passed, at
-- `messagesPerMinute` for a minute.
pub attempts-bound :
    (messages_per_minute start : ℕ) (human : Bool) (ts : List ℕ)
    → Ordered start ts
    → (attempts ts (make messages_per_minute human start)).1 * unit
      ≤ messages_per_minute * unit + (last_time start ts - start) * messages_per_minute
attempts-bound messages_per_minute start human ts h =
    attempts-paid ts (make messages_per_minute human start) start messages_per_minute refl refl h
