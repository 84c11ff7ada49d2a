-- ===== src/Socket/CircuitBreaker.antt =====
-- src/socket/circuit-breaker.ts: it opens after failures, and after a while lets requests through until one fails.
use nexawhats.Common.{
  ℕ, suc, ◌+◌, ◌-◌, ◌*◌, ◌^◌, ◌≤◌, ◌≡◌, refl, sym, ap, subst, ◌∙◌, arith, min, ltb, leb, Bool, true,
  false, ◌&&◌, ◌||◌, if◌then◌else◌, List, [], ◌∷◌, ◌++◌, length,
}

pub data CircuitBreakerState : Type 0 where
  closed open_state half_open : CircuitBreakerState

pub record Config : Type 0 where
  pub failure_threshold : ℕ
  pub failure_window : ℕ
  pub cooldown_ms : ℕ
  pub max_cooldown_ms : ℕ

abbrev pub default_config : Config
default_config = record {
  failure_threshold = 3;
  failure_window = 60000;
  cooldown_ms = 30000;
  max_cooldown_ms = 300000;
}

pub record Breaker : Type 0 where
  pub state : CircuitBreakerState
  pub failures : List ℕ
  pub cooldown : ℕ
  pub opened_at : ℕ
  pub consecutive_trips : ℕ

abbrev pub is_open : CircuitBreakerState → Bool
is_open open_state = true
is_open _ = false

abbrev pub is_half_open : CircuitBreakerState → Bool
is_half_open half_open = true
is_half_open _ = false

abbrev pub with_state : CircuitBreakerState → Breaker → Breaker
with_state s b = record {
  state = s;
  failures = b.failures;
  cooldown = b.cooldown;
  opened_at = b.opened_at;
  consecutive_trips = b.consecutive_trips;
}

-- Failures in the window that ends now.
recent : ℕ → ℕ → List ℕ → List ℕ
recent window now [] = []
recent window now (t ∷ ts) =
    let rest = recent window now ts in if ltb (now - t) window then t ∷ rest else rest

module _ (c : Config) where
  abbrev pub initial : Breaker
  initial = record {
    state = closed;
    failures = [];
    cooldown = c.cooldown_ms;
    opened_at = 0;
    consecutive_trips = 0;
  }

  -- The getter `state`, which moves from open to half-open when the cooldown is over.
  pub refresh : ℕ → Breaker → Breaker
  refresh now b =
      if is_open b.state && leb b.cooldown (now - b.opened_at) then with_state half_open b else b

  -- `isAllowed`
  abbrev pub is_allowed : ℕ → Breaker → Bool
  is_allowed now b = elim (refresh now b).state [ open_state ↦ false | _ ↦ true ]

  cooldown_remaining_ms : ℕ → Breaker → ℕ
  cooldown_remaining_ms now b = if is_open b.state then b.cooldown - (now - b.opened_at) else 0

  pub trip : ℕ → Breaker → Breaker
  trip now b = record {
    state = open_state;
    failures = b.failures;
    cooldown = min (c.cooldown_ms * 2 ^ b.consecutive_trips) c.max_cooldown_ms;
    opened_at = now;
    consecutive_trips = b.consecutive_trips + 1;
  }

  abbrev with_failures : List ℕ → Breaker → Breaker
  with_failures ts b = record {
    state = b.state;
    failures = ts;
    cooldown = b.cooldown;
    opened_at = b.opened_at;
    consecutive_trips = b.consecutive_trips;
  }

  pub record_failure : ℕ → Breaker → Breaker
  record_failure now b =
      let ts = recent c.failure_window now b.failures ++ (now ∷ []) in
      if is_half_open b.state || leb c.failure_threshold (length ts)
      then trip now (with_failures ts b)
      else with_failures ts b

  abbrev pub reset : Breaker → Breaker
  reset b = record {
    state = closed;
    failures = [];
    cooldown = c.cooldown_ms;
    opened_at = b.opened_at;
    consecutive_trips = 0;
  }

  abbrev pub record_success : Breaker → Breaker
  record_success b = reset b

module _ (c : Config) where
  -- A client that finds the breaker half-open tries, and fails.
  abbrev pub probe : ℕ → Breaker → Breaker
  probe now b = record_failure c now (refresh c now b)

  pub probes : List ℕ → Breaker → Breaker
  probes [] b = b
  probes (now ∷ ts) b = probes ts (probe now b)

  -- Each probe comes when the cooldown of the trip before it is over; `k` trips came before.
  abbrev Due : ℕ → ℕ → List ℕ → Type 0
  Due k opened [] = Unit
  Due k opened (now ∷ ts) =
      (min (c.cooldown_ms * 2 ^ k) c.max_cooldown_ms ≤ now - opened) × Due (k + 1) now ts

  -- The time of the last probe, or of the trip before them.
  abbrev pub last_trip : ℕ → List ℕ → ℕ
  last_trip opened [] = opened
  last_trip opened (now ∷ ts) = last_trip now ts

  pub record Tripped (k : ℕ) (b : Breaker) : Type 0 where
    pub state : b.state ≡ open_state
    pub cooldown : b.cooldown ≡ min (c.cooldown_ms * 2 ^ k) c.max_cooldown_ms
    pub trips : b.consecutive_trips ≡ k + 1

  refresh-half_open :
      (now : ℕ) (b : Breaker)
      → b.state ≡ open_state
      → b.cooldown ≤ now - b.opened_at
      → refresh c now b ≡ with_state half_open b
  unfolding refresh
  refresh-half_open now b h due =
      go (is_open b.state) (leb b.cooldown (now - b.opened_at)) (ap is_open h) (ground arith)
    where
      go :
          (x y : Bool)
          → x ≡ true
          → y ≡ true
          → (if x && y then with_state half_open b else b) ≡ with_state half_open b
      go true true e f = refl
      go true false e f = cc
      go false y e f = cc

  probe-Tripped :
      (k now : ℕ) (b : Breaker)
      → Tripped k b
      → min (c.cooldown_ms * 2 ^ k) c.max_cooldown_ms ≤ now - b.opened_at
      → Tripped (k + 1) (probe now b) × ((probe now b).opened_at ≡ now)
  unfolding record_failure trip
  probe-Tripped k now b h due =
      subst
        (λ r. Tripped (k + 1) (record_failure c now r) × ((record_failure c now r).opened_at ≡ now))
        (sym (refresh-half_open now b h.state (omega (arith, h.cooldown, due))))
        (
          record {
            state = refl;
            cooldown = ap (λ n. min (c.cooldown_ms * 2 ^ n) c.max_cooldown_ms) h.trips;
            trips = ap (λ n. n + 1) h.trips;
          },
          refl,
        )

  probes-Tripped :
      (ts : List ℕ) (k : ℕ) (b : Breaker)
      → Tripped k b
      → Due k b.opened_at ts
      → Tripped (k + length ts) (probes ts b) × ((probes ts b).opened_at ≡ last_trip b.opened_at ts)
  unfolding probes
  probes-Tripped [] k b h due =
      let e : k ≡ k + 0 = omega arith in (subst (λ n. Tripped n b) e h, refl)
  probes-Tripped (now ∷ ts) k b h (first, due) =
      let (next, at) = probe-Tripped k now b h first in
      let e : k + 1 + length ts ≡ k + suc (length ts) = omega arith in
      let (tripped, opened) =
        probes-Tripped ts (k + 1) (probe now b) next (subst (λ o. Due (k + 1) o ts) (sym at) due) in
      (
        subst (λ n. Tripped n (probes ts (probe now b))) e tripped,
        opened ∙ ap (λ o. last_trip o ts) at,
      )

  is_allowed-open :
      (later : ℕ) (b : Breaker)
      → b.state ≡ open_state
      → is_allowed c later b ≡ leb b.cooldown (later - b.opened_at)
  unfolding refresh
  is_allowed-open later b e = go b.state (leb b.cooldown (later - b.opened_at)) refl e
    where
      go :
          (s : CircuitBreakerState) (over : Bool)
          → b.state ≡ s
          → s ≡ open_state
          → elim (if is_open s && over then with_state half_open b else b).state [
            | open_state ↦ false
            | _ ↦ true
          ]
            ≡ over
      go open_state true f g = refl
      go open_state false f g = rw f refl
      go closed over f g = cc
      go half_open over f g = cc

  -- After the first trip, each probe that comes when the cooldown is over and fails doubles the
  -- cooldown, up to the largest one: after `n` such probes the cooldown is `cooldownMs * 2 ** n` or
  -- the largest one, and a later request is allowed if and only if that time has passed since the
  -- last of the probes, or since the first trip where there is none.
  pub is_allowed-probes :
      (first later : ℕ) (ts : List ℕ)
      → Due 0 first ts
      → let b = probes ts (trip c first (initial c)) in
        (b.cooldown ≡ min (c.cooldown_ms * 2 ^ length ts) c.max_cooldown_ms)
        × (is_allowed c later b
            ≡ leb
                (min (c.cooldown_ms * 2 ^ length ts) c.max_cooldown_ms)
                (later - last_trip first ts))
  is_allowed-probes first later ts due =
      let (h, opened) =
        probes-Tripped ts 0 (trip c first (initial c)) tripped (unfold trip in due) in
      let cooldown =
        h.cooldown
        ∙ ap (λ n. min (c.cooldown_ms * 2 ^ n) c.max_cooldown_ms) (zero_add (length ts)) in
      (
        cooldown,
        is_allowed-open later (probes ts (trip c first (initial c))) h.state
            ∙ ap2_leb cooldown (opened ∙ ap (λ o. last_trip o ts) at_first),
      )
    where
      ap2_leb : {a b t u : ℕ} → a ≡ b → t ≡ u → leb a (later - t) ≡ leb b (later - u)
      ap2_leb {a} {b} {t} {u} e f = ap (λ x. leb x (later - t)) e ∙ ap (λ x. leb b (later - x)) f

      at_first : (trip c first (initial c)).opened_at ≡ first
      at_first = unfold trip in refl

      zero_add : (n : ℕ) → 0 + n ≡ n
      zero_add n = omega arith

      tripped : Tripped 0 (trip c first (initial c))
      tripped = unfold trip in record { state = refl; cooldown = refl; trips = refl }
