-- ===== src/Utils/Retry.antt =====
-- src/utils/retry.ts. Delays are whole numbers or, with jitter, fractions over `scale`, exact where
-- the source rounds to doubles.
use nexawhats.Common.{
  ℕ, zero, suc, ◌+◌, ◌-◌, ◌*◌, ◌^◌, ◌≤◌, ◌==◌, ==_iff, min, ◌≡◌, refl, ap, sym, ◌∙◌, arith,
  if◌then◌else◌, Bool, true, false, not, Option, none, some, List, [], ◌∷◌, length,
}
use nexawhats.Common.Text.{Str}

pub record RetryOptions {ℓ} (E : Type ℓ) : Type ℓ where
  pub max_attempts : ℕ
  pub base_delay : ℕ
  pub max_delay : ℕ
  pub multiplier : ℕ
  pub jitter : Bool
  pub should_retry : Option (E → ℕ → Bool)

abbrev pub default_options {ℓ} : {E : Type ℓ} → RetryOptions E
default_options = record {
  max_attempts = 3;
  base_delay = 1000;
  max_delay = 30000;
  multiplier = 2;
  jitter = true;
  should_retry = none;
}

-- `Math.random()` is a number over `2 ** 53`; half of it and of one are numbers over `scale`.
abbrev pub scale : ℕ
scale = 2 ^ 54

-- What `fn` or `sleep` does: it gives a value or throws.
pub data Result {ℓ κ} (E : Type ℓ) (T : Type κ) : Type (ℓ ⊔ κ) where
  ok : T → Result E T
  err : E → Result E T

-- A value that is thrown: an instance of `Error`, or another one.
pub data Thrown {ℓ κ} (E : Type ℓ) (V : Type κ) : Type (ℓ ⊔ κ) where
  error : E → Thrown E V
  other : V → Thrown E V

-- `String(v)`, which may throw, and `new Error(text)`.
pub record Conversions {ℓ κ} (E : Type ℓ) (V : Type κ) : Type (ℓ ⊔ κ) where
  pub text_of : V → Result (Thrown E V) Str
  pub new_error : Str → E

-- What `retry` does. It throws `undefined` when there was no attempt.
pub data Outcome {ℓ κ} (X : Type ℓ) (T : Type κ) : Type (ℓ ⊔ κ) where
  returned : T → Outcome X T
  thrown : Option X → Outcome X T

abbrev pub map_option {ℓ κ} : {A : Type ℓ} {B : Type κ} → (A → B) → Option A → Option B
map_option f none = none
map_option f (some a) = some (f a)

module _ {ℓ} {E : Type ℓ} where
  abbrev pub calculate_backoff : ℕ → ℕ → RetryOptions E → ℕ
  calculate_backoff attempt random o =
      let delay = min (o.base_delay * o.multiplier ^ attempt) o.max_delay in
      if o.jitter then delay * (2 ^ 53 + random) else delay * scale

  abbrev pub refuses : RetryOptions E → E → ℕ → Bool
  refuses o e attempt = elim o.should_retry [ none ↦ false | some f ↦ not (f e attempt) ]

module _ {ℓ κ} {E : Type ℓ} {V : Type κ} (conversions : Conversions E V) where
  -- `error instanceof Error ? error : new Error(String(error))`
  unfoldable pub as_error : Thrown E V → Result (Thrown E V) E
  as_error (error e) = ok e
  as_error (other v) = elim (conversions.text_of v) [
    | ok text ↦ ok (conversions.new_error text)
    | err reason ↦ err reason
  ]

-- `fn` and `sleep` by the number of the attempt, and the values of `Math.random()`.
module _ {ℓ κ μ} {E : Type ℓ} {V : Type κ} {T : Type μ} (conversions : Conversions E V)
    (fn : ℕ → Result (Thrown E V) T) (sleep : ℕ → ℕ → Result (Thrown E V) (Unit {0}))
    (random : ℕ → ℕ) (o : RetryOptions E) where
  -- After an attempt that threw `e`: what the rest of the loop gives comes behind the delay.
  unfoldable pub after_error :
      E → ℕ → Outcome (Thrown E V) T × List ℕ → Outcome (Thrown E V) T × List ℕ
  after_error e attempt rest =
      if attempt + 1 == o.max_attempts
      then (thrown (some (error e)), [])
      else if refuses o e attempt
      then (thrown (some (error e)), [])
      else elim (sleep attempt (calculate_backoff attempt (random attempt) o)) [
        | err reason ↦ (thrown (some reason), [])
        | ok _ ↦ (rest.0, calculate_backoff attempt (random attempt) o ∷ rest.1)
      ]

  -- The `catch`: what is thrown there ends the loop.
  unfoldable pub caught :
      Result (Thrown E V) E
      → ℕ
      → (E → Outcome (Thrown E V) T × List ℕ)
      → Outcome (Thrown E V) T × List ℕ
  caught (err reason) attempt rest = (thrown (some reason), [])
  caught (ok e) attempt rest = after_error e attempt (rest e)

  -- The loop for the attempts that are left, with the outcome and the delays that were waited for.
  unfoldable pub retry_from : ℕ → ℕ → Option E → Outcome (Thrown E V) T × List ℕ
  retry_from zero attempt last_error = (thrown (map_option error last_error), [])
  retry_from (suc left) attempt last_error = elim (fn attempt) [
    | ok t ↦ (returned t, [])
    | err x ↦ caught (as_error conversions x) attempt (λ e. retry_from left (attempt + 1) (some e))
  ]

  unfoldable pub retry : Outcome (Thrown E V) T × List ℕ
  retry = retry_from o.max_attempts 0 none

  -- The description of it: the first attempt that gives a value, or else the error of the last one.
  -- A value that cannot be converted ends it.
  unfoldable pub first_of : ℕ → ℕ → Option E → Outcome (Thrown E V) T
  first_of zero attempt last_error = thrown (map_option error last_error)
  first_of (suc left) attempt last_error = elim (fn attempt) [
    | ok t ↦ returned t
    | err x ↦ elim (as_error conversions x) [
      | ok e ↦ first_of left (attempt + 1) (some e)
      | err reason ↦ thrown (some reason)
    ]
  ]

  after_error-rest :
      (e : E) (attempt left : ℕ)
      → attempt + suc left ≡ o.max_attempts
      → refuses o e attempt ≡ false
      → ((d : ℕ) → sleep attempt d ≡ ok tt)
      → (rest : Outcome (Thrown E V) T × List ℕ) → ((left ≡ 0) → rest.0 ≡ thrown (some (error e)))
      → length rest.1 ≤ left - 1
      → ((after_error e attempt rest).0 ≡ rest.0) × (length (after_error e attempt rest).1 ≤ left)
  unfolding after_error
  after_error-rest e attempt left h never wakes rest last short =
      go (attempt + 1 == o.max_attempts) refl
    where
      d : ℕ
      d = calculate_backoff attempt (random attempt) o

      go :
          (b : Bool)
          → (attempt + 1 == o.max_attempts) ≡ b
          → ((after_error e attempt rest).0 ≡ rest.0)
            × (length (after_error e attempt rest).1 ≤ left)
      go true q =
          let done : left ≡ 0 = omega (arith, (==_iff (attempt + 1) o.max_attempts).0 q) in
          (rw q (sym (last done)), rw q (omega arith))
      go false q =
          let more : 1 ≤ left = ground (arith, q, h) in
          (rw (q, never, wakes d) refl, rw (q, never, wakes d) (omega arith))

  caught-first_of :
      (left attempt : ℕ)
      → attempt + suc left ≡ o.max_attempts
      → ((e : E) (n : ℕ) → refuses o e n ≡ false)
      → ((n d : ℕ) → sleep n d ≡ ok tt)
      → ((e : E)
          → ((retry_from left (attempt + 1) (some e)).0 ≡ first_of left (attempt + 1) (some e))
            × (length (retry_from left (attempt + 1) (some e)).1 ≤ left - 1))
      → (r : Result (Thrown E V) E)
      → let run = caught r attempt (λ e. retry_from left (attempt + 1) (some e)) in
        (run.0 ≡ elim r [
          | ok e ↦ first_of left (attempt + 1) (some e)
          | err reason ↦ thrown (some reason)
        ])
        × (length run.1 ≤ suc left - 1)
  unfolding caught retry_from
  caught-first_of left attempt h never wakes ih (err reason) = (refl, omega arith)
  caught-first_of left attempt h never wakes ih (ok e) =
      let rest = retry_from left (attempt + 1) (some e) in
      let (same, short) =
        after_error-rest e attempt left h (never e attempt) (wakes attempt) rest
          (λ z. (ih e).0 ∙ ends e left z) (ih e).1 in
      (same ∙ (ih e).0, omega (arith, short))
    where
      ends : (e : E) (n : ℕ) → n ≡ 0 → first_of n (attempt + 1) (some e) ≡ thrown (some (error e))
      ends e n z = ap (λ n. first_of n (attempt + 1) (some e)) z ∙ unfold first_of in refl

  retry_from-first_of :
      (left attempt : ℕ) (last : Option E)
      → attempt + left ≡ o.max_attempts
      → ((e : E) (n : ℕ) → refuses o e n ≡ false)
      → ((n d : ℕ) → sleep n d ≡ ok tt)
      → ((retry_from left attempt last).0 ≡ first_of left attempt last)
        × (length (retry_from left attempt last).1 ≤ left - 1)
  unfolding retry_from first_of
  retry_from-first_of zero attempt last h never wakes = (refl, omega arith)
  retry_from-first_of (suc left) attempt last h never wakes =
      go (fn attempt) λ e. retry_from-first_of left (attempt + 1) (some e) (omega arith) never wakes
    where
      go :
          (r : Result (Thrown E V) T)
          → ((e : E)
              → ((retry_from left (attempt + 1) (some e)).0 ≡ first_of left (attempt + 1) (some e))
                × (length (retry_from left (attempt + 1) (some e)).1 ≤ left - 1))
          → let run : Outcome (Thrown E V) T × List ℕ = elim r [
            | ok t ↦ (returned t, [])
            | err x ↦
                caught
                  (as_error conversions x)
                  attempt
                  (λ e. retry_from left (attempt + 1) (some e))
          ] in
            (run.0 ≡ elim r [
              | ok t ↦ returned t
              | err x ↦ elim (as_error conversions x) [
                | ok e ↦ first_of left (attempt + 1) (some e)
                | err reason ↦ thrown (some reason)
              ]
            ])
            × (length run.1 ≤ suc left - 1)
      go (ok t) ih = (refl, omega arith)
      go (err x) ih = caught-first_of left attempt h never wakes ih (as_error conversions x)

  -- Where no error is refused and no delay aborted, `retry` gives what the first attempt that gives
  -- anything gives, of `maxAttempts`, and throws the error of the last one when all fail. A thrown
  -- value that is no `Error` counts as a new `Error` of its text, and ends the loop if it has none. It
  -- waits at most `maxAttempts - 1` times.
  pub retry-first_of :
      ((e : E) (n : ℕ) → refuses o e n ≡ false)
      → ((n d : ℕ) → sleep n d ≡ ok tt)
      → (retry.0 ≡ first_of o.max_attempts 0 none) × (length retry.1 ≤ o.max_attempts - 1)
  unfolding retry
  retry-first_of never wakes = retry_from-first_of o.max_attempts 0 none (omega arith) never wakes
