-- ===== src/Middleware.antt =====
-- src/middleware/index.ts: the pipeline. A middleware is what it does to the context, of type `S`,
-- with the calls of `next()` that it awaits: `run`, `dispatch` and `execute` are for middlewares that
-- await each call before they go on. The guard, `enter`, is for calls of any kind.
pub mod Order
pub mod Tests
use nexawhats.Common.{
  ℕ, zero, suc, ◌+◌, ◌<◌, leb, if◌then◌else◌, Bool, true, false, Option, none, some, List, [], ◌∷◌,
  ◌++◌, length,
}

-- The errors: that of the pipeline, and those of the middlewares themselves.
pub data Error : Type 0 where
  next_called_multiple_times : Error
  own : ℕ → Error

pub data Result : Type 0 where
  ok : Result
  err : Error → Result

-- A middleware changes the context, calls `next` and goes on with what that gives, returns or
-- throws.
pub data Middleware {ℓ} (S : Type ℓ) : Type ℓ where
  finish : Result → Middleware S
  update : (S → S) → Middleware S → Middleware S
  call_next : (Result → Middleware S) → Middleware S

-- `stack`
pub record MiddlewarePipeline {ℓ} (S : Type ℓ) : Type ℓ where
  pub stack : List (Middleware S)

-- The context, the variable `index` of `compose` as the number of calls of `dispatch` that got
-- through, and the outcome.
pub record Progress {ℓ} (S : Type ℓ) : Type ℓ where
  pub ctx : S
  pub index : ℕ
  pub result : Result

-- What `dispatch(i)` does before it starts a middleware: `none` when it throws, or else the new
-- `index`. Nothing is awaited in between. With `index` counting from -1, `i <= index` is that `i` is
-- less than the count.
unfoldable pub enter : ℕ → ℕ → Option ℕ
enter i index = if leb index i then some (i + 1) else none

-- The calls of `dispatch` that get through, of those that an execution makes. A middleware may call
-- `next` at any time and need not await it, so that they come in any order.
unfoldable pub entered : ℕ → List ℕ → List ℕ
entered index [] = []
entered index (i ∷ is) =
    let rest = entered index is in
    elim (enter i index) [ none ↦ rest | some index' ↦ i ∷ entered index' is ]

module _ {ℓ} {S : Type ℓ} where
  abbrev pub empty : MiddlewarePipeline S
  empty = record { stack = [] }

  abbrev pub use_middleware : Middleware S → MiddlewarePipeline S → MiddlewarePipeline S
  use_middleware m p = record { stack = p.stack ++ (m ∷ []) }

  -- `use` of each of them.
  unfoldable pub use_all : List (Middleware S) → MiddlewarePipeline S → MiddlewarePipeline S
  use_all [] p = p
  use_all (m ∷ ms) p = use_all ms (use_middleware m p)

  abbrev pub size : MiddlewarePipeline S → ℕ
  size p = length p.stack

  -- `fn(ctx, next)`: the body of a middleware, with the closure that it is given.
  unfoldable pub run : (S → ℕ → Progress S) → Middleware S → S → ℕ → Progress S
  run next (finish r) ctx index = record { ctx = ctx; index = index; result = r }
  run next (update f m) ctx index = run next m (f ctx) index
  run next (call_next k) ctx index =
      let inner = next ctx index in run next (k inner.result) inner.ctx inner.index

  -- `dispatch(i)` for the middlewares from `i` on.
  unfoldable pub dispatch : List (Middleware S) → ℕ → S → ℕ → Progress S
  dispatch [] i ctx index = elim (enter i index) [
    | none ↦ record { ctx = ctx; index = index; result = err next_called_multiple_times }
    | some index' ↦ record { ctx = ctx; index = index'; result = ok }
  ]
  dispatch (m ∷ ms) i ctx index = elim (enter i index) [
    | none ↦ record { ctx = ctx; index = index; result = err next_called_multiple_times }
    | some index' ↦ run (dispatch ms (i + 1)) m ctx index'
  ]

  -- `execute`
  unfoldable pub execute : MiddlewarePipeline S → S → Progress S
  execute p ctx = dispatch p.stack 0 ctx 0
