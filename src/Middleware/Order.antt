-- ===== src/Middleware/Order.antt =====
-- The order in which the middlewares run, and what calls of `next` get through.
use nexawhats.Common.{
  Option, none, some, ◌++◌, sym, append-nil, append_assoc, ℕ, ◌+◌, ◌≤◌, ◌≡◌, refl, ap, ◌∙◌, arith,
  leb, if◌then◌else◌, Bool, true, false, List, [], ◌∷◌, map, length,
}
use nexawhats.Middleware.{
  Result, ok, err, Middleware, finish, update, call_next, Progress, dispatch, run, execute, enter,
  entered, MiddlewarePipeline, use_middleware, use_all, empty,
}

enter-some : (i index : ℕ) → index ≤ i → enter i index ≡ some (i + 1)
unfolding enter
enter-some i index h = ground arith

-- Each number is `low` at least and less than the next one.
abbrev pub Rising : ℕ → List ℕ → Type 0
Rising low [] = Unit
Rising low (i ∷ is) = (low ≤ i) × Rising (i + 1) is

-- Whatever calls of `dispatch` an execution makes, in whatever order, awaited or not, the ones that
-- get through the guard have rising indexes: no middleware starts twice, and none after a later one.
pub entered-Rising : (index : ℕ) (is : List ℕ) → Rising index (entered index is)
unfolding entered enter
entered-Rising index [] = tt
entered-Rising index (i ∷ is) =
    go (leb index i) refl (entered-Rising index is) (entered-Rising (i + 1) is)
  where
    go :
        (b : Bool)
        → leb index i ≡ b
        → Rising index (entered index is)
        → Rising (i + 1) (entered (i + 1) is)
        → let guard : Option ℕ = if b then some (i + 1) else none in
          Rising index (elim guard [ none ↦ entered index is | some next ↦ i ∷ entered next is ])
    go true e h k = (ground (arith, e), k)
    go false e h k = h

module _ {ℓ} {S : Type ℓ} where
  -- A middleware that changes the context, awaits the rest of the pipeline and changes it again.
  abbrev then_after : (S → S) → Result → Middleware S
  then_after g ok = update g (finish ok)
  then_after g (err e) = finish (err e)

  abbrev pub layer : (S → S) × (S → S) → Middleware S
  layer (f, g) = update f (call_next (then_after g))

  -- The first part of each in order, and the second ones backwards.
  unfoldable pub onion : List ((S → S) × (S → S)) → S → S
  onion [] s = s
  onion ((f, g) ∷ ls) s = g (onion ls (f s))

  dispatch_first :
      (m : Middleware S) (ms : List (Middleware S)) (i index : ℕ) (ctx : S)
      → index ≤ i
      → dispatch (m ∷ ms) i ctx index ≡ run (dispatch ms (i + 1)) m ctx (i + 1)
  unfolding dispatch
  dispatch_first m ms i index ctx h = rw (enter-some i index h, dispatch) refl

  dispatch-layers :
      (ls : List ((S → S) × (S → S))) (i : ℕ) (ctx : S)
      → dispatch (map layer ls) i ctx i
        ≡ record { ctx = onion ls ctx; index = i + length ls + 1; result = ok }
  unfolding dispatch onion run
  dispatch-layers [] i ctx =
      rw (enter-some i i (omega arith), dispatch)
        (ap (λ n. record { ctx = ctx; index = n; result = ok }) (omega arith))
  dispatch-layers ((f, g) ∷ ls) i ctx =
      dispatch_first (layer (f, g)) (map layer ls) i i ctx (omega arith)
      ∙ ap after (dispatch-layers ls (i + 1) (f ctx))
      ∙ ap (λ n. record { ctx = g (onion ls (f ctx)); index = n; result = ok }) (omega arith)
    where
      after : Progress S → Progress S
      after p = run (dispatch (map layer ls) (i + 1)) (then_after g p.result) p.ctx p.index

  use_all-stack :
      (ms : List (Middleware S)) (p : MiddlewarePipeline S) → (use_all ms p).stack ≡ p.stack ++ ms
  unfolding use_all
  use_all-stack [] p = sym (append-nil p.stack)
  use_all-stack (m ∷ ms) p =
      use_all-stack ms (use_middleware m p) ∙ append_assoc p.stack (m ∷ []) ms

  -- Middlewares that change the context, await the rest and change it again run like an onion: their
  -- first parts in the order of `use`, and their second parts in the opposite order.
  pub execute-layers :
      (ls : List ((S → S) × (S → S))) (ctx : S)
      → execute (use_all (map layer ls) empty) ctx
        ≡ record { ctx = onion ls ctx; index = length ls + 1; result = ok }
  unfolding execute
  execute-layers ls ctx =
      ap (λ ms. dispatch ms 0 ctx 0) (use_all-stack (map layer ls) empty)
      ∙ dispatch-layers ls 0 ctx
      ∙ ap (λ n. record { ctx = onion ls ctx; index = n; result = ok }) (omega arith)
