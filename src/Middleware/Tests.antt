-- ===== src/Middleware/Tests.antt =====
-- Runs of the pipeline, over a log.
use nexawhats.Common.{ℕ, ◌+◌, ◌≡◌, refl, List, [], ◌∷◌, ◌++◌, map, length}
use nexawhats.Middleware.{
  ok, err, next_called_multiple_times, Middleware, finish, update, call_next, dispatch, run,
  execute, use_all, empty, enter, entered,
}
use nexawhats.Middleware.Order.{layer, onion, Rising, entered-Rising, execute-layers}

abbrev log : ℕ → List ℕ → List ℕ
log n l = l ++ (n ∷ [])

abbrev two_layers : List ((List ℕ → List ℕ) × (List ℕ → List ℕ))
two_layers = (log 1, log 4) ∷ (log 2, log 3) ∷ []

in_order : onion two_layers [] ≡ 1 ∷ 2 ∷ 3 ∷ 4 ∷ []
unfolding onion
in_order = refl

execute-layers_example :
    execute (use_all (map layer two_layers) empty) []
    ≡ record { ctx = onion two_layers []; index = length two_layers + 1; result = ok }
execute-layers_example = execute-layers two_layers []

-- A middleware that calls `next` twice, and one behind it.
abbrev twice : Middleware (List ℕ)
twice = call_next λ r. call_next finish

abbrev behind : List (Middleware (List ℕ))
behind = update (log 7) (finish ok) ∷ []

fails :
    execute (record { stack = twice ∷ behind }) []
    ≡ record { ctx = 7 ∷ []; index = 2; result = err next_called_multiple_times }
unfolding execute dispatch enter run
fails = refl

-- Calls of `next` by two middlewares, of which each calls it twice.
entered-Rising_example : Rising 0 (entered 0 (0 ∷ 1 ∷ 1 ∷ 2 ∷ 1 ∷ 2 ∷ []))
entered-Rising_example = entered-Rising 0 (0 ∷ 1 ∷ 1 ∷ 2 ∷ 1 ∷ 2 ∷ [])

all_entered : entered 0 (0 ∷ 1 ∷ 1 ∷ 2 ∷ 1 ∷ 2 ∷ []) ≡ 0 ∷ 1 ∷ 2 ∷ []
unfolding entered enter
all_entered = refl
