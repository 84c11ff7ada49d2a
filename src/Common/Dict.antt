-- ===== src/Common/Dict.antt =====
-- `Map` and plain objects with string keys: the entries in the order of insertion. (An object puts
-- keys that spell a number below 2^32 - 1 before the others.)
use mathlib.Core.Path.{◌≡◌, refl}
use mathlib.Core.Logic.{◌≢◌}
use mathlib.Core.Option.{Option, none, some}
use mathlib.Core.List.{List, [], ◌∷◌}
use native.Mathlib.Omega.{arith}
use nexawhats.Common.Tests.{if◌then◌else◌}
use nexawhats.Common.Text.{Str, str_eq, str_eq_iff, str_eq_refl}

abbrev pub Dict {ℓ} : Type ℓ → Type ℓ
Dict V = List (Str × V)

module _ {ℓ} {V : Type ℓ} where
  unfoldable pub lookup : Str → Dict V → Option V
  lookup k [] = none
  lookup k ((j, v) ∷ d) = if str_eq j k then some v else lookup k d

  -- `d.set(k, v)` or `d[k] = v`: a key that is there keeps its place.
  unfoldable pub put : Str → V → Dict V → Dict V
  put k v [] = (k, v) ∷ []
  put k v ((j, w) ∷ d) = let rest = put k v d in if str_eq j k then (j, v) ∷ d else (j, w) ∷ rest

  -- `d.delete(k)`; a key stands in one entry at most.
  unfoldable pub remove : Str → Dict V → Dict V
  remove k [] = []
  remove k ((j, w) ∷ d) = let rest = remove k d in if str_eq j k then rest else (j, w) ∷ rest

  -- `Object.assign(d, e)`
  unfoldable pub assign : Dict V → Dict V → Dict V
  assign d [] = d
  assign d ((k, v) ∷ e) = assign (put k v d) e

  pub lookup-put :
      (k j : Str) (v : V) (d : Dict V)
      → lookup j (put k v d) ≡ (if str_eq k j then some v else lookup j d)
  unfolding lookup put
  lookup-put k j v [] = refl
  lookup-put k j v ((i, w) ∷ d) =
      ground (arith, lookup-put k j v d, str_eq_iff i k, str_eq_iff i j, str_eq_iff k j)

  pub lookup-remove :
      (k j : Str) (d : Dict V) → lookup j (remove k d) ≡ (if str_eq k j then none else lookup j d)
  unfolding lookup remove
  lookup-remove k j [] = ground arith
  lookup-remove k j ((i, w) ∷ d) =
      ground (arith, lookup-remove k j d, str_eq_iff i k, str_eq_iff i j, str_eq_iff k j)

  pub lookup-put_same : (k : Str) (v : V) (d : Dict V) → lookup k (put k v d) ≡ some v
  lookup-put_same k v d = ground (arith, lookup-put k k v d, str_eq_refl k)

  -- An entry under another key.
  pub lookup-put_other :
      (k j : Str) (v : V) (d : Dict V) → k ≢ j → lookup j (put k v d) ≡ lookup j d
  lookup-put_other k j v d h = ground (arith, lookup-put k j v d, str_eq_iff k j, h)

  pub lookup-remove_other : (k j : Str) (d : Dict V) → k ≢ j → lookup j (remove k d) ≡ lookup j d
  lookup-remove_other k j d h = ground (arith, lookup-remove k j d, str_eq_iff k j, h)
