-- ===== src/Store/Memory.antt =====
-- src/store/memory.ts, over the types `C` of credentials and `V` of keys.
use nexawhats.Common.{
  ℕ, ◌+◌, ◌≡◌, refl, arith, if◌then◌else◌, Option, none, some, List, [], ◌∷◌, length, Option-cases,
  inl, inr,
}
use nexawhats.Common.Text.{Str, str_eq, str_eq_iff, includes}
use nexawhats.Common.Dict.{Dict, lookup, put, remove, lookup-put, lookup-remove}

-- `SignalDataSet`: for each type of key its entries, which may be missing; `none` is `null`.
abbrev pub DataSet {ℓ} : Type ℓ → Type ℓ
DataSet V = List (Str × Option (Dict (Option V)))

pub record MemoryAuthStore {ℓ} (C V : Type ℓ) : Type ℓ where
  pub creds : Option C
  pub keys : Dict (Dict V)

module _ {ℓ} {V : Type ℓ} where
  -- `keys.get(type)`, or the empty map that stands for a missing one.
  unfoldable pub bucket : Str → Dict (Dict V) → Dict V
  bucket type keys = elim (lookup type keys) [ none ↦ [] | some b ↦ b ]

  unfoldable pub collect : Dict V → List Str → Dict V → Dict V
  collect b [] result = result
  collect b (id ∷ ids) result =
      collect b ids (elim (lookup id b) [ none ↦ result | some v ↦ put id v result ])

  -- The inner loop of `setKeys`.
  unfoldable pub set_entries : Dict (Option V) → Dict V → Dict V
  set_entries [] b = b
  set_entries ((id, none) ∷ es) b = set_entries es (remove id b)
  set_entries ((id, some v) ∷ es) b = set_entries es (put id v b)

  unfoldable pub set_all : DataSet V → Dict (Dict V) → Dict (Dict V)
  set_all [] keys = keys
  set_all ((type, none) ∷ data') keys = set_all data' keys
  set_all ((type, some es) ∷ data') keys =
      set_all data' (put type (set_entries es (bucket type keys)) keys)

  key_count_from : Dict (Dict V) → ℕ
  key_count_from [] = 0
  key_count_from ((type, b) ∷ keys) = length b + key_count_from keys

  -- What a store promises: one value for each type and id.
  abbrev pub stored : Str → Str → Dict (Dict V) → Option V
  stored type id keys = lookup id (bucket type keys)

  -- The last thing that a data set says of an id, if it says anything.
  unfoldable pub last_entry : Str → Dict (Option V) → Option (Option V)
  last_entry id [] = none
  last_entry id ((j, v) ∷ es) = elim (last_entry id es) [
    | some w ↦ some w
    | none ↦ if str_eq j id then some v else none
  ]

  abbrev pub last_of : Str → Option (Dict (Option V)) → Option (Option V)
  last_of id none = none
  last_of id (some es) = last_entry id es

  unfoldable pub last_written : Str → Str → DataSet V → Option (Option V)
  last_written type id [] = none
  last_written type id ((t, es) ∷ data') = elim (last_written type id data') [
    | some w ↦ some w
    | none ↦ if str_eq t type then last_of id es else none
  ]

  abbrev pub or_before : Option (Option V) → Option V → Option V
  or_before none before = before
  or_before (some w) before = w

  lookup-set_entries :
      (id : Str) (es : Dict (Option V)) (b : Dict V)
      → lookup id (set_entries es b) ≡ or_before (last_entry id es) (lookup id b)
  unfolding set_entries last_entry
  lookup-set_entries id [] b = refl
  lookup-set_entries id ((j, none) ∷ es) b =
      ground (arith, lookup-set_entries id es (remove j b), lookup-remove j id b)
  lookup-set_entries id ((j, some v) ∷ es) b =
      ground (arith, lookup-set_entries id es (put j v b), lookup-put j id v b)

  stored-put :
      (t type id : Str) (b : Dict V) (keys : Dict (Dict V))
      → stored type id (put t b keys) ≡ (if str_eq t type then lookup id b else stored type id keys)
  unfolding bucket
  stored-put t type id b keys = ground (arith, lookup-put t type b keys)

  stored-set_all :
      (type id : Str) (data' : DataSet V) (keys : Dict (Dict V))
      → stored type id (set_all data' keys)
        ≡ or_before (last_written type id data') (stored type id keys)
  unfolding set_all last_written
  stored-set_all type id [] keys = refl
  stored-set_all type id ((t, none) ∷ data') keys =
      ground (arith, stored-set_all type id data' keys)
  stored-set_all type id ((t, some es) ∷ data') keys = ground (
    arith,
    stored-set_all type id data' (put t (set_entries es (bucket t keys)) keys),
    stored-put t type id (set_entries es (bucket t keys)) keys,
    lookup-set_entries id es (bucket t keys),
    str_eq_iff t type,
  )

  lookup-collect :
      (id : Str) (b : Dict V) (ids : List Str) (result : Dict V)
      → lookup id (collect b ids result) ≡ (
          if includes id ids
          then elim (lookup id b) [ none ↦ lookup id result | some v ↦ some v ]
          else lookup id result)
  unfolding collect includes
  lookup-collect id b [] result = refl
  lookup-collect id b (i ∷ ids) result = elim (Option-cases (lookup i b)) [
    | inl e ↦ ground (arith, e, lookup-collect id b ids result, str_eq_iff i id)
    | inr (v, e) ↦ ground (
      arith,
      e,
      lookup-collect id b ids (put i v result),
      lookup-put i id v result,
      str_eq_iff i id,
    )
  ]

module _ {ℓ} {C V : Type ℓ} where
  -- The credentials of the state; the rest of it are the methods themselves.
  abbrev load_state : MemoryAuthStore C V → Option C
  load_state s = s.creds

  abbrev save_creds : C → MemoryAuthStore C V → MemoryAuthStore C V
  save_creds creds s = record s { creds = some creds }

  unfoldable pub get_keys : Str → List Str → MemoryAuthStore C V → Dict V
  get_keys type ids s = elim (lookup type s.keys) [ none ↦ [] | some b ↦ collect b ids [] ]

  abbrev pub set_keys : DataSet V → MemoryAuthStore C V → MemoryAuthStore C V
  set_keys data' s = record s { keys = set_all data' s.keys }

  abbrev pub clear : MemoryAuthStore C V → MemoryAuthStore C V
  clear s = record { creds = none; keys = [] }

  abbrev key_count : MemoryAuthStore C V → ℕ
  key_count s = key_count_from s.keys

  -- What `getKeys` gives for an id, of those that are asked for, after `setKeys` is the last thing
  -- that the data say of it, where `null` is nothing, and what was stored before where they say
  -- nothing.
  pub get_keys-set_keys :
      (type id : Str) (ids : List Str) (data' : DataSet V) (s : MemoryAuthStore C V)
      → lookup id (get_keys type ids (set_keys data' s)) ≡ (
          if includes id ids
          then or_before (last_written type id data') (stored type id s.keys)
          else none)
  unfolding get_keys bucket lookup
  get_keys-set_keys type id ids data' s =
      go (lookup type (set_all data' s.keys)) refl (stored-set_all type id data' s.keys)
    where
      written : Option V
      written = or_before (last_written type id data') (stored type id s.keys)

      go :
          (o : Option (Dict V))
          → lookup type (set_all data' s.keys) ≡ o
          → lookup id (elim (lookup type (set_all data' s.keys)) [ none ↦ [] | some b ↦ b ])
            ≡ written
          → lookup id (elim o [ none ↦ [] | some b ↦ collect b ids [] ])
            ≡ (if includes id ids then written else none)
      go none e h = ground (arith, e, h)
      go (some b) e h = ground (arith, e, h, lookup-collect id b ids [])
