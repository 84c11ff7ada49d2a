-- ===== src/Utils/PreKeyManager.antt =====
-- The class of src/utils/pre-key-manager.ts, over the type `V` of keys. The queue of a type runs one
-- operation after the other, and `get` is that of the store.
use nexawhats.Common.{if◌then◌else◌, Bool, true, false, Option, none, some, List, [], ◌∷◌}
use nexawhats.Common.Text.{Str}
use nexawhats.Common.Dict.{Dict, lookup, put, remove, assign}

abbrev pub is_there {ℓ} : {V : Type ℓ} → Option V → Bool
is_there none = false
is_there (some v) = true

-- `SignalDataSet`, with the types that are there; `none` is `null`.
abbrev pub Data {ℓ} : Type ℓ → Type ℓ
Data V = Dict (Dict (Option V))

unfoldable pub valid_ids : (Str → Bool) → List Str → List Str
valid_ids exists [] = []
valid_ids exists (id ∷ ids) =
    let rest = valid_ids exists ids in if exists id then id ∷ rest else rest

module _ {ℓ} {V : Type ℓ} where
  -- `data[keyType] ?? {}`
  unfoldable pub target : Str → Data V → Dict (Option V)
  target key_type data' = elim (lookup key_type data') [ none ↦ [] | some es ↦ es ]

  -- The loop over the entries, whose ids are different.
  unfoldable pub updates_of : Dict (Option V) → Dict (Option V)
  updates_of [] = []
  updates_of ((id, none) ∷ es) = updates_of es
  updates_of ((id, some v) ∷ es) = (id, some v) ∷ updates_of es

  unfoldable pub deletions_of : Dict (Option V) → List Str
  deletions_of [] = []
  deletions_of ((id, none) ∷ es) = id ∷ deletions_of es
  deletions_of ((id, some v) ∷ es) = deletions_of es

  -- Entries go into the type of a data set, unless there are none.
  unfoldable pub merge : Str → Dict (Option V) → Data V → Data V
  merge key_type [] data' = data'
  merge key_type (e ∷ es) data' = put key_type (assign (target key_type data') (e ∷ es)) data'

  unfoldable pub deletion_map : List Str → Dict (Option V)
  deletion_map [] = []
  deletion_map (id ∷ ids) = (id, none) ∷ deletion_map ids

-- The two data sets that a transaction collects in.
pub record Transaction {ℓ} (V : Type ℓ) : Type ℓ where
  pub cache : Data V
  pub mutations : Data V

module _ {ℓ} {V : Type ℓ} (get : Str → List Str → Dict V) where
  -- Whether a key can be deleted.
  abbrev pub exists_in : Bool → Str → List Str → Data V → Str → Bool
  exists_in true key_type ids cache id = is_there (lookup id (target key_type cache))
  exists_in false key_type ids cache id = is_there (lookup id (get key_type ids))

  unfoldable pub process_deletions : Str → List Str → Bool → Transaction V → Transaction V
  process_deletions key_type ids is_in_transaction t = record t {
    mutations =
        merge key_type
          (deletion_map (valid_ids (exists_in is_in_transaction key_type ids t.cache) ids))
          t.mutations;
  }

  abbrev pub updated : Str → Dict (Option V) → Transaction V → Transaction V
  updated key_type updates t = record {
    cache = merge key_type updates t.cache;
    mutations = merge key_type updates t.mutations;
  }

  unfoldable pub process_operations : Data V → Str → Bool → Transaction V → Transaction V
  process_operations data' key_type is_in_transaction t = elim (lookup key_type data') [
    | none ↦ t
    | some entries ↦
        process_deletions key_type (deletions_of entries) is_in_transaction
          (updated key_type (updates_of entries) t)
  ]

  unfoldable pub drop_missing : (Str → Bool) → List Str → Dict (Option V) → Dict (Option V)
  drop_missing exists [] entries = entries
  drop_missing exists (id ∷ ids) entries =
      drop_missing exists ids (if exists id then entries else remove id entries)

  -- The entries are changed in place, which `put` on a type that is there does.
  unfoldable pub validate_deletions : Data V → Str → Data V
  validate_deletions data' key_type = elim (lookup key_type data') [
    | none ↦ data'
    | some entries ↦
        put key_type
          (drop_missing (λ id. is_there (lookup id (get key_type (deletions_of entries))))
            (deletions_of entries) entries)
          data'
  ]
