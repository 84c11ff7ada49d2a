-- ===== src/Utils/PreKeyMutations.antt =====
-- What the operations of src/utils/pre-key-manager.ts leave in the mutations.
use nexawhats.Common.{
  ◌≡◌, refl, ap, ◌∙◌, arith, if◌then◌else◌, Bool, true, false, Option, none, some, List, [], ◌∷◌,
  ◌&&◌,
}
use nexawhats.Common.Text.{Str, str_eq_iff}
use nexawhats.Common.Dict.{Dict, lookup, put, assign, lookup-put}
use nexawhats.Utils.PreKeyManager.{
  is_there, Data, target, updates_of, deletions_of, merge, valid_ids, deletion_map, Transaction,
  exists_in, process_deletions, updated, process_operations,
}

module _ {ℓ} {V : Type ℓ} where
  -- No id stands in two entries.
  abbrev pub IsObject : Dict (Option V) → Type 0
  IsObject [] = Unit
  IsObject ((k, v) ∷ es) = (is_there (lookup k es) ≡ false) × IsObject es

  -- What the entries say, or else what was there.
  abbrev or_before : Option (Option V) → Option (Option V) → Option (Option V)
  or_before none before = before
  or_before (some v) before = some v

  abbrev only_updates : Option (Option V) → Option (Option V)
  only_updates none = none
  only_updates (some none) = none
  only_updates (some (some v)) = some (some v)

  lookup-assign :
      (id : Str) (es d : Dict (Option V))
      → IsObject es
      → lookup id (assign d es) ≡ or_before (lookup id es) (lookup id d)
  unfolding assign lookup
  lookup-assign id [] d h = refl
  lookup-assign id ((k, v) ∷ es) d (new, rest) =
      ground
        (arith, lookup-assign id es (put k v d) rest, lookup-put k id v d, str_eq_iff k id, new)

  lookup-updates_of :
      (id : Str) (es : Dict (Option V))
      → IsObject es
      → lookup id (updates_of es) ≡ only_updates (lookup id es)
  unfolding updates_of lookup
  lookup-updates_of id [] h = refl
  lookup-updates_of id ((k, none) ∷ es) (new, rest) =
      ground (arith, lookup-updates_of id es rest, str_eq_iff k id, new)
  lookup-updates_of id ((k, some v) ∷ es) (new, rest) =
      ground (arith, lookup-updates_of id es rest, str_eq_iff k id)

  updates_of-IsObject : (es : Dict (Option V)) → IsObject es → IsObject (updates_of es)
  unfolding updates_of
  updates_of-IsObject [] h = h
  updates_of-IsObject ((k, none) ∷ es) (new, rest) = updates_of-IsObject es rest
  updates_of-IsObject ((k, some v) ∷ es) (new, rest) =
      (ground (arith, lookup-updates_of k es rest, new), updates_of-IsObject es rest)

  lookup-target-merge :
      (id key_type : Str) (es : Dict (Option V)) (d : Data V)
      → lookup id (target key_type (merge key_type es d))
        ≡ lookup id (assign (target key_type d) es)
  unfolding merge target assign
  lookup-target-merge id key_type [] d = refl
  lookup-target-merge id key_type (e ∷ es) d = ground (
    arith,
    lookup-put key_type key_type (assign (target key_type d) (e ∷ es)) d,
    str_eq_iff key_type key_type,
  )

  -- Whether the entries delete an id.
  abbrev pub deletes : Option (Option V) → Bool
  deletes none = false
  deletes (some none) = true
  deletes (some (some v)) = false

  lookup-deletions :
      (exists : Str → Bool) (id : Str) (es d : Dict (Option V))
      → IsObject es
      → lookup id (assign d (deletion_map (valid_ids exists (deletions_of es))))
        ≡ (if deletes (lookup id es) && exists id then some none else lookup id d)
  unfolding assign lookup deletion_map valid_ids deletions_of
  lookup-deletions exists id [] d h = refl
  lookup-deletions exists id ((k, none) ∷ es) d (new, rest) = ground (
    arith,
    lookup-deletions exists id es d rest,
    lookup-deletions exists id es (put k none d) rest,
    lookup-put k id none d,
    str_eq_iff k id,
    new,
  )
  lookup-deletions exists id ((k, some v) ∷ es) d (new, rest) =
      ground (arith, lookup-deletions exists id es d rest, str_eq_iff k id, new)

  lookup-updated :
      (id key_type : Str) (es : Dict (Option V)) (d : Data V)
      → IsObject es
      → lookup id (target key_type (merge key_type (updates_of es) d))
        ≡ or_before (only_updates (lookup id es)) (lookup id (target key_type d))
  lookup-updated id key_type es d h =
      lookup-target-merge id key_type (updates_of es) d
      ∙ lookup-assign id (updates_of es) (target key_type d) (updates_of-IsObject es h)
      ∙ ap (λ o. or_before o (lookup id (target key_type d))) (lookup-updates_of id es h)

  -- What becomes of an id, by what the data say of it.
  abbrev pub outcome : Bool → Option (Option V) → Option (Option V) → Option (Option V)
  outcome exists before none = before
  outcome exists before (some none) = if exists then some none else before
  outcome exists before (some (some v)) = some (some v)

module _ {ℓ} {V : Type ℓ} (get : Str → List Str → Dict V) where
  deletes-exists :
      (in_transaction : Bool) (key_type id : Str) (es : Dict (Option V)) (t : Transaction V)
      → IsObject es
      → deletes (lookup id es) ≡ true
      → exists_in get in_transaction key_type
          (deletions_of es)
          (merge key_type (updates_of es) t.cache)
          id
        ≡ exists_in get in_transaction key_type (deletions_of es) t.cache id
  deletes-exists false key_type id es t h d = refl
  deletes-exists true key_type id es t h d =
      ap is_there (lookup-updated id key_type es t.cache h ∙ ground (arith, d))

  -- After `processOperations`, the mutations give for an id of the type its value, where the data have
  -- one; `null`, where the data delete it and it is in the cache of the transaction or, outside of one,
  -- in the store; and what they gave before in all other cases.
  pub process_operations-outcome :
      (data' : Data V) (key_type : Str) (in_transaction : Bool) (t : Transaction V)
      (entries : Dict (Option V)) (id : Str)
      → lookup key_type data' ≡ some entries
      → IsObject entries
      → lookup id
          (target key_type (process_operations get data' key_type in_transaction t).mutations)
        ≡ outcome
            (exists_in get in_transaction key_type (deletions_of entries) t.cache id)
            (lookup id (target key_type t.mutations))
            (lookup id entries)
  unfolding process_operations process_deletions
  process_operations-outcome data' key_type in_transaction t entries id there object =
      let t' = updated get key_type (updates_of entries) t in
      let exists = exists_in get in_transaction key_type (deletions_of entries) t'.cache in
      rw (there, process_operations)
        (lookup-target-merge id key_type (deletion_map (valid_ids exists (deletions_of entries)))
            t'.mutations
          ∙ lookup-deletions exists id entries (target key_type t'.mutations) object
          ∙ ground (
            arith,
            lookup-updated id key_type entries t.mutations object,
            deletes-exists in_transaction key_type id entries t object,
          ))
