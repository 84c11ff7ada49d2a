-- ===== src/Store/Tests.antt =====
-- Runs of the memory store.
use nexawhats.Common.{ℕ, ◌≡◌, refl, if◌then◌else◌, none, some, List, [], ◌∷◌}
use nexawhats.Common.Text.{Str, codes, str_eq, includes}
use nexawhats.Common.Dict.{lookup, put, remove}
use nexawhats.Store.Memory.{
  MemoryAuthStore, DataSet, get_keys, set_keys, or_before, last_written, stored, bucket, collect,
  set_all, set_entries, get_keys-set_keys,
}

abbrev session : Str
session = codes "session"

abbrev start : MemoryAuthStore ℕ ℕ
start = record { creds = some 7; keys = (session, (codes "a", 1) ∷ (codes "b", 2) ∷ []) ∷ [] }

abbrev changes : DataSet ℕ
changes =
    (session, some ((codes "a", none) ∷ (codes "c", some 3) ∷ [])) ∷ (codes "pre-key", none) ∷ []

abbrev ids : List Str
ids = codes "a" ∷ codes "b" ∷ codes "c" ∷ codes "d" ∷ []

runs : get_keys session ids (set_keys changes start) ≡ (codes "b", 2) ∷ (codes "c", 3) ∷ []
unfolding get_keys bucket collect set_all set_entries lookup put remove str_eq
runs = refl

get_keys-set_keys_example : lookup (codes "a") (get_keys session ids (set_keys changes start)) ≡ (
    if includes (codes "a") ids
    then or_before
        (last_written session (codes "a") changes)
        (stored session (codes "a") start.keys)
    else none)
get_keys-set_keys_example = get_keys-set_keys session (codes "a") ids changes start
