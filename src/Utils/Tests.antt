-- ===== src/Utils/Tests.antt =====
-- Runs of `retry` and of the code for pre-keys.
use nexawhats.Common.Text.{Str, codes, str_eq}
use nexawhats.Common.Dict.{Dict, lookup}
use nexawhats.Binary.{Node}
use nexawhats.Utils.PreKeyManager.{
  Data, Transaction, target, deletions_of, exists_in, process_operations,
}
use nexawhats.Utils.PreKeyMutations.{IsObject, outcome, process_operations-outcome}
use nexawhats.Noise.Handshake.{RawKeyPair}
use nexawhats.Utils.PreKeyUpload.{Creds, upload_pre_keys_to_server}
use nexawhats.Utils.PreKeysStored.{offered, IsStored, upload_pre_keys_to_server-IsStored}
use nexawhats.Common.{
  ℕ, zero, suc, ◌+◌, Option, some, List, All, arith, ◌≤◌, ◌-◌, ◌*◌, ◌≡◌, refl, false, none, [], ◌∷◌,
  length,
}
use nexawhats.Utils.Retry.{
  RetryOptions, Result, Thrown, error, other, Conversions, caught, as_error, ok, err, returned,
  thrown, default_options, scale, retry, retry_from, after_error, first_of, retry-first_of,
}

abbrev steady : RetryOptions ℕ
steady = record default_options { jitter = false }

-- Errors are numbers here, and of the other values, texts, the empty one has no `String`.
abbrev texts : Conversions ℕ Str
texts = record {
  text_of = λ v. elim v [ [] ↦ err (error 13) | c ∷ s ↦ ok (c ∷ s) ];
  new_error = λ text. 400 + length text;
}

-- It gives a value the third time; the first time it throws a text.
abbrev third_time : ℕ → Result (Thrown ℕ Str) ℕ
third_time zero = err (other (codes "late"))
third_time (suc zero) = err (error 501)
third_time (suc (suc n)) = ok 42

abbrev no_abort : ℕ → ℕ → Result (Thrown ℕ Str) (Unit {0})
no_abort n d = ok tt

abbrev no_random : ℕ → ℕ
no_random n = 0

runs :
    retry texts third_time no_abort no_random steady
    ≡ (returned 42, 1000 * scale ∷ 2000 * scale ∷ [])
unfolding retry retry_from after_error caught as_error
runs = refl

-- What has no text ends the loop.
ends_early :
    (retry texts
      (λ n. elim n [ zero ↦ err (other []) | suc k ↦ third_time (suc k) ])
      no_abort
      no_random
      steady).0
    ≡ thrown (some (error 13))
unfolding retry retry_from caught as_error
ends_early = refl

-- Without attempts there is no error to throw.
throws_nothing :
    (retry texts third_time no_abort no_random (record steady { max_attempts = 0 })).0 ≡ thrown none
unfolding retry retry_from
throws_nothing = refl

retry-first_of_example :
    ((retry texts third_time no_abort no_random steady).0
      ≡ first_of texts third_time no_abort no_random steady 3 0 none)
    × (length (retry texts third_time no_abort no_random steady).1 ≤ 3 - 1)
retry-first_of_example =
    retry-first_of texts third_time no_abort no_random steady (λ e n. refl) (λ n d. refl)

-- Pre-keys: a server that has none of them and never answers for the bundle.
abbrev pair_of : ℕ → RawKeyPair
pair_of i = record { private_key = i ∷ []; public_key = (i + 100) ∷ [] }

abbrev silent : Node → Option Node
silent n = none

abbrev device_creds : Creds
device_creds = record {
  registration_id = 9;
  signed_identity_public = 1 ∷ [];
  signed_pre_key_id = 1;
  signed_pre_key_public = 2 ∷ [];
  signed_pre_key_signature = 3 ∷ [];
  next_pre_key_id = 31;
  first_unuploaded_pre_key_id = 31;
}

upload_pre_keys_to_server-IsStored_example :
    let run = upload_pre_keys_to_server pair_of silent 1000 device_creds [] in
    All (λ n. All (IsStored run.keys) (offered n)) run.sent
upload_pre_keys_to_server-IsStored_example =
    upload_pre_keys_to_server-IsStored pair_of silent 1000 device_creds [] (omega arith)

-- Outside of a transaction, of the keys 1, 2 and 3 the first is written and the others are deleted,
-- where the store has only 2.
abbrev changes : Dict (Option ℕ)
changes = (codes "1", some 7) ∷ (codes "2", none) ∷ (codes "3", none) ∷ []

abbrev data_set : Data ℕ
data_set = (codes "pre-key", changes) ∷ []

abbrev only_2 : Str → List Str → Dict ℕ
only_2 key_type ids = (codes "2", 8) ∷ []

abbrev started : Transaction ℕ
started = record { cache = []; mutations = [] }

changes_there : lookup (codes "pre-key") data_set ≡ some changes
unfolding lookup str_eq
changes_there = refl

changes-IsObject : IsObject changes
unfolding lookup str_eq
changes-IsObject = (refl, (refl, (refl, tt)))

process_operations-outcome_example :
    lookup (codes "2") (
      target
        (codes "pre-key")
        (process_operations only_2 data_set (codes "pre-key") false started).mutations)
    ≡ outcome
        (exists_in only_2 false (codes "pre-key") (deletions_of changes) [] (codes "2"))
        (lookup (codes "2") (target (codes "pre-key") started.mutations))
        (lookup (codes "2") changes)
process_operations-outcome_example =
    process_operations-outcome only_2 data_set (codes "pre-key") false started changes (codes "2")
      changes_there changes-IsObject
