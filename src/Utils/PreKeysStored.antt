-- ===== src/Utils/PreKeysStored.antt =====
-- That `uploadPreKeysToServer` of src/utils/pre-key-manager.ts offers no key that is not stored.
use nexawhats.Common.{
  ℕ, zero, suc, ◌+◌, ◌≤◌, ◌<◌, ◌^◌, ◌≡◌, refl, ap, sym, ◌∙◌, subst, arith, Option, none, some, List,
  [], ◌∷◌, All, Bool-cases, inl, inr,
}
use nexawhats.Common.Text.{codes, str_eq}
use nexawhats.Common.Dict.{Dict, lookup, put, assign, lookup-put_same, lookup-put_other}
use nexawhats.Jid.Numbers.{Number, num, nan, decimal, to_number, to_number-decimal}
use nexawhats.Binary.{Node}
use nexawhats.Binary.Helpers.{
  list_of, find_tag, filter_tag, find_child_node, find_child_nodes, get_binary_node_child_buffer,
  get_binary_node_child_uint,
}
use nexawhats.Binary.Lookup.{get_binary_node_child_uint-encode_big_endian}
use nexawhats.Noise.Handshake.{RawKeyPair}
use nexawhats.Utils.PreKeyUpload.{
  generate_from, generate_pre_keys, initial_prekey_count, Creds, count_query, pre_key_node,
  pre_key_nodes, bundle, server_count, need_upload, to_generate, entries_of, upload_with,
  upload_pre_keys_to_server,
}

-- The key nodes that a node offers to the server.
abbrev pub offered : Node → List Node
offered n = elim (find_child_node n (codes "list")) [
  | none ↦ []
  | some l ↦ find_child_nodes l (codes "key")
]

-- A node with an id and a public key whose private key is stored under that id.
abbrev pub IsStored : Dict RawKeyPair → Node → Type 0
IsStored keys k =
    (id : ℕ) × (kp : RawKeyPair) × (get_binary_node_child_uint k (codes "id") 3 ≡ some (num id))
    × (get_binary_node_child_buffer k (codes "value") ≡ some kp.public_key)
    × (lookup (decimal id) keys ≡ some kp)

abbrev value_of : Number → ℕ
value_of nan = 0
value_of (num n) = n

decimal_injective : (m n : ℕ) → decimal m ≡ decimal n → m ≡ n
decimal_injective m n e =
    ap value_of (sym (to_number-decimal m) ∙ ap to_number e ∙ to_number-decimal n)

lookup-put-decimal :
    (j id : ℕ) (kp : RawKeyPair) (d : Dict RawKeyPair)
    → j < id
    → lookup (decimal j) (put (decimal id) kp d) ≡ lookup (decimal j) d
lookup-put-decimal j id kp d h =
    lookup-put_other (decimal id) (decimal j) kp d (λ e. omega (arith, h, decimal_injective id j e))

-- The id of an entry fits three bytes, and its key is stored.
abbrev IsGood : Dict RawKeyPair → ℕ × RawKeyPair → Type 0
IsGood keys (id, kp) = (id < 2 ^ 24) × (lookup (decimal id) keys ≡ some kp)

module _ (key_pair : ℕ → RawKeyPair) where
  lookup-assign_later :
      (j i id count : ℕ) (d : Dict RawKeyPair)
      → j < id
      → lookup (decimal j) (assign d (entries_of (generate_from key_pair i id count)))
        ≡ lookup (decimal j) d
  unfolding generate_from entries_of assign
  lookup-assign_later j i id zero d h = refl
  lookup-assign_later j i id (suc count) d h =
      lookup-assign_later j (i + 1) (id + 1) count (put (decimal id) (key_pair i) d)
        (omega (arith, h))
      ∙ lookup-put-decimal j id (key_pair i) d h

  generate_from-IsGood :
      (i id count : ℕ) (d : Dict RawKeyPair)
      → id + count ≤ 2 ^ 24
      → let ks = generate_from key_pair i id count in All (IsGood (assign d (entries_of ks))) ks
  unfolding generate_from entries_of assign
  generate_from-IsGood i id zero d h = tt
  generate_from-IsGood i id (suc count) d h = (
    (
      omega (arith, h),
      lookup-assign_later id (i + 1) (id + 1) count (put (decimal id) (key_pair i) d) (omega arith)
          ∙ lookup-put_same (decimal id) (key_pair i) d,
    ),
    generate_from-IsGood (i + 1) (id + 1) count (put (decimal id) (key_pair i) d)
        (omega (arith, h)),
  )

pre_key_node-IsStored :
    (keys : Dict RawKeyPair) (k : ℕ × RawKeyPair) → IsGood keys k → IsStored keys (pre_key_node k)
unfolding get_binary_node_child_buffer find_child_node find_tag str_eq
pre_key_node-IsStored keys (id, kp) (small, there) = (
  id,
  kp,
  get_binary_node_child_uint-encode_big_endian (pre_key_node (id, kp)) (codes "id") id 3 refl
      (omega (arith, small)) (omega (arith, small)),
  refl,
  there,
)

pre_key_nodes-IsStored :
    (keys : Dict RawKeyPair) (ks : List (ℕ × RawKeyPair))
    → All (IsGood keys) ks
    → All (IsStored keys) (filter_tag (codes "key") (list_of (pre_key_nodes ks)))
unfolding pre_key_nodes filter_tag str_eq
pre_key_nodes-IsStored keys [] h = tt
pre_key_nodes-IsStored keys (k ∷ ks) (good, rest) =
    (pre_key_node-IsStored keys k good, pre_key_nodes-IsStored keys ks rest)

offered-bundle :
    (now : ℕ) (creds : Creds) (ks : List (ℕ × RawKeyPair))
    → offered (bundle now creds ks) ≡ filter_tag (codes "key") (list_of (pre_key_nodes ks))
unfolding bundle find_child_node find_child_nodes find_tag str_eq
offered-bundle now creds ks = refl

offered-count_query : (now : ℕ) → offered (count_query now) ≡ []
unfolding count_query find_child_node find_tag str_eq
offered-count_query now = refl

module _ (key_pair : ℕ → RawKeyPair) (query : Node → Option Node) (now : ℕ) (creds : Creds)
    (keys : Dict RawKeyPair) where
  abbrev new_keys : Number → List (ℕ × RawKeyPair)
  new_keys count = generate_from key_pair 0 creds.next_pre_key_id (to_generate count)

  abbrev IsReady : Dict RawKeyPair → List Node → Type 0
  IsReady stored sent = All (λ n. All (IsStored stored) (offered n)) sent

  upload_with-keys :
      (count : Number)
      → (upload_with key_pair query now count creds keys).keys
        ≡ assign keys (entries_of (new_keys count))
  unfolding upload_with generate_pre_keys
  upload_with-keys count = ground arith

  upload_with-sent :
      (count : Number)
      → (upload_with key_pair query now count creds keys).sent
        ≡ count_query now ∷ bundle now creds (new_keys count) ∷ []
  unfolding upload_with generate_pre_keys
  upload_with-sent count = ground arith

  nothing : (stored : Dict RawKeyPair) → All (IsStored stored) (offered (count_query now))
  nothing stored = subst (All (IsStored stored)) (sym (offered-count_query now)) tt

  module _ (small : creds.next_pre_key_id + initial_prekey_count ≤ 2 ^ 24) where
    fits : (count : Number) → creds.next_pre_key_id + to_generate count ≤ 2 ^ 24
    fits count = ground (arith, small)

    upload_with-IsReady :
        (count : Number)
        → let run = upload_with key_pair query now count creds keys in IsReady run.keys run.sent
    upload_with-IsReady count =
        let stored = assign keys (entries_of (new_keys count)) in
        subst (λ k. IsReady k (upload_with key_pair query now count creds keys).sent)
          (sym (upload_with-keys count))
          (subst (IsReady stored) (sym (upload_with-sent count)) (
            nothing stored,
            (
              subst (All (IsStored stored)) (sym (offered-bundle now creds (new_keys count))) (
                  pre_key_nodes-IsStored stored (new_keys count) (
                    generate_from-IsGood key_pair 0 creds.next_pre_key_id (to_generate count) keys
                      (fits count))),
              tt,
            ),
          ))

    -- Whatever the server answers, if at all, each pre-key that a run offers to it is stored when the
    -- run ends: under the id that is read from its node, with the private key of its public key. The
    -- next id is such that the ids of the run fit three bytes.
    pub upload_pre_keys_to_server-IsStored :
        let run = upload_pre_keys_to_server key_pair query now creds keys in
        All (λ n. All (IsStored run.keys) (offered n)) run.sent
    unfolding upload_pre_keys_to_server
    upload_pre_keys_to_server-IsStored =
        let count = server_count (query (count_query now)) in
        elim (Bool-cases (need_upload count creds keys)) [
          | inl needed ↦ rw (needed, upload_pre_keys_to_server) (upload_with-IsReady count)
          | inr enough ↦ rw (enough, upload_pre_keys_to_server) (nothing keys, tt)
        ]
