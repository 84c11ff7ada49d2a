-- ===== src/Utils/PreKeyUpload.antt =====
-- `generatePreKeys` and `uploadPreKeysToServer` of src/utils/pre-key-manager.ts. `key_pair n` is what
-- the n-th call of `Curve.generateKeyPair` gives, `query` the answer to a node, `none` when it
-- rejects, and `now` the time.
use nexawhats.Common.{
  ℕ, zero, suc, ◌+◌, ◌-◌, leb, ltb, ◌==◌, if◌then◌else◌, Bool, true, false, not, ◌&&◌, ◌||◌, Option,
  none, some, List, [], ◌∷◌, ◌++◌,
}
use nexawhats.Common.Text.{Str, codes}
use nexawhats.Common.Dict.{Dict, lookup, assign}
use nexawhats.Jid.Numbers.{Number, num, nan, to_number, decimal}
use nexawhats.Jid.{server_address}
use nexawhats.Binary.{AttrValue, Node, Content, Nodes, node, absent, children, nil, cons}
use nexawhats.Binary.Helpers.{attr, find_child_node, encode_big_endian}
use nexawhats.Noise.Handshake.{RawKeyPair}
use nexawhats.Utils.PreKeyManager.{is_there}

-- `preKeys`, by their ids, which go up.
unfoldable pub generate_from : (ℕ → RawKeyPair) → ℕ → ℕ → ℕ → List (ℕ × RawKeyPair)
generate_from key_pair i id zero = []
generate_from key_pair i id (suc count) =
    (id, key_pair i) ∷ generate_from key_pair (i + 1) (id + 1) count

unfoldable pub generate_pre_keys : (ℕ → RawKeyPair) → ℕ → ℕ → List (ℕ × RawKeyPair) × ℕ
generate_pre_keys key_pair start_id count =
    (generate_from key_pair 0 start_id count, start_id + count - 1)

abbrev pub initial_prekey_count : ℕ
initial_prekey_count = 30

abbrev pub min_prekey_count : ℕ
min_prekey_count = 5

-- The fields of `AuthenticationCreds` that are used.
pub record Creds : Type 0 where
  pub registration_id : ℕ
  pub signed_identity_public : List ℕ
  pub signed_pre_key_id : ℕ
  pub signed_pre_key_public : List ℕ
  pub signed_pre_key_signature : List ℕ
  pub next_pre_key_id : ℕ
  pub first_unuploaded_pre_key_id : ℕ

-- What a run changes, the nodes that it sends, and whether it ends without an error.
pub record Run : Type 0 where
  pub creds : Creds
  pub keys : Dict RawKeyPair
  pub sent : List Node
  pub done : Bool

abbrev iq : Str → Str → Content → Node
iq id kind content =
    node (codes "iq")
      ((codes "id", AttrValue.text id)
        ∷ (codes "to", AttrValue.text server_address)
        ∷ (codes "type", AttrValue.text kind)
        ∷ (codes "xmlns", AttrValue.text (codes "encrypt"))
        ∷ [])
      content

abbrev pub bytes_node : Str → List ℕ → Node
bytes_node tag bs = node tag [] (Content.bytes bs)

unfoldable pub count_query : ℕ → Node
count_query now =
    iq (codes "pkcount-" ++ decimal now) (codes "get")
      (children (cons (node (codes "count") [] absent) nil))

abbrev pub pre_key_node : ℕ × RawKeyPair → Node
pre_key_node (id, kp) = node (codes "key") [] (
    children (
      cons (bytes_node (codes "id") (encode_big_endian id 3))
        (cons (bytes_node (codes "value") kp.public_key) nil)))

unfoldable pub pre_key_nodes : List (ℕ × RawKeyPair) → Nodes
pre_key_nodes [] = nil
pre_key_nodes (k ∷ ks) = cons (pre_key_node k) (pre_key_nodes ks)

abbrev pub skey_node : Creds → Node
skey_node creds = node (codes "skey") [] (
    children (
      cons (bytes_node (codes "id") (encode_big_endian creds.signed_pre_key_id 3)) (
        cons (bytes_node (codes "value") creds.signed_pre_key_public)
          (cons (bytes_node (codes "signature") creds.signed_pre_key_signature) nil))))

unfoldable pub bundle : ℕ → Creds → List (ℕ × RawKeyPair) → Node
bundle now creds new_keys = iq (codes "pkbundle-" ++ decimal now) (codes "set") (
    children (
      cons (bytes_node (codes "registration") (encode_big_endian creds.registration_id 4)) (
        cons (bytes_node (codes "type") (5 ∷ [])) (
          cons (bytes_node (codes "identity") creds.signed_identity_public) (
            cons (node (codes "list") [] (children (pre_key_nodes new_keys)))
              (cons (skey_node creds) nil))))))

abbrev value_or_zero : Option Node → Number
value_or_zero none = num 0
value_or_zero (some n) = elim (attr (codes "value") n) [ none ↦ num 0 | some s ↦ to_number s ]

-- `serverCount`; a query that fails counts as zero.
unfoldable pub server_count : Option Node → Number
server_count none = num 0
server_count (some result) = value_or_zero (find_child_node result (codes "count"))

abbrev is_low : Number → Bool
is_low nan = false
is_low (num n) = leb n min_prekey_count

abbrev is_zero : Number → Bool
is_zero nan = false
is_zero (num n) = n == 0

abbrev pub current_pre_key_exists : Creds → Dict RawKeyPair → Bool
current_pre_key_exists creds keys =
    let current = creds.next_pre_key_id - 1 in
    ltb 0 current && is_there (lookup (decimal current) keys)

unfoldable pub need_upload : Number → Creds → Dict RawKeyPair → Bool
need_upload count creds keys = is_low count || not (current_pre_key_exists creds keys)

abbrev pub to_generate : Number → ℕ
to_generate count = if is_zero count then initial_prekey_count else min_prekey_count

-- What is stored before anything is uploaded.
unfoldable pub entries_of : List (ℕ × RawKeyPair) → Dict RawKeyPair
entries_of [] = []
entries_of ((id, kp) ∷ ks) = (decimal id, kp) ∷ entries_of ks

unfoldable pub upload_with :
    (ℕ → RawKeyPair) → (Node → Option Node) → ℕ → Number → Creds → Dict RawKeyPair → Run
upload_with key_pair query now count creds keys =
    let (new_keys, last_id) =
      generate_pre_keys key_pair creds.next_pre_key_id (to_generate count) in
    let run : Run = record {
      creds = creds;
      keys = assign keys (entries_of new_keys);
      sent = count_query now ∷ bundle now creds new_keys ∷ [];
      done = false;
    } in
    elim (query (bundle now creds new_keys)) [
      | none ↦ run
      | some result ↦ record run {
        creds = record creds {
          next_pre_key_id = last_id + 1;
          first_unuploaded_pre_key_id = last_id + 1;
        };
        done = true;
      }
    ]

unfoldable pub upload_pre_keys_to_server :
    (ℕ → RawKeyPair) → (Node → Option Node) → ℕ → Creds → Dict RawKeyPair → Run
upload_pre_keys_to_server key_pair query now creds keys =
    let count = server_count (query (count_query now)) in
    if need_upload count creds keys
    then upload_with key_pair query now count creds keys
    else record { creds = creds; keys = keys; sent = count_query now ∷ []; done = true }
