-- ===== src/Group/Record.antt =====
-- src/signal/group/sender-key-record.ts: the versions of a member's keys, the latest last.
use nexawhats.Common.{ℕ, ◌==◌, if◌then◌else◌, Bool, Option, none, some, List, [], ◌∷◌, length}
use nexawhats.Group.{Bytes}
use nexawhats.Group.State.{SenderKeyState, push_bounded}

abbrev pub SenderKeyRecord : Type 0
SenderKeyRecord = List SenderKeyState

abbrev pub max_states : ℕ
max_states = 5

unfoldable pub is_empty : SenderKeyRecord → Bool
is_empty states = length states == 0

unfoldable pub last : SenderKeyRecord → Option SenderKeyState
last [] = none
last (s ∷ []) = some s
last (s ∷ t ∷ states) = last (t ∷ states)

unfoldable pub find : ℕ → SenderKeyRecord → Option SenderKeyState
find key_id [] = none
find key_id (s ∷ states) =
    let later = find key_id states in if s.key_id == key_id then some s else later

-- Without an id, the latest state.
unfoldable pub get_sender_key_state : Option ℕ → SenderKeyRecord → Option SenderKeyState
get_sender_key_state none states = last states
get_sender_key_state (some key_id) states = find key_id states

-- The callers change the state that they got, which the record still holds: what the record is
-- when the state that `get_sender_key_state` gives has become `s'`.
unfoldable pub put_last : SenderKeyState → SenderKeyRecord → SenderKeyRecord
put_last s' [] = []
put_last s' (s ∷ []) = s' ∷ []
put_last s' (s ∷ t ∷ states) = s ∷ put_last s' (t ∷ states)

unfoldable pub put_found : ℕ → SenderKeyState → SenderKeyRecord → SenderKeyRecord
put_found key_id s' [] = []
put_found key_id s' (s ∷ states) =
    let later = put_found key_id s' states in if s.key_id == key_id then s' ∷ states else s ∷ later

unfoldable pub put_sender_key_state : Option ℕ → SenderKeyState → SenderKeyRecord → SenderKeyRecord
put_sender_key_state none s' states = put_last s' states
put_sender_key_state (some key_id) s' states = put_found key_id s' states

-- The constructor of a state from its parts.
abbrev pub fresh_state : ℕ → ℕ → Bytes → Bytes → Bytes → SenderKeyState
fresh_state id iteration chain_key signing_public signing_private = record {
  key_id = id;
  chain = record { iteration = iteration; seed = chain_key };
  signing_public = signing_public;
  signing_private = signing_private;
  message_keys = [];
}

unfoldable pub add_sender_key_state : ℕ → ℕ → Bytes → Bytes → SenderKeyRecord → SenderKeyRecord
add_sender_key_state id iteration chain_key signature_key states =
    push_bounded max_states (fresh_state id iteration chain_key signature_key []) states

unfoldable pub set_sender_key_state : ℕ → ℕ → Bytes → Bytes → Bytes → SenderKeyRecord
set_sender_key_state id iteration chain_key public private =
    fresh_state id iteration chain_key public private ∷ []
