-- ===== src/Group/Builder.antt =====
-- src/signal/group/group-session-builder.ts: how a member's keys reach the others.
use nexawhats.Common.{ℕ, if◌then◌else◌, none}
use nexawhats.Group.{Bytes, Result, ok, bind, or_throw, no_session}
use nexawhats.Group.State.{SenderKeyState, get_signing_key_public}
use nexawhats.Group.Record.{
  SenderKeyRecord, is_empty, get_sender_key_state, add_sender_key_state, set_sender_key_state,
}

-- What `SenderKeyDistributionMessage` carries.
pub record Distribution : Type 0 where
  pub id : ℕ
  pub iteration : ℕ
  pub chain_key : Bytes
  pub signature_key : Bytes

-- What the generators of `keyhelper.ts` give.
pub record Generated : Type 0 where
  pub key_id : ℕ
  pub sender_key : Bytes
  pub public : Bytes
  pub private : Bytes

unfoldable pub process : Distribution → SenderKeyRecord → SenderKeyRecord
process m states = add_sender_key_state m.id m.iteration m.chain_key m.signature_key states

abbrev pub distribution_of : SenderKeyState → Distribution
distribution_of s = record {
  id = s.key_id;
  iteration = s.chain.iteration;
  chain_key = s.chain.seed;
  signature_key = get_signing_key_public s;
}

-- A record without a state gets one.
unfoldable pub create : Generated → SenderKeyRecord → Result (Distribution × SenderKeyRecord)
create g states =
    let used =
      if is_empty states
      then set_sender_key_state g.key_id 0 g.sender_key g.public g.private
      else states in
    bind (or_throw no_session (get_sender_key_state none used)) λ s. ok (distribution_of s, used)
