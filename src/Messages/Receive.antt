-- ===== src/Messages/Receive.antt =====
-- src/messages/recv.ts: what a message stanza says before its content is decrypted. The attributes
-- have their declared type, texts.
use nexawhats.Common.{
  ℕ, ◌==◌, if◌then◌else◌, Bool, true, false, not, ◌&&◌, ◌||◌, Option, none, some, [], ◌∷◌,
}
use nexawhats.Common.Text.{Str, codes, str_eq}
use nexawhats.Jid.Numbers.{num, nan, to_number}
use nexawhats.Jid.{
  are_jids_same_user, ends_with, is_pn_user, is_lid_user, is_hosted_pn_user, is_hosted_lid_user,
  is_jid_broadcast, is_jid_group, is_jid_newsletter,
}
use nexawhats.Binary.{Node}
use nexawhats.Binary.Helpers.{attr, or_else}

pub record AddressingContext : Type 0 where
  pub addressing_mode : Str
  pub sender_alt : Option Str
  pub recipient_alt : Option Str

abbrev or_empty : Option Str → Str
or_empty none = []
or_empty (some s) = s

unfoldable pub extract_addressing_context : Node → AddressingContext
extract_addressing_context stanza =
    let sender = or_else (attr (codes "participant") stanza) (attr (codes "from") stanza) in
    let by_sender = if ends_with (codes "lid") sender then codes "lid" else codes "pn" in
    let mode = or_empty (or_else (attr (codes "addressing_mode") stanza) (some by_sender)) in
    if str_eq mode (codes "lid")
    then record {
      addressing_mode = mode;
      sender_alt =
          or_else (attr (codes "participant_pn") stanza)
            (or_else (attr (codes "sender_pn") stanza) (attr (codes "peer_recipient_pn") stanza));
      recipient_alt = attr (codes "recipient_pn") stanza;
    }
    else record {
      addressing_mode = mode;
      sender_alt =
          or_else (attr (codes "participant_lid") stanza)
            (or_else (attr (codes "sender_lid") stanza) (attr (codes "peer_recipient_lid") stanza));
      recipient_alt = attr (codes "recipient_lid") stanza;
    }

pub data MsgType : Type 0 where
  chat group direct_peer_status other_status newsletter : MsgType

pub data Error : Type 0 where
  recipient_not_from_me no_participant unknown_type : Error

pub data Result {ℓ} (A : Type ℓ) : Type ℓ where
  ok : A → Result A
  err : Error → Result A

-- A text that is there and not empty.
abbrev pub present : Option Str → Bool
present none = false
present (some []) = false
present (some (c ∷ s)) = true

-- What the tests of `decodeMessageNode` find out.
pub record Origin : Type 0 where
  pub msg_type : MsgType
  pub chat_id : Str
  pub author : Str
  pub from_me : Bool

module _ (me_id : Str) (me_lid : Option Str) where
  abbrev pub is_me : Str → Bool
  is_me jid = are_jids_same_user (some jid) (some me_id)

  abbrev pub is_me_lid : Str → Bool
  is_me_lid jid = if present me_lid then are_jids_same_user (some jid) me_lid else false

  -- A message of a person, to us or from another device of ours.
  unfoldable pub chat_origin : Str → Option Str → Result Origin
  chat_origin from recipient =
      if present recipient && not (is_jid_newsletter recipient)
      then (if not (is_me from) && not (is_me_lid from)
          then err recipient_not_from_me
          else ok (record {
            msg_type = chat;
            chat_id = or_empty recipient;
            author = from;
            from_me = true;
          }))
      else ok (record { msg_type = chat; chat_id = from; author = from; from_me = false })

  unfoldable pub group_origin : Str → Option Str → Result Origin
  group_origin from participant =
      let by = or_empty participant in
      if present participant
      then ok (record {
        msg_type = group;
        chat_id = from;
        author = by;
        from_me = is_me by || is_me_lid by;
      })
      else err no_participant

  unfoldable pub broadcast_origin : Str → Option Str → Result Origin
  broadcast_origin from participant =
      let by = or_empty participant in
      if present participant
      then ok (record {
        msg_type = if is_me by then direct_peer_status else other_status;
        chat_id = from;
        author = by;
        from_me = is_me by;
      })
      else err no_participant

  unfoldable pub newsletter_origin : Str → Origin
  newsletter_origin from = record {
    msg_type = newsletter;
    chat_id = from;
    author = from;
    from_me = is_me from || is_me_lid from;
  }

  -- The chain of tests.
  unfoldable pub origin_of : Option Str → Option Str → Option Str → Result Origin
  origin_of none participant recipient = err unknown_type
  origin_of (some from) participant recipient =
      let person =
        is_pn_user (some from)
        || is_lid_user (some from)
        || is_hosted_lid_user (some from)
        || is_hosted_pn_user (some from) in
      if present (some from) && person
      then chat_origin from recipient
      else if present (some from) && is_jid_group (some from)
      then group_origin from participant
      else if present (some from) && is_jid_broadcast (some from)
      then broadcast_origin from participant
      else if present (some from) && is_jid_newsletter (some from)
      then ok (newsletter_origin from)
      else err unknown_type

pub record MessageKey : Type 0 where
  pub remote_jid : Str
  pub from_me : Bool
  pub id : Option Str
  pub participant : Option Str
  pub server_id : Option Str
  pub remote_jid_alt : Option Str
  pub participant_alt : Option Str
  pub addressing_mode : Str

-- The fields of `WAMessage` that are set; `server_ack` is its status.
pub record FullMessage : Type 0 where
  pub key : MessageKey
  pub message_timestamp : Option ℕ
  pub push_name : Option Str
  pub broadcast : Bool
  pub category : Option Str
  pub server_ack : Bool

pub record DecodedMessage : Type 0 where
  pub full_message : FullMessage
  pub author : Str
  pub sender : Str

-- `Number(text) || undefined`
abbrev pub number_or_none : Option Str → Option ℕ
number_or_none none = none
number_or_none (some s) = elim (to_number s) [
  | nan ↦ none
  | num n ↦ if n == 0 then none else some n
]

abbrev pub is_chat : MsgType → Bool
is_chat chat = true
is_chat _ = false

abbrev is_newsletter : MsgType → Bool
is_newsletter newsletter = true
is_newsletter _ = false

abbrev when_present : Option Str → Option Str
when_present o = if present o then o else none

-- The key and the message, from the tests on.
unfoldable pub message_of : Node → Origin → DecodedMessage
message_of stanza o =
    let context = extract_addressing_context stanza in
    let in_group = is_jid_group (some o.chat_id) in
    record {
      full_message = record {
        key = record {
          remote_jid = o.chat_id;
          from_me = o.from_me;
          id = attr (codes "id") stanza;
          participant = attr (codes "participant") stanza;
          server_id =
              if is_newsletter o.msg_type
              then when_present (attr (codes "server_id") stanza)
              else none;
          remote_jid_alt = if in_group then none else context.sender_alt;
          participant_alt = if in_group then context.sender_alt else none;
          addressing_mode = context.addressing_mode;
        };
        message_timestamp = number_or_none (attr (codes "t") stanza);
        push_name = attr (codes "notify") stanza;
        broadcast = is_jid_broadcast (attr (codes "from") stanza);
        category = when_present (attr (codes "category") stanza);
        server_ack = o.from_me;
      };
      author = o.author;
      sender = if is_chat o.msg_type then o.author else o.chat_id;
    }

unfoldable pub decode_message_node : Node → Str → Option Str → Result DecodedMessage
decode_message_node stanza me_id me_lid =
    elim (origin_of me_id me_lid (attr (codes "from") stanza) (attr (codes "participant") stanza)
      (attr (codes "recipient") stanza)) [ err e ↦ err e | ok o ↦ ok (message_of stanza o) ]
