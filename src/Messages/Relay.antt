-- ===== src/Messages/Relay.antt =====
-- src/messages/send-relay.ts: which devices get which content, and the attributes of a stanza.
-- `Content` is the type of messages, `encode_message` the generated code with the padding, and
-- `encrypt_message` the call of the repository: the type and the ciphertext for a device.
use nexawhats.Common.{
  ℕ, ltb, ◌==◌, if◌then◌else◌, Bool, true, false, not, ◌&&◌, ◌||◌, Option, none, some, List, [],
  ◌∷◌, ◌++◌, take,
}
use nexawhats.Common.Text.{Str, codes, str_eq}
use nexawhats.Jid.{FullJid, jid_decode}
use nexawhats.Binary.{AttrValue, Attrs, Node, Content, node, children, nil, cons}
use nexawhats.Binary.Utf8.{utf8_encode}
use nexawhats.Messages.Receive.{present}

-- The fields of a message that are set, and the two flags inside of them.
pub record Shape : Type 0 where
  pub fields : List Str
  pub gif_playback : Bool
  pub ptt : Bool

abbrev pub has_field : Str → List Str → Bool
has_field f [] = false
has_field f (g ∷ gs) = str_eq g f || has_field f gs

-- The tests of `getMediaType` in their order, with what they give.
abbrev pub media_types : Shape → List (Str × Str)
media_types m =
    (codes "imageMessage", codes "image")
    ∷ (codes "videoMessage", if m.gif_playback then codes "gif" else codes "video")
    ∷ (codes "audioMessage", if m.ptt then codes "ptt" else codes "audio")
    ∷ (codes "contactMessage", codes "vcard")
    ∷ (codes "documentMessage", codes "document")
    ∷ (codes "contactsArrayMessage", codes "contact_array")
    ∷ (codes "liveLocationMessage", codes "livelocation")
    ∷ (codes "stickerMessage", codes "sticker")
    ∷ (codes "buttonsMessage", codes "buttons")
    ∷ (codes "listMessage", codes "list")
    ∷ (codes "listResponseMessage", codes "list_response")
    ∷ (codes "buttonsResponseMessage", codes "buttons_response")
    ∷ (codes "templateButtonReplyMessage", codes "template_button_reply")
    ∷ (codes "orderMessage", codes "order")
    ∷ (codes "productMessage", codes "product")
    ∷ (codes "interactiveResponseMessage", codes "native_flow_response")
    ∷ (codes "groupInviteMessage", codes "url")
    ∷ []

unfoldable pub first_media : List (Str × Str) → List Str → Str
first_media [] fields = []
first_media ((f, t) ∷ ts) fields = if has_field f fields then t else first_media ts fields

unfoldable pub get_media_type : Shape → Str
get_media_type m = first_media (media_types m) m.fields

unfoldable pub get_message_type : Shape → Str
get_message_type m =
    if has_field (codes "pollCreationMessage") m.fields
      || has_field (codes "pollCreationMessageV2") m.fields
      || has_field (codes "pollCreationMessageV3") m.fields
    then codes "poll"
    else if has_field (codes "eventMessage") m.fields
    then codes "event"
    else if not (str_eq (get_media_type m) [])
    then codes "media"
    else codes "text"

-- The order of `sort()`: by code units.
unfoldable pub str_leb : Str → Str → Bool
str_leb [] t = true
str_leb (a ∷ s) [] = false
str_leb (a ∷ s) (b ∷ t) = if ltb a b then true else if a == b then str_leb s t else false

unfoldable pub insert : Str → List Str → List Str
insert s [] = s ∷ []
insert s (t ∷ ts) = let rest = insert s ts in if str_leb s t then s ∷ t ∷ ts else t ∷ rest

unfoldable pub sort : List Str → List Str
sort [] = []
sort (s ∷ ss) = insert s (sort ss)

abbrev pub join : List Str → Str
join [] = []
join (s ∷ ss) = s ++ join ss

-- `digest` is SHA-256 of the bytes of a text, in base64.
unfoldable pub generate_participant_hash_v2 : (List ℕ → Str) → List Str → Str
generate_participant_hash_v2 digest participants =
    codes "2:" ++ take 6 (digest (utf8_encode (join (sort participants))))

-- What a device gets, and its node.
pub record Encrypted : Type 0 where
  pub type_of : Str
  pub ciphertext : List ℕ

abbrev pub user_of : Option FullJid → Str
user_of none = []
user_of (some d) = d.user

module _ (me_id : Str) (me_lid : Option Str) where
  -- `targetUser === ownLidUser`, for a LID that is there and has a user.
  abbrev pub is_lid_user_of : Str → Bool
  is_lid_user_of target = elim me_lid [
    | none ↦ false
    | some l ↦ present (some (user_of (jid_decode l))) && str_eq target (user_of (jid_decode l))
  ]

  abbrev pub is_own_user : Str → Bool
  is_own_user recipient =
      let target = user_of (jid_decode recipient) in
      str_eq target (user_of (jid_decode me_id)) || is_lid_user_of target

  abbrev pub is_exact_sender_device : Str → Bool
  is_exact_sender_device recipient =
      str_eq recipient me_id
      || (present me_lid && elim me_lid [ none ↦ false | some l ↦ str_eq recipient l ])

module _ {M : Type 0} (me_id : Str) (me_lid : Option Str) where
  -- Our own other devices get the message in a wrapper, where there is one.
  unfoldable pub message_for : Option M → Str → M → M
  message_for none recipient message = message
  message_for (some dsm) recipient message =
      if is_own_user me_id me_lid recipient && not (is_exact_sender_device me_id me_lid recipient)
      then dsm
      else message

module _ {M : Type 0} (me_id : Str) (me_lid : Option Str) (encode_message : M → List ℕ)
    (encrypt_message : Str → List ℕ → Encrypted) (extra_attrs : Attrs) (dsm : Option M) where
  abbrev pub encrypted_for : Str × M → Encrypted
  encrypted_for (recipient, message) =
      encrypt_message recipient (encode_message (message_for me_id me_lid dsm recipient message))

  abbrev pub participant_node : Str → Encrypted → Node
  participant_node recipient e = node (codes "to") ((codes "jid", AttrValue.text recipient) ∷ []) (
      children (
        cons
          (node (codes "enc")
            ((codes "v", AttrValue.text (codes "2"))
              ∷ (codes "type", AttrValue.text e.type_of)
              ∷ extra_attrs)
            (Content.bytes e.ciphertext))
          nil))

  -- The nodes for the devices in their order, those without a JID left out, and whether one of them
  -- starts a session.
  unfoldable pub create_participant_nodes : List (Str × M) → List Node × Bool
  create_participant_nodes [] = ([], false)
  create_participant_nodes ((recipient, message) ∷ ms) =
      let (nodes, include_identity) = create_participant_nodes ms in
      let e = encrypted_for (recipient, message) in
      if present (some recipient)
      then (
        participant_node recipient e ∷ nodes,
        str_eq e.type_of (codes "pkmsg") || include_identity,
      )
      else (nodes, include_identity)
