-- ===== src/Messages/Origin.antt =====
-- Whose a message is that `decodeMessageNode` of src/messages/recv.ts takes for ours.
use nexawhats.Common.{
  ◌≡◌, ap, sym, ◌∙◌, arith, if◌then◌else◌, Bool, true, false, ◌&&◌, ◌||◌, Option, none, some,
}
use nexawhats.Common.Text.{Str, codes}
use nexawhats.Jid.{
  is_pn_user, is_lid_user, is_hosted_pn_user, is_hosted_lid_user, is_jid_broadcast, is_jid_group,
  is_jid_newsletter,
}
use nexawhats.Binary.{Node}
use nexawhats.Binary.Helpers.{attr}
use nexawhats.Messages.Receive.{
  Origin, Result, ok, err, unknown_type, present, is_me, is_me_lid, chat_origin, group_origin,
  broadcast_origin, newsletter_origin, origin_of, DecodedMessage, message_of, decode_message_node,
}

module _ (me_id : Str) (me_lid : Option Str) where
  abbrev pub is_ours : Str → Bool
  is_ours jid = is_me me_id me_lid jid || is_me_lid me_id me_lid jid

  -- What comes from us has us as its author.
  abbrev IsHonest : Result Origin → Type 0
  IsHonest (ok o) = o.from_me ≡ true → is_ours o.author ≡ true
  IsHonest (err e) = Unit

  chat_origin-IsHonest :
      (from : Str) (recipient : Option Str) → IsHonest (chat_origin me_id me_lid from recipient)
  unfolding chat_origin
  chat_origin-IsHonest from recipient = ground arith

  group_origin-IsHonest :
      (from : Str) (participant : Option Str)
      → IsHonest (group_origin me_id me_lid from participant)
  unfolding group_origin
  group_origin-IsHonest from participant = ground arith

  broadcast_origin-IsHonest :
      (from : Str) (participant : Option Str)
      → IsHonest (broadcast_origin me_id me_lid from participant)
  unfolding broadcast_origin
  broadcast_origin-IsHonest from participant = ground arith

  newsletter_origin-IsHonest : (from : Str) → IsHonest (ok (newsletter_origin me_id me_lid from))
  unfolding newsletter_origin
  newsletter_origin-IsHonest from = λ h. h

  origin_of-IsHonest :
      (from participant recipient : Option Str)
      → IsHonest (origin_of me_id me_lid from participant recipient)
  unfolding origin_of
  origin_of-IsHonest none participant recipient = tt
  origin_of-IsHonest (some from) participant recipient =
      go
        (present (some from)
          && (is_pn_user (some from)
              || is_lid_user (some from)
              || is_hosted_lid_user (some from)
              || is_hosted_pn_user (some from)))
        (present (some from) && is_jid_group (some from))
        (present (some from) && is_jid_broadcast (some from))
        (present (some from) && is_jid_newsletter (some from))
    where
      go :
          (person in_group in_broadcast in_newsletter : Bool)
          → IsHonest (
              if person
              then chat_origin me_id me_lid from recipient
              else if in_group
              then group_origin me_id me_lid from participant
              else if in_broadcast
              then broadcast_origin me_id me_lid from participant
              else if in_newsletter
              then ok (newsletter_origin me_id me_lid from)
              else err unknown_type)
      go true b c d = chat_origin-IsHonest from recipient
      go false true c d = group_origin-IsHonest from participant
      go false false true d = broadcast_origin-IsHonest from participant
      go false false false true = newsletter_origin-IsHonest from
      go false false false false = tt

  -- A stanza that is decoded to a message from us has an author with our user, of our phone number or
  -- of our LID, whatever its attributes say.
  pub decode_message_node-from_me :
      (stanza : Node) (d : DecodedMessage)
      → decode_message_node stanza me_id me_lid ≡ ok d
      → d.full_message.key.from_me ≡ true
      → is_ours d.author ≡ true
  unfolding decode_message_node message_of
  decode_message_node-from_me stanza d h mine =
      go
        (origin_of me_id me_lid (attr (codes "from") stanza) (attr (codes "participant") stanza)
          (attr (codes "recipient") stanza))
        (origin_of-IsHonest (attr (codes "from") stanza) (attr (codes "participant") stanza)
          (attr (codes "recipient") stanza))
        h
    where
      author_of : Result DecodedMessage → Str
      author_of (ok q) = q.author
      author_of (err e) = d.author

      from_me_of : Result DecodedMessage → Bool
      from_me_of (ok q) = q.full_message.key.from_me
      from_me_of (err e) = false

      go :
          (r : Result Origin)
          → IsHonest r
          → ◌≡◌ {A = Result DecodedMessage}
              (elim r [ err e ↦ err e | ok o ↦ ok (message_of stanza o) ])
              (ok d)
          → is_ours d.author ≡ true
      go (err e) honest q = cc
      go (ok o) honest q = ap (λ z. is_ours (author_of z)) (sym q) ∙ honest (ap from_me_of q ∙ mine)
