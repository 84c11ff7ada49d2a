-- ===== src/Groups/Operations.antt =====
-- The operations of src/groups/index.ts but the last. `query` is the answer of the server to a node,
-- `none` when it rejects. An operation throws when it rejects, and where an answer has no group.
use nexawhats.Common.{ℕ, ◌==◌, if◌then◌else◌, Option, none, some, List, [], ◌∷◌, ◌++◌, map}
use nexawhats.Common.Text.{Str, codes}
use nexawhats.Jid.Numbers.{decimal}
use nexawhats.Binary.{
  AttrValue, Attrs, Node, Content, Nodes, node, attrs_of, absent, children, nil, cons,
}
use nexawhats.Binary.Utf8.{utf8_encode}
use nexawhats.Binary.Helpers.{attr, find_child_node, find_child_nodes, or_else}
use nexawhats.Messages.Receive.{present}
use nexawhats.Groups.Metadata.{GroupMetadataFull, child_attr, extract_group_metadata}

pub data Result {ℓ} (A : Type ℓ) : Type ℓ where
  ok : A → Result A
  rejected no_group : Result A

abbrev pub attribute : Str → Str → Str × AttrValue
attribute name value = (name, AttrValue.text value)

abbrev pub one : Node → Content
one n = children (cons n nil)

abbrev pub participant_nodes : List Str → Nodes
participant_nodes [] = nil
participant_nodes (jid ∷ jids) =
    cons (node (codes "participant") (attribute (codes "jid") jid ∷ []) absent)
      (participant_nodes jids)

abbrev pub everyone : Str
everyone = codes "@g.us"

-- The status of a participant in an answer.
abbrev pub affected_of : Node → Str × Option Str
affected_of p = (
  elim (or_else (attr (codes "error") p) (some (codes "200"))) [ none ↦ [] | some s ↦ s ],
  attr (codes "jid") p,
)

abbrev pub statuses : Option Node → List (Str × Option Str)
statuses none = []
statuses (some n) = map affected_of (find_child_nodes n (codes "participant"))

abbrev child_of : Option Node → Str → Option Node
child_of none tag = none
child_of (some n) tag = find_child_node n tag

module _ (query : Node → Option Node) where
  unfoldable pub group_query : Str → Str → Node → Result Node
  group_query jid kind content =
      elim (query (
        node (codes "iq")
          (attribute (codes "type") kind
            ∷ attribute (codes "xmlns") (codes "w:g2")
            ∷ attribute (codes "to") jid
            ∷ [])
          (one content))) [ none ↦ rejected | some result ↦ ok result ]

  abbrev answer {ℓ} : {A : Type ℓ} → Result Node → (Node → A) → Result A
  answer (ok result) f = ok (f result)
  answer rejected f = rejected
  answer no_group f = no_group

  abbrev metadata_in : Result Node → Result GroupMetadataFull
  metadata_in (ok result) = elim (extract_group_metadata result) [
    | none ↦ no_group
    | some metadata ↦ ok metadata
  ]
  metadata_in rejected = rejected
  metadata_in no_group = no_group

  abbrev ignored : Result Node → Result (Unit {0})
  ignored r = answer r (λ result. tt)

  unfoldable pub group_metadata : Str → Result GroupMetadataFull
  group_metadata jid = metadata_in (
      group_query jid (codes "get")
        (node (codes "query") (attribute (codes "request") (codes "interactive") ∷ []) absent))

  -- `key` is what `generateGroupKey` gives.
  unfoldable pub group_create : Str → Str → List Str → Result GroupMetadataFull
  group_create key subject participants = metadata_in (
      group_query everyone (codes "set") (
        node (codes "create")
          (attribute (codes "subject") subject ∷ attribute (codes "key") key ∷ [])
          (children (participant_nodes participants))))

  unfoldable pub group_leave : Str → Result (Unit {0})
  group_leave jid = ignored (
      group_query everyone (codes "set") (
        node (codes "leave") []
          (one (node (codes "group") (attribute (codes "id") jid ∷ []) absent))))

  unfoldable pub group_update_subject : Str → Str → Result (Unit {0})
  group_update_subject jid subject = ignored (
      group_query jid (codes "set")
        (node (codes "subject") [] (Content.bytes (utf8_encode subject))))

  abbrev description_node : Str → Option Str → Option Str → Node
  description_node key prev description =
      let before =
        if present prev
        then elim prev [ none ↦ [] | some p ↦ attribute (codes "prev") p ∷ [] ]
        else [] in
      elim description [
        | none ↦
            node (codes "description") (before ++ (attribute (codes "delete") (codes "true") ∷ []))
              absent
        | some text ↦
            if present (some text)
            then node (codes "description") (before ++ (attribute (codes "id") key ∷ []))
                (one (node (codes "body") [] (Content.bytes (utf8_encode text))))
            else node (codes "description")
                (before ++ (attribute (codes "delete") (codes "true") ∷ [])) absent
      ]

  -- The answer to the first query says which description is replaced.
  unfoldable pub group_update_description : Str → Str → Option Str → Result (Unit {0})
  group_update_description key jid description = elim (group_metadata jid) [
    | rejected ↦ rejected
    | no_group ↦ no_group
    | ok metadata ↦
        ignored (group_query jid (codes "set") (description_node key metadata.desc_id description))
  ]

  unfoldable pub group_participants_update : Str → List Str → Str → Result (List (Str × Option Str))
  group_participants_update jid participants action =
      answer
        (group_query jid (codes "set") (node action [] (children (participant_nodes participants))))
        (λ result. statuses (find_child_node result action))

  unfoldable pub group_request_participants_list : Str → Result (List Attrs)
  group_request_participants_list jid =
      answer (group_query jid (codes "get") (node (codes "membership_approval_requests") [] absent))
        (λ result. elim (find_child_node result (codes "membership_approval_requests")) [
          | none ↦ []
          | some n ↦ map attrs_of (find_child_nodes n (codes "membership_approval_request"))
        ])

  unfoldable pub group_request_participants_update :
      Str → List Str → Str → Result (List (Str × Option Str))
  group_request_participants_update jid participants action =
      answer
        (group_query jid (codes "set") (
          node (codes "membership_requests_action") []
            (one (node action [] (children (participant_nodes participants))))))
        (λ result.
          statuses (child_of (find_child_node result (codes "membership_requests_action")) action))

  unfoldable pub group_invite_code : Str → Result (Option Str)
  group_invite_code jid =
      answer (group_query jid (codes "get") (node (codes "invite") [] absent))
        (λ result. child_attr result (codes "invite") (codes "code"))

  unfoldable pub group_revoke_invite : Str → Result (Option Str)
  group_revoke_invite jid =
      answer (group_query jid (codes "set") (node (codes "invite") [] absent))
        (λ result. child_attr result (codes "invite") (codes "code"))

  abbrev invite_node : Str → Node
  invite_node code = node (codes "invite") (attribute (codes "code") code ∷ []) absent

  unfoldable pub group_accept_invite : Str → Result (Option Str)
  group_accept_invite code =
      answer (group_query everyone (codes "set") (invite_node code))
        (λ result. child_attr result (codes "group") (codes "jid"))

  unfoldable pub group_get_invite_info : Str → Result GroupMetadataFull
  group_get_invite_info code = metadata_in (group_query everyone (codes "get") (invite_node code))

  unfoldable pub group_toggle_ephemeral : Str → ℕ → Result (Unit {0})
  group_toggle_ephemeral jid ephemeral_expiration = ignored (
      group_query jid (codes "set") (
        if ephemeral_expiration == 0
        then node (codes "not_ephemeral") [] absent
        else node (codes "ephemeral")
            (attribute (codes "expiration") (decimal ephemeral_expiration) ∷ []) absent))

  unfoldable pub group_setting_update : Str → Str → Result (Unit {0})
  group_setting_update jid setting =
      ignored (group_query jid (codes "set") (node setting [] absent))

  unfoldable pub group_member_add_mode : Str → Str → Result (Unit {0})
  group_member_add_mode jid mode =
      ignored
        (group_query jid (codes "set") (node (codes "member_add_mode") [] (Content.text mode)))

  unfoldable pub group_join_approval_mode : Str → Str → Result (Unit {0})
  group_join_approval_mode jid mode = ignored (
      group_query jid (codes "set") (
        node (codes "membership_approval_mode") []
          (one (node (codes "group_join") (attribute (codes "state") mode ∷ []) absent))))
