-- ===== src/Groups/Metadata.antt =====
-- `extractGroupMetadata` of src/groups/index.ts. The attributes have their declared type, texts.
use nexawhats.Common.{
  ℕ, if◌then◌else◌, Bool, true, false, ◌&&◌, Option, none, some, List, [], length, map,
}
use nexawhats.Common.Text.{Str, codes, str_eq, has}
use nexawhats.Jid.Numbers.{Number, num, to_number}
use nexawhats.Jid.{jid_encode, jid_normalized_user, is_pn_user, is_lid_user}
use nexawhats.Binary.{Node}
use nexawhats.Binary.Helpers.{attr, find_child_node, find_child_nodes, get_binary_node_child_string}
use nexawhats.Messages.Receive.{present, number_or_none}

pub record Participant : Type 0 where
  pub id : Option Str
  pub phone_number : Option Str
  pub lid : Option Str
  pub is_admin : Bool
  pub is_super_admin : Bool

pub data MemberAddMode : Type 0 where
  all_member_add admin_add : MemberAddMode

pub record GroupMetadataFull : Type 0 where
  pub id : Str
  pub notify : Option Str
  pub subject : Option Str
  pub subject_owner : Option Str
  pub subject_owner_pn : Option Str
  pub subject_time : Option ℕ
  pub size : Number
  pub creation : Option ℕ
  pub owner : Option Str
  pub owner_pn : Option Str
  pub desc : Option Str
  pub desc_id : Option Str
  pub desc_owner : Option Str
  pub desc_owner_pn : Option Str
  pub desc_time : Option ℕ
  pub linked_parent : Option Str
  pub restrict : Bool
  pub announce : Bool
  pub is_community : Bool
  pub is_community_announce : Bool
  pub join_approval_mode : Bool
  pub member_add_mode : MemberAddMode
  pub participants : List Participant
  pub ephemeral_duration : Option Number

abbrev is : Str → Option Str → Bool
is t none = false
is t (some s) = str_eq s t

abbrev when : Bool → Option Str → Option Str
when true o = o
when false o = none

-- `x ? jidNormalizedUser(x) : undefined`
abbrev normalized : Option Str → Option Str
normalized none = none
normalized (some jid) = if present (some jid) then some (jid_normalized_user jid) else none

abbrev has_child : Node → Str → Bool
has_child n tag = elim (find_child_node n tag) [ none ↦ false | some child ↦ true ]

-- `getBinaryNodeChild(n, tag)?.attrs.name`
abbrev pub child_attr : Node → Str → Str → Option Str
child_attr n tag name = elim (find_child_node n tag) [ none ↦ none | some child ↦ attr name child ]

abbrev child_text : Option Node → Str → Option Str
child_text none tag = none
child_text (some n) tag = get_binary_node_child_string n tag

abbrev attr_of : Option Node → Str → Option Str
attr_of none name = none
attr_of (some n) name = attr name n

unfoldable pub participant_of : Node → Participant
participant_of p =
    let jid = attr (codes "jid") p in
    record {
      id = jid;
      phone_number =
          when (is_lid_user jid && is_pn_user (attr (codes "phone_number") p))
            (attr (codes "phone_number") p);
      lid = when (is_pn_user jid && is_lid_user (attr (codes "lid") p)) (attr (codes "lid") p);
      is_admin = is (codes "admin") (attr (codes "type") p);
      is_super_admin = is (codes "superadmin") (attr (codes "type") p);
    }

-- The id of a group, with a server.
unfoldable pub group_id : Option Str → Str
group_id none = jid_encode [] (codes "g.us") none none
group_id (some id) = if has b'@' id then id else jid_encode id (codes "g.us") none none

abbrev size_of : Option Str → ℕ → Number
size_of none count = num count
size_of (some s) count = if present (some s) then to_number s else num count

abbrev duration_of : Option Str → Option Number
duration_of none = none
duration_of (some s) = if present (some s) then some (to_number s) else none

unfoldable pub metadata_of : Node → GroupMetadataFull
metadata_of group =
    let desc_child = find_child_node group (codes "description") in
    let members = find_child_nodes group (codes "participant") in
    record {
      id = group_id (attr (codes "id") group);
      notify = attr (codes "notify") group;
      subject = attr (codes "subject") group;
      subject_owner = attr (codes "s_o") group;
      subject_owner_pn = attr (codes "s_o_pn") group;
      subject_time = number_or_none (attr (codes "s_t") group);
      size = size_of (attr (codes "size") group) (length members);
      creation = number_or_none (attr (codes "creation") group);
      owner = normalized (attr (codes "creator") group);
      owner_pn = normalized (attr (codes "creator_pn") group);
      desc = child_text desc_child (codes "body");
      desc_id = attr_of desc_child (codes "id");
      desc_owner = normalized (attr_of desc_child (codes "participant"));
      desc_owner_pn = normalized (attr_of desc_child (codes "participant_pn"));
      desc_time = number_or_none (attr_of desc_child (codes "t"));
      linked_parent = child_attr group (codes "linked_parent") (codes "jid");
      restrict = has_child group (codes "locked");
      announce = has_child group (codes "announcement");
      is_community = has_child group (codes "parent");
      is_community_announce = has_child group (codes "default_sub_group");
      join_approval_mode = has_child group (codes "membership_approval_mode");
      member_add_mode =
          if is (codes "all_member_add")
            (get_binary_node_child_string group (codes "member_add_mode"))
          then all_member_add
          else admin_add;
      participants = map participant_of members;
      ephemeral_duration = duration_of (child_attr group (codes "ephemeral") (codes "expiration"));
    }

-- `none` when it throws.
unfoldable pub extract_group_metadata : Node → Option GroupMetadataFull
extract_group_metadata result = elim (find_child_node result (codes "group")) [
  | none ↦ none
  | some group ↦ some (metadata_of group)
]
