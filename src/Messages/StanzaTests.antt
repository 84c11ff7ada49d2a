-- ===== src/Messages/StanzaTests.antt =====
-- Runs of the code for stanzas, their keys and their devices.
use nexawhats.Common.{◌≡◌, refl, ap, ◌∙◌, arith, Option, none, some, [], ◌∷◌}
use nexawhats.Common.Text.{Str, codes, str_eq}
use nexawhats.Common.Dict.{lookup, put}
use mathlib.Core.List.{Permᴰ}
use nexawhats.Common.{true, false, ◌++◌}
use nexawhats.Jid.Numbers.{parse_int, decimal}
use nexawhats.Jid.{
  FullJid, jid_decode, jid_normalized_user, jid_encode, are_jids_same_user, is_pn_user, ends_with,
  is_jid_newsletter, s_whatsapp_net, domain_of,
}
use nexawhats.Binary.{AttrValue, Node, node, absent, children, nil, cons}
use nexawhats.Binary.Helpers.{find_child_node, find_child_nodes, find_tag, filter_tag}
use nexawhats.Messages.Receive.{
  MsgType, Origin, ok, origin_of, chat_origin, message_of, decode_message_node,
}
use nexawhats.Messages.Origin.{is_ours, decode_message_node-from_me}
use nexawhats.Messages.Devices.{
  DeviceInfo, answered, devices_of_users, devices_of_user, device_of_number, find_all, find_devices,
  fetch, take_answer, get_usync_devices,
}
use nexawhats.Messages.DeviceCache.{get_usync_devices-shared}
use nexawhats.Messages.Relay.{generate_participant_hash_v2}
use nexawhats.Messages.Participants.{generate_participant_hash_v2-Perm}

abbrev me : Str
me = codes "1:2@s.whatsapp.net"

abbrev from_us : Node
from_us =
    node (codes "message")
      ((codes "from", AttrValue.text (codes "1:3@s.whatsapp.net"))
        ∷ (codes "recipient", AttrValue.text (codes "2@s.whatsapp.net"))
        ∷ (codes "id", AttrValue.text (codes "A"))
        ∷ (codes "t", AttrValue.text (codes "70"))
        ∷ [])
      absent

abbrev from_us_origin : Origin
from_us_origin = record {
  msg_type = MsgType.chat;
  chat_id = codes "2@s.whatsapp.net";
  author = codes "1:3@s.whatsapp.net";
  from_me = true;
}

from_us_decodes : decode_message_node from_us me none ≡ ok (message_of from_us from_us_origin)
unfolding decode_message_node origin_of chat_origin are_jids_same_user jid_decode lookup is_pn_user
    ends_with is_jid_newsletter
from_us_decodes = refl

from_us_ours : (message_of from_us from_us_origin).full_message.key.from_me ≡ true
unfolding message_of
from_us_ours = refl

from_us_author : (message_of from_us from_us_origin).author ≡ codes "1:3@s.whatsapp.net"
unfolding message_of
from_us_author = refl

decode_message_node-from_me_example :
    is_ours me none (message_of from_us from_us_origin).author ≡ true
decode_message_node-from_me_example =
    decode_message_node-from_me me none from_us (message_of from_us from_us_origin) from_us_decodes
      from_us_ours

-- The devices of a user in an answer.
abbrev user_node : Str → Str → Node
user_node jid device = node (codes "user") ((codes "jid", AttrValue.text jid) ∷ []) (
    children (
      cons
        (node (codes "devices") [] (
          children (
            cons (node (codes "device") ((codes "device-id", AttrValue.text device) ∷ []) absent)
              nil)))
        nil))

-- A server that gives the device 3 of the user 1.
abbrev answer : Node
answer = node (codes "iq") [] (
    children (
      cons
        (node (codes "usync") [] (
          children (
            cons
              (node (codes "list") []
                (children (cons (user_node (codes "1@s.whatsapp.net") (codes "3")) nil)))
              nil)))
        nil))

abbrev server : Node → Option Node
server n = some answer

abbrev device_3 : DeviceInfo
device_3 = record { user = codes "1"; device = 3; jid = codes "1:3@s.whatsapp.net" }

abbrev user_1 : Str
user_1 = codes "1@s.whatsapp.net"

abbrev user_2 : Str
user_2 = codes "2@s.whatsapp.net"

abbrev decoded_2 : FullJid
decoded_2 = record {
  user = codes "2";
  device = none;
  server = s_whatsapp_net;
  domain_type = domain_of s_whatsapp_net none;
}

user_2_decodes : jid_decode user_2 ≡ some decoded_2
unfolding jid_decode
user_2_decodes = refl

answered_3 : answered false answer ≡ device_3 ∷ []
unfolding devices_of_users devices_of_user device_of_number find_child_node find_child_nodes
    find_tag filter_tag parse_int decimal lookup jid_decode str_eq jid_encode jid_normalized_user
answered_3 = refl

first_of_1 : (get_usync_devices (some server) 1000 (user_1 ∷ []) true false []).1 ≡ device_3 ∷ []
unfolding get_usync_devices find_all find_devices fetch take_answer put devices_of_users
    devices_of_user device_of_number find_child_node find_child_nodes find_tag filter_tag parse_int
    decimal lookup jid_decode str_eq jid_encode jid_normalized_user
first_of_1 = refl

not_cached_2 :
    lookup
      (jid_normalized_user user_2)
      (get_usync_devices (some server) 1000 (user_1 ∷ []) true false []).0
    ≡ none
unfolding get_usync_devices find_all find_devices fetch take_answer put devices_of_users
    devices_of_user device_of_number find_child_node find_child_nodes find_tag filter_tag parse_int
    decimal lookup jid_decode str_eq jid_encode jid_normalized_user
not_cached_2 = refl

get_usync_devices-shared_example :
    let first = get_usync_devices (some server) 1000 (user_1 ∷ user_2 ∷ []) true false [] in
    (first.1 ≡ device_3 ∷ device_3 ∷ [])
    × ((get_usync_devices (some server) 2000 (user_2 ∷ []) true false first.0).1
        ≡ device_3 ∷ device_3 ∷ [])
get_usync_devices-shared_example =
    get_usync_devices-shared server false user_2 decoded_2 answer user_2_decodes refl refl refl
      (user_1 ∷ []) [] 1000 2000 device_3 (device_3 ∷ []) not_cached_2 (omega arith)
      (ap (λ d. d ++ answered false answer) first_of_1 ∙ ap (λ d. device_3 ∷ d) answered_3)

generate_participant_hash_v2-Perm_example :
    generate_participant_hash_v2 (λ b. b) (user_1 ∷ user_2 ∷ [])
    ≡ generate_participant_hash_v2 (λ b. b) (user_2 ∷ user_1 ∷ [])
generate_participant_hash_v2-Perm_example =
    generate_participant_hash_v2-Perm (λ b. b) (user_1 ∷ user_2 ∷ []) (user_2 ∷ user_1 ∷ [])
      ∣ Permᴰ.swap refl refl ∣₁
