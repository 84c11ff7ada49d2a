-- ===== src/Messages/Devices.antt =====
-- `getUSyncDevices` of src/messages/send-relay.ts: the devices of a list of users, with the cache of
-- five minutes. `query` is absent, or gives the answer of the server, `none` where it rejects.
use nexawhats.Common.{
  ℕ, ◌-◌, ◌*◌, ltb, ◌==◌, if◌then◌else◌, Bool, true, false, not, ◌&&◌, Option, none, some, List, [],
  ◌∷◌, ◌++◌,
}
use nexawhats.Common.Text.{Str, codes}
use nexawhats.Common.Dict.{Dict, lookup, put}
use nexawhats.Jid.Numbers.{Number, num, nan, parse_int}
use nexawhats.Jid.{
  FullJid, jid_encode, jid_decode, jid_normalized_user, s_whatsapp_net, server_address,
}
use nexawhats.Binary.{AttrValue, Node, Content, node, absent, children, nil, cons}
use nexawhats.Binary.Helpers.{attr, find_child_node, find_child_nodes}
use nexawhats.Messages.Receive.{present}

pub record DeviceInfo : Type 0 where
  pub user : Str
  pub device : ℕ
  pub jid : Str

pub record CachedDevices : Type 0 where
  pub devices : List DeviceInfo
  pub ts : ℕ

abbrev pub device_cache_ttl_ms : ℕ
device_cache_ttl_ms = 5 * 60 * 1000

abbrev plain : Str → Content → Node
plain tag content = node tag [] content

-- The query, which is the same for every user.
abbrev pub usync_query : Node
usync_query =
    node (codes "iq")
      ((codes "to", AttrValue.text server_address)
        ∷ (codes "type", AttrValue.text (codes "get"))
        ∷ (codes "xmlns", AttrValue.text (codes "usync"))
        ∷ [])
      (children (
        cons
          (node (codes "usync")
            ((codes "context", AttrValue.text (codes "message"))
              ∷ (codes "mode", AttrValue.text (codes "query"))
              ∷ [])
            (children (
              cons (plain (codes "query") (children nil)) (
                cons
                  (plain (codes "list") (
                    children (
                      cons
                        (plain (codes "user")
                          (children (cons (plain (codes "contact") absent) nil)))
                        nil)))
                  (cons (plain (codes "side_list") absent) nil)))))
          nil))

-- The children with a tag of a node that may be missing.
abbrev children_of : Option Node → Str → List Node
children_of none tag = []
children_of (some n) tag = find_child_nodes n tag

abbrev child_of : Option Node → Str → Option Node
child_of none tag = none
child_of (some n) tag = find_child_node n tag

abbrev user_or : Str → Option FullJid → Str
user_or jid none = jid
user_or jid (some d) = d.user

abbrev server_or : Option FullJid → Str
server_or none = s_whatsapp_net
server_or (some d) = d.server

abbrev or_zero : Option Str → Str
or_zero none = codes "0"
or_zero (some s) = s

-- A device of a user in the answer, for its number.
unfoldable pub device_of_number : Bool → Str → Number → List DeviceInfo
device_of_number ignore_zero_devices user_jid nan = []
device_of_number ignore_zero_devices user_jid (num n) =
    let dec = jid_decode user_jid in
    if ignore_zero_devices && (n == 0)
    then []
    else record {
      user = user_or user_jid dec;
      device = n;
      jid = jid_encode (user_or user_jid dec) (server_or dec) (some (num n)) none;
    }
      ∷ []

unfoldable pub devices_of_user : Bool → Str → List Node → List DeviceInfo
devices_of_user ignore_zero_devices user_jid [] = []
devices_of_user ignore_zero_devices user_jid (d ∷ ds) =
    device_of_number ignore_zero_devices user_jid (parse_int (or_zero (attr (codes "device-id") d)))
    ++ devices_of_user ignore_zero_devices user_jid ds

unfoldable pub devices_of_users : Bool → List Node → List DeviceInfo
devices_of_users ignore_zero_devices [] = []
devices_of_users ignore_zero_devices (u ∷ us) =
    let rest = devices_of_users ignore_zero_devices us in
    elim (attr (codes "jid") u) [
      | none ↦ rest
      | some user_jid ↦
          if present (some user_jid)
          then devices_of_user ignore_zero_devices user_jid
              (children_of (find_child_node u (codes "devices")) (codes "device"))
            ++ rest
          else rest
    ]

-- The devices in the answer of the server.
abbrev pub answered : Bool → Node → List DeviceInfo
answered ignore_zero_devices result =
    devices_of_users ignore_zero_devices (
      children_of (child_of (find_child_node result (codes "usync")) (codes "list")) (codes "user"))

abbrev pub Cache : Type 0
Cache = Dict CachedDevices

abbrev is_empty : List DeviceInfo → Bool
is_empty [] = true
is_empty (d ∷ ds) = false

module _ (query : Option (Node → Option Node)) (ignore_zero_devices : Bool) (now : ℕ) where
  -- The device 0 of a user stands for all of them.
  unfoldable pub fall_back : Str → FullJid → Cache × List DeviceInfo → Cache × List DeviceInfo
  fall_back jid d (cache, results) =
      let fallback : DeviceInfo = record {
        user = d.user;
        device = 0;
        jid = jid_encode d.user d.server (some (num 0)) none;
      } in
      (
        put (jid_normalized_user jid) (record { devices = fallback ∷ []; ts = now }) cache,
        results ++ (fallback ∷ []),
      )

  -- All results so far go into the cache, under the user whose turn it is.
  unfoldable pub take_answer : Str → Node → Cache × List DeviceInfo → Cache × List DeviceInfo
  take_answer jid result (cache, results) =
      let all_results = results ++ answered ignore_zero_devices result in
      (
        if is_empty all_results
            then cache
            else put (jid_normalized_user jid) (record { devices = all_results; ts = now }) cache,
        all_results,
      )

  abbrev ask : Option (Node → Option Node) → Option Node
  ask none = none
  ask (some q) = q usync_query

  -- A user whose devices are not in the cache.
  unfoldable pub fetch : Str → FullJid → Cache × List DeviceInfo → Cache × List DeviceInfo
  fetch jid d s = elim d.device [
    | some (num n) ↦ (s.0, s.1 ++ (record { user = d.user; device = n; jid = jid } ∷ []))
    | _ ↦ elim (ask query) [ none ↦ fall_back jid d s | some result ↦ take_answer jid result s ]
  ]

  abbrev pub fresh_devices : Option CachedDevices → Option (List DeviceInfo)
  fresh_devices none = none
  fresh_devices (some e) = if ltb (now - e.ts) device_cache_ttl_ms then some e.devices else none

  -- A round of the loop.
  unfoldable pub find_devices : Bool → Str → Cache × List DeviceInfo → Cache × List DeviceInfo
  find_devices use_cache jid s = elim (jid_decode jid) [
    | none ↦ s
    | some d ↦
        if not (present (some d.user))
        then s
        else elim (if use_cache
            then fresh_devices (lookup (jid_normalized_user jid) s.0)
            else none) [ some devices ↦ (s.0, s.1 ++ devices) | none ↦ fetch jid d s ]
  ]

  unfoldable pub find_all : Bool → List Str → Cache × List DeviceInfo → Cache × List DeviceInfo
  find_all use_cache [] s = s
  find_all use_cache (jid ∷ jids) s = find_all use_cache jids (find_devices use_cache jid s)

unfoldable pub get_usync_devices :
    Option (Node → Option Node) → ℕ → List Str → Bool → Bool → Cache → Cache × List DeviceInfo
get_usync_devices query now jids use_cache ignore_zero_devices cache =
    find_all query ignore_zero_devices now use_cache jids (cache, [])
