-- ===== src/Signal/LidPairs.antt =====
-- src/signal/lid-mapping.ts: the pairs, and the JIDs that are made of them.
use nexawhats.Common.{
  ◌==◌, if◌then◌else◌, Bool, false, ◌&&◌, ◌||◌, Option, none, some, List, [], ◌∷◌, ◌++◌, map,
}
use nexawhats.Common.Text.{Str, codes, str_eq}
use nexawhats.Common.Dict.{Dict, lookup, put}
use nexawhats.Jid.Numbers.{Number, num, nan, truthy, decimal}
use nexawhats.Jid.{
  FullJid, jid_decode, jid_normalized_user, is_pn_user, is_lid_user, is_hosted_pn_user, suffix,
  hosted, hosted_lid, lid, s_whatsapp_net, hosted_lid_domain,
}
use nexawhats.Messages.Receive.{present}

pub record LidPnPair : Type 0 where
  pub lid_jid : Str
  pub pn_jid : Str

abbrev pub pn_key : Str → Str
pn_key user = codes "pn:" ++ user

abbrev pub lid_key : Str → Str
lid_key user = codes "lid:" ++ user

abbrev pub reverse_key : Str → Str
reverse_key user = user ++ codes "_reverse"

abbrev pub number_text : Number → Str
number_text nan = codes "NaN"
number_text (num n) = decimal n

abbrev pub is_valid_pair : LidPnPair → Bool
is_valid_pair p =
    is_lid_user (some p.lid_jid) && is_pn_user (some p.pn_jid)
    || is_pn_user (some p.lid_jid) && is_lid_user (some p.pn_jid)

abbrev pub is_same : Option Str → Str → Bool
is_same none user = false
is_same (some v) user = str_eq v user

-- What is written for the new pairs, each in both directions.
unfoldable pub batch_of : Dict Str → Dict Str → Dict Str
batch_of [] batch = batch
batch_of ((pn_user, lid_user) ∷ ps) batch =
    batch_of ps (put (reverse_key lid_user) pn_user (put pn_user lid_user batch))

abbrev pub device_or : Option Number → Number
device_or none = num 0
device_or (some n) = if truthy n then n else num 0

-- The LID of a device.
abbrev pub device_lid : FullJid → Str → Str
device_lid d lid_user =
    lid_user
    ++ (suffix b':' d.device ++ (codes "@" ++ (if str_eq d.server hosted then hosted_lid else lid)))

abbrev pub push_device : Number → Option (List Number) → List Number
push_device device none = device ∷ []
push_device device (some ds) = ds ++ (device ∷ [])

-- The devices to ask for, by the JID of their user.
abbrev pub add_fetch : Str → FullJid → Dict (List Number) → Dict (List Number)
add_fetch pn d fetch =
    let normalized = jid_normalized_user pn in
    let key =
      if is_hosted_pn_user (some normalized)
      then d.user ++ codes "@s.whatsapp.net"
      else normalized in
    put key (push_device (device_or d.device) (lookup key fetch)) fetch

abbrev pub is_99 : Number → Bool
is_99 nan = false
is_99 (num n) = n == 99

-- The pairs of the devices that were asked for, once the server has given their user's LID.
unfoldable pub device_pairs : Str → Str → List Number → Dict LidPnPair → Dict LidPnPair
device_pairs pn_user lid_user [] pairs = pairs
device_pairs pn_user lid_user (n ∷ ns) pairs =
    let device_pn =
      pn_user
      ++ (suffix b':' (some n) ++ (codes "@" ++ (if is_99 n then hosted else s_whatsapp_net))) in
    let device_lid_jid =
      lid_user ++ (suffix b':' (some n) ++ (codes "@" ++ (if is_99 n then hosted_lid else lid))) in
    device_pairs pn_user lid_user ns
      (put device_pn (record { lid_jid = device_lid_jid; pn_jid = device_pn }) pairs)

abbrev pub user_of_pair : Option FullJid → Option Str
user_of_pair none = none
user_of_pair (some d) = if present (some d.user) then some d.user else none

unfoldable pub add_answers : List LidPnPair → Dict (List Number) → Dict LidPnPair → Dict LidPnPair
add_answers [] fetch pairs = pairs
add_answers (p ∷ ps) fetch pairs = add_answers ps fetch (elim (user_of_pair (jid_decode p.pn_jid)) [
  | none ↦ pairs
  | some pn_user ↦ elim (user_of_pair (jid_decode p.lid_jid)) [
    | none ↦ pairs
    | some lid_user ↦ elim (lookup p.pn_jid fetch) [
      | none ↦ pairs
      | some devices ↦ device_pairs pn_user lid_user devices pairs
    ]
  ]
])

abbrev pub values_of : Dict LidPnPair → List LidPnPair
values_of = map (λ e. e.1)

-- What `pnToLIDFunc` gives, which may be absent and may give nothing.
abbrev pub answers_of : Option (List Str → Option (List LidPnPair)) → List Str → List LidPnPair
answers_of none targets = []
answers_of (some f) targets = elim (f targets) [ none ↦ [] | some ps ↦ ps ]

abbrev pub first_lid : Option (List LidPnPair) → Option Str
first_lid none = none
first_lid (some []) = none
first_lid (some (p ∷ ps)) = some p.lid_jid

abbrev pub exact_device : Option Number → Number
exact_device none = num 0
exact_device (some n) = n

abbrev pub is_hosted_lid : Number → Bool
is_hosted_lid nan = false
is_hosted_lid (num n) = n == hosted_lid_domain

abbrev pub device_pn : FullJid → Str → Str
device_pn d pn_user =
    pn_user
    ++ (codes ":"
        ++ (number_text (exact_device d.device)
            ++ (codes "@" ++ (if is_hosted_lid d.domain_type then hosted else s_whatsapp_net))))
