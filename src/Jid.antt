-- ===== src/Jid.antt =====
-- src/utils/jid.ts and the enumeration of src/types/jid.ts: WhatsApp addresses.
-- A `string | undefined | null` argument is an `Option Str`. `Number(text)` and
-- `Number.parseInt` are modelled on decimal digits (Jid/Numbers).
pub mod Tests
pub mod Numbers
pub mod Laws
pub mod Normalisation
use nexawhats.Common.{
  ℕ, ◌==◌, if◌then◌else◌, Bool, true, false, ◌&&◌, ◌||◌, Option, none, some, List, [], ◌∷◌, ◌++◌,
  length, all, take, drop, ◌-◌,
}
use nexawhats.Common.Text.{Str, codes, str_eq, cut, first_part, second_part}
use Numbers.{Number, num, nan, to_number, parse_int, decimal, is_digit, truthy}

-- `WAJIDDomains`, and the server names that the functions test for.
abbrev pub whatsapp_domain : ℕ
whatsapp_domain = 0

abbrev pub lid_domain : ℕ
lid_domain = 1

abbrev pub hosted_domain : ℕ
hosted_domain = 128

abbrev pub hosted_lid_domain : ℕ
hosted_lid_domain = 129

abbrev pub s_whatsapp_net : Str
s_whatsapp_net = codes "s.whatsapp.net"

-- `S_WHATSAPP_NET`, to which queries are sent; it starts with the mark of an address.
abbrev pub server_address : Str
server_address = codes "@s.whatsapp.net"

abbrev pub lid : Str
lid = codes "lid"

abbrev pub hosted : Str
hosted = codes "hosted"

abbrev pub hosted_lid : Str
hosted_lid = codes "hosted.lid"

abbrev pub c_us : Str
c_us = codes "c.us"

pub record FullJid : Type 0 where
  pub user : Str
  pub device : Option Number
  pub server : Str
  pub domain_type : Number

-- `getServerFromDomainType(initialServer, domainType)`.
unfoldable pub get_server_from_domain_type : Str → ℕ → Str
get_server_from_domain_type initial d =
    if d == lid_domain
    then lid
    else if d == hosted_domain
    then hosted
    else if d == hosted_lid_domain
    then hosted_lid
    else initial

-- `${agent ? `_${agent}` : ''}` and the same with `:`.
abbrev pub suffix : ℕ → Option Number → Str
suffix mark none = []
suffix mark (some nan) = []
suffix mark (some (num n)) = if n == 0 then [] else mark ∷ decimal n

unfoldable pub jid_encode : Str → Str → Option Number → Option Number → Str
jid_encode user server device agent =
    user ++ (suffix b'_' agent ++ (suffix b':' device ++ (b'@' ∷ server)))

-- The tests on the server in `jidDecode`, and on the agent behind them.
unfoldable pub domain_of : Str → Option Str → Number
domain_of server agent =
    if str_eq server lid
    then num lid_domain
    else if str_eq server hosted
    then num hosted_domain
    else if str_eq server hosted_lid
    then num hosted_lid_domain
    else elim agent [
      | none ↦ num whatsapp_domain
      | some a ↦ elim a [ [] ↦ num whatsapp_domain | c ∷ cs ↦ parse_int (c ∷ cs) ]
    ]

-- `device ? +device : undefined`
abbrev pub device_of : Option Str → Option Number
device_of none = none
device_of (some []) = none
device_of (some (c ∷ cs)) = some (to_number (c ∷ cs))

abbrev pub decode_parts : Option (Str × Str) → Option FullJid
decode_parts none = none
decode_parts (some (combined, server)) = some (record {
  user = first_part b'_' (first_part b':' combined);
  device = device_of (second_part b':' combined);
  server = server;
  domain_type = domain_of server (second_part b'_' (first_part b':' combined));
})

unfoldable pub jid_decode : Str → Option FullJid
unfolding cut first_part second_part
jid_decode jid = decode_parts (cut b'@' jid)

-- `jidDecode(jid)` on an argument that may be missing.
abbrev pub jid_decode? : Option Str → Option FullJid
jid_decode? none = none
jid_decode? (some jid) = jid_decode jid

abbrev normalized_of : Option FullJid → Str
normalized_of none = []
normalized_of (some d) =
    jid_encode d.user (if str_eq d.server c_us then s_whatsapp_net else d.server) none none

unfoldable pub jid_normalized_user : Str → Str
unfolding jid_encode jid_decode str_eq
jid_normalized_user jid = normalized_of (jid_decode jid)

-- `jidDecode(a)?.user === jidDecode(b)?.user`
abbrev pub same_user : Option FullJid → Option FullJid → Bool
same_user none none = true
same_user none (some d) = false
same_user (some d) none = false
same_user (some d) (some e) = str_eq d.user e.user

unfoldable pub are_jids_same_user : Option Str → Option Str → Bool
unfolding jid_decode str_eq
are_jids_same_user a b = same_user (jid_decode? a) (jid_decode? b)

-- `jid?.endsWith(suffix) ?? false`
unfoldable pub ends_with : Str → Option Str → Bool
unfolding str_eq
ends_with suffix none = false
ends_with suffix (some jid) = str_eq (drop (length jid - length suffix) jid) suffix

unfoldable pub is_jid_meta_ai : Option Str → Bool
unfolding ends_with
is_jid_meta_ai jid = ends_with (codes "@bot") jid

unfoldable pub is_pn_user : Option Str → Bool
unfolding ends_with
is_pn_user jid = ends_with (codes "@s.whatsapp.net") jid

unfoldable pub is_lid_user : Option Str → Bool
unfolding ends_with
is_lid_user jid = ends_with (codes "@lid") jid

unfoldable pub is_jid_broadcast : Option Str → Bool
unfolding ends_with
is_jid_broadcast jid = ends_with (codes "@broadcast") jid

unfoldable pub is_jid_group : Option Str → Bool
unfolding ends_with
is_jid_group jid = ends_with (codes "@g.us") jid

unfoldable pub is_jid_newsletter : Option Str → Bool
unfolding ends_with
is_jid_newsletter jid = ends_with (codes "@newsletter") jid

unfoldable pub is_hosted_pn_user : Option Str → Bool
unfolding ends_with
is_hosted_pn_user jid = ends_with (codes "@hosted") jid

unfoldable pub is_hosted_lid_user : Option Str → Bool
unfolding ends_with
is_hosted_lid_user jid = ends_with (codes "@hosted.lid") jid

unfoldable pub is_jid_status_broadcast : Option Str → Bool
unfolding str_eq
is_jid_status_broadcast none = false
is_jid_status_broadcast (some jid) = str_eq jid (codes "status@broadcast")

-- `botRegexp`: one of two prefixes, and then exactly so many digits.
bot_pattern : Str → Bool
unfolding str_eq
bot_pattern s =
    (str_eq (take 7 s) (codes "1313555") && (length (drop 7 s) == 4 && all is_digit (drop 7 s)))
    || (str_eq (take 9 s) (codes "131655500")
        && (length (drop 9 s) == 2 && all is_digit (drop 9 s)))

unfoldable pub is_jid_bot : Option Str → Bool
unfolding bot_pattern ends_with first_part
is_jid_bot none = false
is_jid_bot (some jid) = bot_pattern (first_part b'@' jid) && ends_with (codes "@c.us") (some jid)

unfoldable pub is_jid_user : Option Str → Bool
unfolding is_pn_user
is_jid_user jid = is_pn_user jid || ends_with (codes "@c.us") jid

-- `fromDecoded?.device || 0`
abbrev device_or_zero : Option FullJid → Number
device_or_zero none = num 0
device_or_zero (some d) = elim d.device [ none ↦ num 0 | some n ↦ if truthy n then n else num 0 ]

abbrev transferred : Str → Number → Option FullJid → Str
transferred to device none = to
transferred to device (some d) = jid_encode d.user d.server (some device) none

pub transfer_device : Str → Str → Str
unfolding jid_encode jid_decode
transfer_device from to = transferred to (device_or_zero (jid_decode from)) (jid_decode to)

abbrev phone_of : Option FullJid → Option Str
phone_of none = none
phone_of (some d) =
    if str_eq d.server s_whatsapp_net || str_eq d.server c_us then some d.user else none

pub phone_from_jid : Str → Option Str
unfolding jid_decode str_eq
phone_from_jid jid = phone_of (jid_decode jid)
