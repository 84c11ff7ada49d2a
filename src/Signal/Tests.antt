-- ===== src/Signal/Tests.antt =====
-- Runs of the store of LIDs, with a cache that keeps everything.
use nexawhats.Common.{ℕ, ◌+◌, ◌-◌, inl, true, false, ◌∷◌}
use nexawhats.Common.Text.{str_eq, has, first_part, second_part}
use nexawhats.Jid.Numbers.{decimal, parse_int}
use nexawhats.Signal.Address.{
  ProtocolAddress, address_text, address, address_of, jid_to_signal_protocol_address,
}
use nexawhats.Signal.Addresses.{address_text-injective}
use nexawhats.Signal.Repository.{
  LidLookup, SessionRecord, Repository, pn_jid_of, exists, load_session, store_session,
  validate_session, delete_session,
}
use nexawhats.Signal.Sessions.{validate_session-delete_session}
use nexawhats.Signal.Known.{Knows, lookup_of-IsKnown}
use nexawhats.Common.{true, ◌≡◌, refl, ap, arith, [], ◌∷◌, none, some, get_elem?}
use nexawhats.Common.Text.{Str, codes}
use nexawhats.Common.Dict.{lookup}
use nexawhats.Jid.Numbers.{num, to_number}
use nexawhats.Jid.{c_us, FullJid, jid_decode, is_pn_user, ends_with, s_whatsapp_net, lid, domain_of}
use nexawhats.Messages.Tests.{keep_all, keep_all-IsCache}
use nexawhats.Signal.LidPairs.{LidPnPair, device_lid}
use nexawhats.Signal.LidMapping.{LidMappingStore, get_lid_for_pn}

abbrev pair : LidPnPair
pair = record { lid_jid = codes "77:3@lid"; pn_jid = codes "15:3@s.whatsapp.net" }

abbrev l : FullJid
l = record {
  user = codes "77";
  device = some (num 3);
  server = lid;
  domain_type = domain_of lid none;
}

abbrev n : FullJid
n = record {
  user = codes "15";
  device = some (num 3);
  server = s_whatsapp_net;
  domain_type = domain_of s_whatsapp_net none;
}

abbrev new : LidMappingStore (keep_all Str)
new = record { cache = []; db = [] }

pair_is_pn : is_pn_user (some pair.pn_jid) ≡ true
unfolding is_pn_user ends_with
pair_is_pn = refl

pn_decodes : jid_decode pair.pn_jid ≡ some n
unfolding jid_decode to_number
pn_decodes = refl

abbrev pn_address : ProtocolAddress
pn_address = record { id = codes "15"; device_id = num 3 }

abbrev lid_address : ProtocolAddress
lid_address = record { id = codes "77_1"; device_id = num 3 }

pn_addressed : jid_to_signal_protocol_address pair.pn_jid ≡ address pn_address
unfolding jid_to_signal_protocol_address address_of jid_decode to_number domain_of str_eq
pn_addressed = refl

lid_addressed : jid_to_signal_protocol_address (device_lid n (codes "77")) ≡ address lid_address
unfolding jid_to_signal_protocol_address address_of jid_decode to_number decimal str_eq domain_of
lid_addressed = refl

pn_found : pn_jid_of (address_text pn_address) ≡ some pair.pn_jid
unfolding pn_jid_of parse_int decimal str_eq first_part second_part has
pn_found = refl

-- The same device under the older server.
abbrev old_jid : Str
old_jid = codes "15:3@c.us"

abbrev old : FullJid
old = record n { server = c_us; domain_type = domain_of c_us none }

old_decodes : jid_decode old_jid ≡ some old
unfolding jid_decode to_number
old_decodes = refl

old_addressed : jid_to_signal_protocol_address old_jid ≡ address pn_address
unfolding jid_to_signal_protocol_address address_of jid_decode to_number domain_of str_eq
old_addressed = refl

no_dot : has b'.' n.user ≡ false
unfolding has
no_dot = refl

address_text-injective_example :
    (n.user ≡ old.user) × (n.domain_type ≡ old.domain_type) × (num 3 ≡ num 3)
address_text-injective_example =
    address_text-injective pair.pn_jid old_jid n old pn_address pn_address pn_decodes old_decodes
      no_dot no_dot pn_addressed old_addressed refl

abbrev mapped : LidMappingStore (keep_all Str)
mapped = record { cache = []; db = (codes "15", codes "77") ∷ [] }

mapped-Knows :
    Knows
      (keep_all Str)
      none
      pair.pn_jid
      n
      pair_is_pn
      pn_decodes
      (codes "77")
      (keep_all-IsCache Str)
      refl
      mapped
unfolding lookup str_eq
mapped-Knows = record { stored = refl; cached = inl refl }

abbrev lids : LidLookup
lids = record {
  State = LidMappingStore (keep_all Str);
  get_lid_for_pn = get_lid_for_pn (keep_all Str) none;
}

abbrev plain_sessions : SessionRecord ℕ ℕ
plain_sessions = record {
  serialize = λ s. s + 1000;
  deserialize = λ v. some (v - 1000);
  have_open_session = λ s. true;
}

abbrev no_sessions : Repository lids plain_sessions
no_sessions = record { lid_mapping = mapped; sessions = [] }

validate_session-delete_session_example :
    let stored = (store_session lids plain_sessions (address_text pn_address) 5 no_sessions).0 in
    let deleted = delete_session lids plain_sessions (pair.pn_jid ∷ []) stored in
    ((load_session lids plain_sessions (address_text pn_address) stored).1 ≡ some 5)
    × (deleted.1 ≡ true)
    × ((validate_session lids plain_sessions pair.pn_jid deleted.0).1 ≡ exists)
validate_session-delete_session_example =
    validate_session-delete_session lids pair.pn_jid (device_lid n (codes "77"))
      (Knows (keep_all Str) none pair.pn_jid n pair_is_pn pn_decodes (codes "77")
        (keep_all-IsCache Str) refl)
      (lookup_of-IsKnown (keep_all Str) none pair.pn_jid n pair_is_pn pn_decodes (codes "77")
        (keep_all-IsCache Str) refl)
      plain_sessions pair.pn_jid pn_address lid_address 5 pn_addressed pn_found refl lid_addressed
      (λ e. grind (arith, ap (λ s. get_elem? s 0) e)) refl refl no_sessions mapped-Knows

-- An agent in the user of a phone number is the domain type, so that a LID has the same address.
shared_address :
    jid_to_signal_protocol_address (codes "15_1@s.whatsapp.net")
    ≡ jid_to_signal_protocol_address (codes "15@lid")
unfolding jid_to_signal_protocol_address address_of jid_decode to_number domain_of str_eq parse_int
shared_address = refl
