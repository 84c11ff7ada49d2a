-- ===== src/Signal/Repository.antt =====
-- The sessions of src/signal/libsignal.ts: `signalStorage` and the operations of the repository on
-- sessions. A session `S` is stored as what `serialize` gives; `deserialize` is `none` when it throws.
use nexawhats.Common.{
  ℕ, ◌==◌, if◌then◌else◌, Bool, true, false, not, ◌||◌, Option, none, some, List, [], ◌∷◌, ◌++◌,
}
use nexawhats.Common.Text.{Str, codes, str_eq, has, first_part, second_part}
use nexawhats.Common.Dict.{Dict, lookup, put, remove}
use nexawhats.Jid.Numbers.{Number, num, nan, parse_int}
use nexawhats.Jid.{hosted, s_whatsapp_net, lid_domain, hosted_domain, hosted_lid_domain}
use nexawhats.Messages.Receive.{present}
use nexawhats.Signal.Address.{address_text, address, refused, jid_to_signal_protocol_address}

-- What is used of the mapping store.
pub record LidLookup : Type 1 where
  pub State : Type 0
  pub get_lid_for_pn : Str → State → State × Option Str

abbrev is_number : ℕ → Number → Bool
is_number m nan = false
is_number m (num n) = n == m

abbrev domain_type_of : Option Str → Number
domain_type_of none = num 0
domain_type_of (some s) = parse_int s

abbrev or_empty : Option Str → Str
or_empty none = []
or_empty (some s) = s

-- The phone number that an address stands for, where a LID is looked up for it.
unfoldable pub pn_jid_of : Str → Option Str
pn_jid_of id =
    let device = or_empty (second_part b'.' id) in
    let user = first_part b'_' (first_part b'.' id) in
    let domain_type = domain_type_of (second_part b'_' (first_part b'.' id)) in
    if not (has b'.' id)
    then none
    else if is_number lid_domain domain_type || is_number hosted_lid_domain domain_type
    then none
    else some (
        user
        ++ ((if str_eq device (codes "0") then [] else b':' ∷ device)
            ++ (b'@' ∷ (if is_number hosted_domain domain_type then hosted else s_whatsapp_net))))

pub data Validation : Type 0 where
  exists no_session no_open_session validation_error : Validation

-- The class `SessionRecord` of libsignal.
pub record SessionRecord (S V : Type 0) : Type 0 where
  pub serialize : S → V
  pub deserialize : V → Option S
  pub have_open_session : S → Bool

module _ (lids : LidLookup) where
  abbrev pub resolved_by : Str → Option Str → Option Str
  resolved_by id none = some id
  resolved_by id (some lid) =
      if not (present (some lid)) then some id else elim (jid_to_signal_protocol_address lid) [
        | refused e ↦ none
        | address a ↦ some (address_text a)
      ]

  -- `none` when it throws.
  unfoldable pub resolve_lid_signal_address : Str → lids.State → lids.State × Option Str
  resolve_lid_signal_address id s = elim (pn_jid_of id) [
    | none ↦ (s, some id)
    | some pn ↦ let r = lids.get_lid_for_pn pn s in (r.0, resolved_by id r.1)
  ]

  module _ {S V : Type 0} (k : SessionRecord S V) where
    pub record Repository : Type 0 where
      pub lid_mapping : lids.State
      pub sessions : Dict V

    abbrev pub deserialized : Option V → Option S
    deserialized none = none
    deserialized (some v) = k.deserialize v

    abbrev pub load_from : Option Str → Dict V → Option S
    load_from none sessions = none
    load_from (some wire) sessions = deserialized (lookup wire sessions)

    unfoldable pub load_session : Str → Repository → Repository × Option S
    load_session id r =
        let (mapping, wire) = resolve_lid_signal_address id r.lid_mapping in
        (record r { lid_mapping = mapping }, load_from wire r.sessions)

    -- The flag is false when it throws.
    abbrev pub store_at : S → Repository → lids.State × Option Str → Repository × Bool
    store_at session r (mapping, none) = (record r { lid_mapping = mapping }, false)
    store_at session r (mapping, some wire) = (
      record { lid_mapping = mapping; sessions = put wire (k.serialize session) r.sessions },
      true,
    )

    unfoldable pub store_session : Str → S → Repository → Repository × Bool
    store_session id session r = store_at session r (resolve_lid_signal_address id r.lid_mapping)

    abbrev pub verdict : Option S → Validation
    verdict none = no_session
    verdict (some s) = if k.have_open_session s then exists else no_open_session

    unfoldable pub validate_session : Str → Repository → Repository × Validation
    validate_session jid r = elim (jid_to_signal_protocol_address jid) [
      | refused e ↦ (r, validation_error)
      | address a ↦ let loaded = load_session (address_text a) r in (loaded.0, verdict loaded.1)
    ]

    -- The addresses to delete; `none` when one throws.
    unfoldable pub addresses_of : List Str → Option (List Str)
    addresses_of [] = some []
    addresses_of (jid ∷ jids) = elim (jid_to_signal_protocol_address jid) [
      | refused e ↦ none
      | address a ↦ elim (addresses_of jids) [
        | none ↦ none
        | some rest ↦ some (address_text a ∷ rest)
      ]
    ]

    unfoldable pub remove_all : List Str → Dict V → Dict V
    remove_all [] sessions = sessions
    remove_all (a ∷ as') sessions = remove_all as' (remove a sessions)

    unfoldable pub delete_session : List Str → Repository → Repository × Bool
    delete_session jids r = elim (addresses_of jids) [
      | none ↦ (r, false)
      | some addresses ↦ (record r { sessions = remove_all addresses r.sessions }, true)
    ]
