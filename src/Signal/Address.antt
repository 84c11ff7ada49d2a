-- ===== src/Signal/Address.antt =====
-- The addresses of src/signal/libsignal.ts: `jidToSignalProtocolAddress` and the text of an address,
-- which is that of the class `ProtocolAddress` of libsignal, `id.deviceId`.
use nexawhats.Common.{◌==◌, if◌then◌else◌, Bool, false, not, ◌&&◌, Option, none, some, ◌∷◌, ◌++◌}
use nexawhats.Common.Text.{Str, str_eq}
use nexawhats.Jid.Numbers.{Number, num, nan}
use nexawhats.Jid.{FullJid, jid_decode, whatsapp_domain, hosted, hosted_lid}
use nexawhats.Messages.Receive.{present}
use nexawhats.Signal.LidPairs.{number_text, is_99}

pub record ProtocolAddress : Type 0 where
  pub id : Str
  pub device_id : Number

abbrev pub address_text : ProtocolAddress → Str
address_text a = a.id ++ (b'.' ∷ number_text a.device_id)

pub data AddressError : Type 0 where
  could_not_decode empty_user unexpected_device_99 : AddressError

pub data Addressed : Type 0 where
  address : ProtocolAddress → Addressed
  refused : AddressError → Addressed

abbrev pub is_whatsapp : Number → Bool
is_whatsapp nan = false
is_whatsapp (num n) = n == whatsapp_domain

-- The user, marked with its domain where that is not the usual one.
abbrev pub signal_user : FullJid → Str
signal_user d =
    if is_whatsapp d.domain_type then d.user else d.user ++ (b'_' ∷ number_text d.domain_type)

abbrev pub device_or_zero : Option Number → Number
device_or_zero none = num 0
device_or_zero (some n) = n

abbrev pub is_device_99 : Option Number → Bool
is_device_99 none = false
is_device_99 (some n) = is_99 n

unfoldable pub address_of : FullJid → Addressed
address_of d =
    if not (present (some d.user))
    then refused empty_user
    else if is_device_99 d.device
        && (not (str_eq d.server hosted) && not (str_eq d.server hosted_lid))
    then refused unexpected_device_99
    else address (record { id = signal_user d; device_id = device_or_zero d.device })

unfoldable pub jid_to_signal_protocol_address : Str → Addressed
jid_to_signal_protocol_address jid = elim (jid_decode jid) [
  | none ↦ refused could_not_decode
  | some d ↦ address_of d
]
