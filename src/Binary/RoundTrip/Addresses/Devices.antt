-- ===== src/Binary/RoundTrip/Addresses/Devices.antt =====
-- Addresses of a device.
use nexawhats.Common.{
  ℕ, zero, suc, ◌<◌, ◌≡◌, refl, ap, ◌∙◌, arith, ◌==◌, false, none, some, List, ◌∷◌, ◌++◌, length,
}
use mathlib.Core.Path.{ap₂}
use nexawhats.Common.Text.{Str, str_eq}
use nexawhats.Jid.{jid_encode, domain_of, s_whatsapp_net, get_server_from_domain_type}
use nexawhats.Jid.Numbers.{num, decimal}
use nexawhats.Jid.Laws.{IsUser, decode_device}
use nexawhats.Binary.Tokens.{CodingOptions}
use nexawhats.Binary.Encoder.{write_jid, number_byte}
use nexawhats.Binary.Decoder.{ok, read_string_from}
use nexawhats.Binary.RoundTrip.Strings.{
  IsDeviceServer, whatsapp, linked, hosted_pn, hosted_linked, Carried, read_device,
}
use nexawhats.Binary.RoundTrip.Addresses.Plain.{IsSound, Address}
use nexawhats.Binary.RoundTrip.Addresses.Pairs.{device_read}

-- The domain byte leads back to the server.
pub record DomainByte (server : Str) : Type 0 where
  pub byte : ℕ
  pub written : number_byte (domain_of server none) ≡ byte
  server_back : get_server_from_domain_type s_whatsapp_net byte ≡ server

pub domain_byte : {server : Str} → IsDeviceServer server → DomainByte server
unfolding domain_of get_server_from_domain_type str_eq
domain_byte whatsapp = record { byte = 0; written = refl; server_back = refl }
domain_byte linked = record { byte = 1; written = refl; server_back = refl }
domain_byte hosted_pn = record { byte = 128; written = refl; server_back = refl }
domain_byte hosted_linked = record { byte = 129; written = refl; server_back = refl }

encode_device :
    (user server : Str) (n : ℕ)
    → 0 < n
    → jid_encode user server (some (num n)) none ≡ user ++ (b':' ∷ (decimal n ++ (b'@' ∷ server)))
unfolding jid_encode
encode_device user server n pos = rw positive refl
  where
    positive : (n == 0) ≡ false
    positive = ground arith

pub device-Address :
    (opts : CodingOptions) (h : IsSound opts) (fuel : ℕ) (user server : Str) (n : ℕ)
    → IsUser user
    → DomainByte server
    → 0 < n
    → n < 256
    → Carried opts fuel user
    → Address opts fuel (user ++ (b':' ∷ (decimal n ++ (b'@' ∷ server))))
unfolding write_jid
device-Address opts h fuel user server n marks domain pos small c = record {
  tag = 247;
  body = domain.byte ∷ n ∷ c.tag ∷ c.body;
  decoded = _;
  is_address = decode_device user server n marks;
  written =
      rw c.written (ap₂ (λ a b. some (247 ∷ a ∷ b ∷ c.tag ∷ c.body)) domain.written (omega arith));
  plain_tag = omega arith;
  read_back = back;
}
  where
    back :
        (g : ℕ) (rest : List ℕ)
        → length (domain.byte ∷ n ∷ c.tag ∷ (c.body ++ rest)) < g
        → read_string_from opts g 247 (domain.byte ∷ n ∷ c.tag ∷ (c.body ++ rest))
          ≡ ok (user ++ (b':' ∷ (decimal n ++ (b'@' ∷ server))), rest)
    back zero rest bound = absurd (omega arith)
    back (suc g) rest bound =
        read_device opts h.table g _
        ∙ device_read (read_string_from opts g) domain.byte n c.tag user _ rest
            (c.read_back g rest (omega arith))
        ∙ ap (λ t. ok (t, rest)) (rw domain.server_back (encode_device user server n pos))
