-- ===== src/Binary/RoundTrip/Addresses.antt =====
-- Every text that survives the format is written under one tag and read back, addresses included.
mod Plain
mod Pairs
mod Devices
unfoldable pub use Plain.*
unfoldable pub use Pairs.*
unfoldable pub use Devices.*
use nexawhats.Common.{
  ℕ, zero, suc, ◌+◌, ◌<◌, ◌≡◌, ◌≢◌, refl, sym, ap, ◌∙◌, arith, ◌==◌, true, false, not, ◌&&◌, inl,
  inr, Option, none, some, List, [], ◌∷◌, ◌++◌, length, length-append, append_assoc, Bool-cases,
  all,
}
use mathlib.Core.Path.{ap₂}
use nexawhats.Common.Text.{Str, str_eq, has, includes, str_eq→eq, cut-none}
use nexawhats.Jid.{
  FullJid, jid_decode, jid_encode, domain_of, s_whatsapp_net, get_server_from_domain_type,
}
use nexawhats.Jid.Numbers.{Number, num, decimal}
use nexawhats.Jid.Laws.{IsUser, decode_plain, decode_device}
use nexawhats.Binary.Utf8.{utf8_encode, is_well_formed}
use nexawhats.Binary.Tokens.{CodingOptions, TokenEntry, own, missing, find_token, inherited_names}
use nexawhats.Binary.Tokens.Laws.{
  StandsFor, IsTable, Entries, find_token-Entries, find_token-inherited, TokenRef-cases,
}
use nexawhats.Binary.Encoder.{
  is_nibble, is_hex, write_text, write_jid, write_string_from, write_string, number_byte,
}
use nexawhats.Binary.Decoder.{
  Reader, ok, read_string_from, read_tag, read_jid_pair, read_ad_jid, read_byte, read_string,
  pair_result,
}
use nexawhats.Binary.RoundTrip.Packed.{nibble_bytes, hex_bytes}
use nexawhats.Binary.RoundTrip.Strings.{
  WireText, IsDeviceServer, whatsapp, linked, hosted_pn, hosted_linked, plain, no_user, pair,
  device, Carried, single-Carried, double-Carried, packed-Carried, raw-Carried, read_nibble,
  read_hex, read_pair, read_device, sent_raw, IsPlainTag,
}

length_server : (user server : Str) → length server < length (user ++ (b'@' ∷ server))
length_server user server = omega (arith, length-append user (b'@' ∷ server))

length_user : (user : Str) (c : ℕ) (more : Str) → length user < length (user ++ (c ∷ more))
length_user user c more = omega (arith, length-append user (c ∷ more))

has_device_at :
    (user server : Str) (n : ℕ) → has b'@' (user ++ (b':' ∷ (decimal n ++ (b'@' ∷ server)))) ≡ true
has_device_at user server n =
    ap (has b'@') (sym (append_assoc user (b':' ∷ decimal n) (b'@' ∷ server)))
    ∙ has-append_mark b'@' (user ++ (b':' ∷ decimal n)) server

-- Text that survives the format is written with any fuel above its length, and read back.
pub carried :
    (opts : CodingOptions) (h : IsSound opts) {s : Str} (w : WireText s) (fuel : ℕ)
    → length s < fuel
    → Carried opts fuel s
carried opts h (plain s ne at own_name well fits) zero short = absurd (omega arith)
carried opts h (plain s ne at own_name well fits) (suc fuel) short =
    plain-Carried opts h fuel s ne at own_name well fits
carried opts h (no_user server w) zero short = absurd (omega arith)
carried opts h (no_user server w) (suc fuel) short =
    Address-Carried opts h fuel _ (has-append_mark b'@' [] server)
      (no_user-Address opts h fuel server (WireText-ne-nil w) (carried opts h w fuel (omega arith)))
carried opts h (pair user server marks wu ws) zero short = absurd (omega arith)
carried opts h (pair user server marks wu ws) (suc fuel) short =
    Address-Carried opts h fuel _ (has-append_mark b'@' user server) (
      pair-Address opts h fuel server user marks (WireText-ne-nil wu) (WireText-ne-nil ws)
        (carried opts h wu fuel (omega (arith, length_user user b'@' server)))
        (carried opts h ws fuel (omega (arith, length_server user server))))
carried opts h (device user server n marks wu ds pos small) zero short = absurd (omega arith)
carried opts h (device user server n marks wu ds pos small) (suc fuel) short =
    Address-Carried opts h fuel _ (has_device_at user server n) (
      device-Address opts h fuel user server n marks (domain_byte ds) pos small (
        carried opts h wu fuel
          (omega (arith, length_user user b':' (decimal n ++ (b'@' ∷ server))))))

-- What `writeString` writes for text that survives is read back by `readString` as the same text,
-- whatever follows, if the tables are sound.
pub read_string-write_string :
    (opts : CodingOptions) (s : Str)
    → IsSound opts
    → WireText s
    → (tag : ℕ) × (body : List ℕ) × (write_string opts s ≡ some (tag ∷ body))
      × ((rest : List ℕ) → read_string opts tag (body ++ rest) ≡ ok (s, rest))
unfolding write_string read_string
read_string-write_string opts s h w =
    let c = carried opts h w (length s + 1) (omega arith) in
    (c.tag, c.body, c.written, λ rest. c.read_back _ rest (omega arith))
