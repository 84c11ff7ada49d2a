-- ===== src/Binary/RoundTrip/Strings/Text.antt =====
-- TODO
use nexawhats.Common.{
  ℕ, ◌≤◌, ◌<◌, ◌≡◌, ◌≢◌, Bool, true, false, not, ◌&&◌, ◌⊎◌, Option, none, some, List, [], ◌∷◌, ◌++◌,
  length,
}
use nexawhats.Common.Text.{Str, has, includes}
use nexawhats.Jid.{FullJid, jid_decode, lid, hosted, hosted_lid, s_whatsapp_net}
use nexawhats.Jid.Numbers.{decimal}
use nexawhats.Jid.Laws.{IsUser}
use nexawhats.Binary.Utf8.{utf8_encode, is_well_formed}
use nexawhats.Binary.Tokens.{CodingOptions, missing, find_token, inherited_names}
use nexawhats.Binary.Encoder.{is_nibble, is_hex, write_string_from}
use nexawhats.Binary.Decoder.{ok, read_string_from}
use nexawhats.Binary.RoundTrip.Sizes.{IsBinaryTag, read_sized}

-- The servers that an address with a device can have: those that `readAdJid` knows.
pub data IsDeviceServer : Str → Type 0 where
  whatsapp : IsDeviceServer s_whatsapp_net
  linked : IsDeviceServer lid
  hosted_pn : IsDeviceServer hosted
  hosted_linked : IsDeviceServer hosted_lid

-- Text that survives the wire format.
pub data WireText : Str → Type 0 where
  plain :
      (s : Str)
      → s ≢ []
      → has b'@' s ≡ false
      → includes s inherited_names ≡ false
      → is_well_formed s ≡ true
      → length (utf8_encode s) < 2147483648
      → WireText s
  no_user : (server : Str) → WireText server → WireText (b'@' ∷ server)
  pair :
      (user server : Str)
      → IsUser user
      → WireText user
      → WireText server
      → WireText (user ++ (b'@' ∷ server))
  device :
      (user server : Str) (n : ℕ)
      → IsUser user
      → WireText user
      → IsDeviceServer server
      → 0 < n
      → n < 256
      → WireText (user ++ (b':' ∷ (decimal n ++ (b'@' ∷ server))))

abbrev pub is_no_jid : Option FullJid → Bool
is_no_jid none = true
is_no_jid (some d) = false

-- The text goes out as UTF-8 bytes, which the receiver cannot tell from binary content.
unfoldable pub sent_raw : CodingOptions → Str → Bool
sent_raw opts s = elim (find_token opts.token_map s) [
  | missing ↦ not (is_nibble s) && (not (is_hex s) && is_no_jid (jid_decode s))
  | _ ↦ false
]

abbrev pub IsPlainTag : ℕ → Type 0
IsPlainTag t = (1 ≤ t) × (t ≢ 248) × (t ≢ 249) × (t ≢ 252) × (t ≢ 253) × (t ≢ 254)

-- How a string stands in a content position: as bytes under a binary tag, or under another tag.
abbrev pub Kind : CodingOptions → Str → ℕ → List ℕ → Type 0
Kind opts s tag body =
    (IsBinaryTag tag
      × (sent_raw opts s ≡ true)
      × ((rest : List ℕ) → read_sized tag (body ++ rest) ≡ ok (utf8_encode s, rest)))
    ⊎ (IsPlainTag tag × (sent_raw opts s ≡ false))

pub record Carried (opts : CodingOptions) (fuel : ℕ) (s : Str) : Type 0 where
  pub tag : ℕ
  pub body : List ℕ
  pub written : write_string_from opts fuel s ≡ some (tag ∷ body)
  pub kind : Kind opts s tag body
  pub read_back :
      (g : ℕ) (rest : List ℕ)
      → length (body ++ rest) < g
      → read_string_from opts g tag (body ++ rest) ≡ ok (s, rest)
