-- ===== src/Binary/Tests.antt =====
-- Runs of the codec of src/binary on small stanzas, with the tables of src/binary/constants.ts.
use nexawhats.Common.{
  ap, sym, ◌∙◌, map, length, ℕ, ◌≡◌, refl, arith, Option, none, some, true, false, List, [], ◌∷◌,
  ◌++◌,
}
use nexawhats.Common.Text.{Str, codes, has, includes, str_eq}
use nexawhats.Jid.Numbers.{decimal}
use nexawhats.Jid.{s_whatsapp_net}
use nexawhats.Jid.Laws.{IsUser}
use nexawhats.Binary.{absent, AttrValue, Node, node, bytes, children, nil, cons, nullish}
use nexawhats.Binary.Utf8.{utf8_encode, utf8_decode, is_well_formed}
use nexawhats.Binary.Utf8.RoundTrip.{utf8_decode-utf8_encode}
use nexawhats.Binary.Tokens.{
  find_token, add_single, add_dictionary, add_double, CodingOptions, constants, build,
}
use nexawhats.Binary.Tokens.Laws.{IsTable}
use nexawhats.Binary.Encoder.{
  encode_inner, write_head, write_content, write_string_from, write_list_start, write_attributes,
  write_string, encode_binary_node, valid_attributes,
}
use nexawhats.Binary.Decoder.{ok, read_string, decode_binary_node, is_index}
use nexawhats.Binary.RoundTrip.Strings.{WireText, plain, device, whatsapp}
use nexawhats.Binary.RoundTrip.Addresses.{IsSound, read_string-write_string}
use nexawhats.Binary.RoundTrip.Nodes.{
  wire_absent, WireNode, wire_node, wire_bytes, wire_children, wire_cons, wire_nil, arrived, count,
  decode_binary_node-encode_binary_node,
}
use nexawhats.Binary.Constants.{constants-IsSound, build-IsSound}
use nexawhats.Binary.Streams.{
  Fits, encode_binary_nodes, decode_binary_nodes, decode_binary_nodes-encode_binary_nodes,
}

-- The euro sign, a surrogate pair and a letter.
abbrev mixed : Str
mixed = 8364 ∷ 55357 ∷ 56832 ∷ 65 ∷ []

mixed_well : is_well_formed mixed ≡ true
unfolding is_well_formed
mixed_well = refl

utf8_decode-utf8_encode_example : utf8_decode (utf8_encode mixed) ≡ mixed
utf8_decode-utf8_encode_example = utf8_decode-utf8_encode mixed mixed_well

iq-WireText : WireText (codes "iq")
unfolding has includes str_eq is_well_formed utf8_encode
iq-WireText = plain _ (λ e. ground arith) refl refl refl (omega arith)

to-WireText : WireText (codes "to")
unfolding has includes str_eq is_well_formed utf8_encode
to-WireText = plain _ (λ e. ground arith) refl refl refl (omega arith)

ping-WireText : WireText (codes "ping")
unfolding has includes str_eq is_well_formed utf8_encode
ping-WireText = plain _ (λ e. ground arith) refl refl refl (omega arith)

alice-WireText : WireText (codes "15551234")
unfolding has includes str_eq is_well_formed utf8_encode
alice-WireText = plain _ (λ e. ground arith) refl refl refl (omega arith)

alice-IsUser : IsUser (codes "15551234")
unfolding has
alice-IsUser = record { no_at = refl; no_colon = refl; no_underscore = refl }

abbrev alice_device : Str
alice_device = codes "15551234:12@s.whatsapp.net"

alice_device-WireText : WireText alice_device
unfolding decimal
alice_device-WireText =
    device (codes "15551234") s_whatsapp_net 12 alice-IsUser alice-WireText whatsapp (omega arith)
      (omega arith)

read_string-write_string_example :
    (tag : ℕ) × (body : List ℕ) × (write_string constants alice_device ≡ some (tag ∷ body))
    × ((rest : List ℕ) → read_string constants tag (body ++ rest) ≡ ok (alice_device, rest))
read_string-write_string_example =
    read_string-write_string constants alice_device constants-IsSound alice_device-WireText

abbrev ping : Node
ping =
    node (codes "iq") ((codes "to", AttrValue.text alice_device) ∷ (codes "id", nullish) ∷ [])
      (children (cons (node (codes "ping") [] (bytes (1 ∷ 2 ∷ 3 ∷ []))) nil))

not_index : is_index (codes "to") ≡ false
unfolding is_index
not_index = refl

ping-WireNode : WireNode ping
unfolding valid_attributes str_eq count
ping-WireNode =
    wire_node (codes "iq") _ _ iq-WireText
      (to-WireText, alice_device-WireText, refl, not_index, tt, tt) (omega arith)
      (wire_children _ (omega arith) (
        wire_cons _ _
          (wire_node (codes "ping") [] _ ping-WireText tt (omega arith)
            (wire_bytes _ (omega arith)))
          wire_nil))

-- A zlib that fails.
abbrev pub no_inflate : List ℕ → Option (List ℕ)
no_inflate bs = none

decode_binary_node-encode_binary_node_example :
    (buffer : List ℕ) × (encode_binary_node constants ping ≡ some buffer)
    × (decode_binary_node constants no_inflate buffer ≡ ok (arrived constants ping))
decode_binary_node-encode_binary_node_example =
    decode_binary_node-encode_binary_node constants no_inflate ping constants-IsSound ping-WireNode

abbrev pub small_single : List Str
small_single = [] ∷ codes "iq" ∷ codes "to" ∷ []

abbrev pub small_double : List (List Str)
small_double = (codes "ping" ∷ codes "pong" ∷ []) ∷ []

pub small-IsTable : IsTable small_single small_double
small-IsTable = record {
  first = refl;
  singles = omega arith;
  dictionaries = omega arith;
  entries = omega arith;
}

build-IsSound_example : IsSound (build small_single small_double)
build-IsSound_example = build-IsSound small_single small_double small-IsTable

-- A list that promises more than there is.
abbrev pub small : CodingOptions
small = build small_single small_double

abbrev pub alone : Node
alone = node (codes "iq") [] absent

pub alone_encoded : encode_binary_node small alone ≡ some (0 ∷ 248 ∷ 1 ∷ 1 ∷ [])
unfolding encode_binary_node encode_inner write_head write_content write_string write_string_from
    find_token write_list_start valid_attributes write_attributes build add_single add_dictionary
    add_double str_eq
alone_encoded = refl

abbrev pub size_of : Option (List ℕ) → ℕ
size_of none = 0
size_of (some bs) = length bs

alone-Fits : Fits small alone
alone-Fits buf e = omega (arith, ap size_of (sym alone_encoded ∙ e))

pub alone-WireNode : WireNode alone
unfolding valid_attributes
alone-WireNode = wire_node (codes "iq") [] absent iq-WireText tt (omega arith) wire_absent

decode_binary_nodes-encode_binary_nodes_example :
    (bytes : List ℕ) × (encode_binary_nodes small (alone ∷ alone ∷ []) ≡ some bytes)
    × (decode_binary_nodes small no_inflate bytes ≡ ok (map (arrived small) (alone ∷ alone ∷ [])))
decode_binary_nodes-encode_binary_nodes_example =
    decode_binary_nodes-encode_binary_nodes small no_inflate (alone ∷ alone ∷ [])
      (build-IsSound small_single small_double small-IsTable)
      ((alone-WireNode, alone-Fits), ((alone-WireNode, alone-Fits), tt))
