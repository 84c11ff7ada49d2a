-- ===== src/Binary/Decoder.antt =====
-- src/binary/decoder.ts. The index only grows, so the buffer from the index on is the state: a
-- reader takes it and returns its value with what is left. In the source a BINARY_32 length is a
-- signed 32-bit number, and a negative one moves the index back: the model stops there, with
-- `rewind`, of which no theorem says that it is a success.
mod Readers
unfoldable pub use Readers.*
use nexawhats.Common.{
  ℕ, zero, suc, ◌+◌, ◌-◌, ◌*◌, ◌/◌, ◌%◌, leb, ltb, ◌==◌, if◌then◌else◌, Bool, false, not, ◌&&◌,
  ◌||◌, Option, none, some, List, [], ◌∷◌, ◌++◌, length, all, take, drop, get_elem?,
}
use nexawhats.Common.Text.{Str, codes, str_eq}
use nexawhats.Jid.{jid_encode, get_server_from_domain_type, s_whatsapp_net}
use nexawhats.Jid.Numbers.{num, digits_value}
use nexawhats.Binary.Tags
use nexawhats.Binary.Utf8.{utf8_decode}
use nexawhats.Binary.Tokens.{CodingOptions}
use nexawhats.Binary.{
  AttrValue, Attrs, Node, Content, Nodes, node, absent, bytes, children, nil, cons,
}

module _ (opts : CodingOptions) where
  unfoldable pub read_token_double : ℕ → Reader Str
  read_token_double i = do
    j ← read_byte
    λ bs. bind (get_token_double opts.double i j) λ s. ok (s, bs)

  -- `readString`. Each address inside an address has a tag of its own, so fuel above the number
  -- of bytes left is enough.
  -- The cases of `readString`, with the readers that call it again.
  unfoldable pub read_tag : Reader Str → Reader Str → ℕ → Reader Str
  read_tag pair device tag =
      if leb 1 tag && ltb tag (length opts.single)
      then pure (token_or_empty (get_elem? opts.single tag))
      else if leb Tags.dictionary_0 tag && leb tag Tags.dictionary_3
      then read_token_double (tag - Tags.dictionary_0)
      else if tag == Tags.list_empty
      then pure []
      else if tag == Tags.binary_8
      then (do n ← read_byte; read_string_from_chars n)
      else if tag == Tags.binary_20
      then (do n ← read_int_20; read_string_from_chars n)
      else if tag == Tags.binary_32
      then (do n ← read_length_32; read_string_from_chars n)
      else if tag == Tags.jid_pair
      then pair
      else if tag == Tags.ad_jid
      then device
      else if tag == Tags.hex_8 || tag == Tags.nibble_8
      then read_packed_8 tag
      else throw invalid_string_tag

  unfoldable pub read_string_from : ℕ → ℕ → Reader Str
  read_string_from zero tag = λ bs. out_of_fuel
  read_string_from (suc fuel) tag =
      read_tag (read_jid_pair (read_string_from fuel)) (read_ad_jid (read_string_from fuel)) tag

  unfoldable pub read_string : ℕ → Reader Str
  read_string tag bs = read_string_from (length bs + 1) tag bs

-- An array index, which objects keep in front in numeric order.
unfoldable pub is_index : Str → Bool
is_index [] = false
is_index (c ∷ s) =
    all (λ d. leb b'0' d && leb d b'9') (c ∷ s)
    && ((not (c == b'0') || length s == 0) && ltb (digits_value 0 (c ∷ s)) 4294967295)

abbrev goes_before : Str → Str → Bool
goes_before key k =
    is_index key && (not (is_index k) || ltb (digits_value 0 key) (digits_value 0 k))

-- `attrs[key] = value` for a key that is not `__proto__`.
unfoldable pub assign : Str → Str → Attrs → Attrs
assign key value [] = (key, AttrValue.text value) ∷ []
assign key value ((k, v) ∷ as') =
    if str_eq k key
    then (k, AttrValue.text value) ∷ as'
    else if goes_before key k
    then (key, AttrValue.text value) ∷ (k, v) ∷ as'
    else (k, v) ∷ assign key value as'

-- Setting the prototype to a string is ignored.
unfoldable pub set_attribute : Str → Str → Attrs → Attrs
set_attribute key value attrs =
    if str_eq key (codes "__proto__") then attrs else assign key value attrs

module _ (opts : CodingOptions) where
  -- The loop over the attributes, `n` rounds.
  unfoldable pub read_attributes : ℕ → Attrs → Reader Attrs
  read_attributes zero attrs = pure attrs
  read_attributes (suc n) attrs = do
    t ← read_byte
    key ← read_string opts t
    u ← read_byte
    value ← read_string opts u
    read_attributes n (set_attribute key value attrs)

-- The loop of `readList`.
unfoldable pub read_nodes : Reader Node → ℕ → Reader Nodes
read_nodes decode zero = pure nil
read_nodes decode (suc n) = do item ← decode; rest ← read_nodes decode n; pure (cons item rest)

-- `decompressingIfRequired`; `inflate` is the one of Node's `zlib`, which may fail.
unfoldable pub decompressing_if_required : (List ℕ → Option (List ℕ)) → List ℕ → Result (List ℕ)
decompressing_if_required inflate [] = err read_out_of_range
decompressing_if_required inflate (b ∷ bs) =
    if b / 2 % 2 == 1
    then elim (inflate bs) [ none ↦ err inflate_failed | some out ↦ ok out ]
    else ok bs

module _ (opts : CodingOptions) where
  abbrev pub bytes_of_length : Reader ℕ → Reader Content
  bytes_of_length size = do n ← size; bs ← read_bytes n; pure (bytes bs)

  -- The content of a node, by its tag; `decode` reads a child.
  unfoldable pub read_content : Reader Node → ℕ → Reader Content
  read_content decode tag =
      if is_list_tag tag
      then (do n ← read_list_size tag; items ← read_nodes decode n; pure (children items))
      else if tag == Tags.binary_8
      then bytes_of_length read_byte
      else if tag == Tags.binary_20
      then bytes_of_length read_int_20
      else if tag == Tags.binary_32
      then bytes_of_length read_length_32
      else (do s ← read_string opts tag; pure (Content.text s))

  -- A list of even size ends in the content.
  unfoldable pub read_content_if_even : Reader Node → ℕ → Reader Content
  read_content_if_even decode size =
      let content = (do tag ← read_byte; read_content decode tag) in
      if size % 2 == 0 then content else pure absent

  -- `!listSize || !header.length`
  abbrev pub is_invalid : ℕ → Str → Bool
  is_invalid size header = size == 0 || length header == 0

  -- `decodeDecompressedBinaryNode`. Each node takes at least one byte, so fuel above the number
  -- of bytes is enough.
  unfoldable pub decode_from : ℕ → Reader Node
  decode_from zero = λ bs. out_of_fuel
  decode_from (suc fuel) = do
    list_tag ← read_byte
    size ← read_list_size list_tag
    header_tag ← read_byte
    header ← read_string opts header_tag
    let body = (do
      attrs ← read_attributes opts ((size - 1) / 2) []
      content ← read_content_if_even (decode_from fuel) size
      pure (node header attrs content))
    if is_invalid size header then throw invalid_node else body

  unfoldable pub decode_decompressed_binary_node : List ℕ → Result (Node × List ℕ)
  decode_decompressed_binary_node bs = decode_from (length bs + 1) bs

  unfoldable pub decode_binary_node : (List ℕ → Option (List ℕ)) → List ℕ → Result Node
  decode_binary_node inflate buff =
      bind (decompressing_if_required inflate buff)
        λ bs. bind (decode_decompressed_binary_node bs) λ (n, rest). ok n
