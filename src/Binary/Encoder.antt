-- ===== src/Binary/Encoder.antt =====
-- src/binary/encoder.ts. A function that pushes to `buffer` returns the bytes that it pushes;
-- `none` is a thrown `Error`. Bit operations on the values in question are written as arithmetic:
-- `x & 0xff` is `x % 256`, `x >> 8` is `x / 256`, `(a << 4) | b` with `b < 16` is `a * 16 + b`.
mod Primitives
unfoldable pub use Primitives.*
use nexawhats.Common.{
  ◌>>=◌, ℕ, zero, suc, ◌+◌, ◌-◌, ◌*◌, ◌/◌, ◌%◌, leb, ltb, ◌==◌, if◌then◌else◌, Bool, true, false,
  ◌&&◌, ◌||◌, Option, none, some, List, [], ◌∷◌, ◌++◌, length, all,
}
use nexawhats.Common.Text.{Str}
use nexawhats.Jid.{FullJid, jid_decode}
use nexawhats.Jid.Numbers.{Number, num, nan}
use nexawhats.Binary.Tags
use nexawhats.Binary.Utf8.{utf8_encode}
use nexawhats.Binary.Tokens.{CodingOptions, TokenEntry, own, inherited, missing, find_token}
use nexawhats.Binary.{
  AttrValue, Attrs, Node, Content, Nodes, node, absent, bytes, children, invalid, nil, cons,
  nullish, other,
}

-- `pushByte(TAGS.DICTIONARY_0 + dict)` and `pushByte(index)`
abbrev pub token_bytes : TokenEntry → List ℕ
token_bytes e = elim e.dict [
  | none ↦ (e.index % 256) ∷ []
  | some d ↦ ((Tags.dictionary_0 + d) % 256) ∷ (e.index % 256) ∷ []
]

-- `pushByte(n || 0)`
abbrev pub number_byte : Number → ℕ
number_byte (num n) = n % 256
number_byte nan = 0

-- `user.length ? writeString(user) : pushByte(TAGS.LIST_EMPTY)`
abbrev pub write_pair_user : (Str → Option (List ℕ)) → Str → Option (List ℕ)
write_pair_user write [] = some (Tags.list_empty ∷ [])
write_pair_user write (c ∷ s) = write (c ∷ s)

-- `writeJid`; `write` is `writeString`.
unfoldable pub write_jid : (Str → Option (List ℕ)) → FullJid → Option (List ℕ)
write_jid write d = elim d.device [
  | some device ↦ (do
    user ← write d.user
    some (Tags.ad_jid ∷ number_byte d.domain_type ∷ number_byte device ∷ user))
  | none ↦ (do
    user ← write_pair_user write d.user
    server ← write d.server
    some (Tags.jid_pair ∷ (user ++ server)))
]

abbrev write_decoded : (Str → Option (List ℕ)) → Str → Option FullJid → Option (List ℕ)
write_decoded write s none = write_string_raw s
write_decoded write s (some d) = write_jid write d

-- `else if (str) { … }`: nothing is pushed for the empty string.
unfoldable pub write_text : (Str → Option (List ℕ)) → Str → Option (List ℕ)
write_text write [] = some []
write_text write (c ∷ s) = write_decoded write (c ∷ s) (jid_decode (c ∷ s))

module _ (opts : CodingOptions) where
  -- `writeString`. It calls itself on parts of an address, which are shorter: the fuel is above
  -- the length of the text.
  unfoldable pub write_string_from : ℕ → Str → Option (List ℕ)
  write_string_from zero s = none
  write_string_from (suc fuel) s = elim (find_token opts.token_map s) [
    | own e ↦ some (token_bytes e)
    | inherited ↦ some (0 ∷ [])
    | missing ↦
        let plain = write_text (write_string_from fuel) s in
        if is_nibble s
        then write_packed_bytes Tags.nibble_8 pack_nibble s
        else if is_hex s
        then write_packed_bytes Tags.hex_8 pack_hex s
        else plain
  ]

  unfoldable pub write_string : Str → Option (List ℕ)
  write_string s = write_string_from (length s + 1) s

unfoldable pub write_list_start : ℕ → List ℕ
write_list_start n =
    if n == 0
    then Tags.list_empty ∷ []
    else if ltb n 256
    then Tags.list_8 ∷ n ∷ []
    else Tags.list_16 ∷ int_16 n

-- `validAttributes`: what is neither `undefined` nor `null`.
unfoldable pub valid_attributes : Attrs → Attrs
valid_attributes [] = []
valid_attributes ((k, nullish) ∷ as') = valid_attributes as'
valid_attributes ((k, AttrValue.text v) ∷ as') = (k, AttrValue.text v) ∷ valid_attributes as'
valid_attributes ((k, other) ∷ as') = (k, other) ∷ valid_attributes as'

-- A child without a tag is filtered out.
abbrev pub is_valid : Node → Bool
is_valid (node [] attrs content) = false
is_valid (node (c ∷ s) attrs content) = true

unfoldable pub count_valid : Nodes → ℕ
count_valid nil = 0
count_valid (cons n ns) = if is_valid n then suc (count_valid ns) else count_valid ns

abbrev pub content_count : Content → ℕ
content_count absent = 0
content_count (Content.text s) = 1
content_count (bytes bs) = 1
content_count (children ns) = 1
content_count invalid = 1

module _ (opts : CodingOptions) where
  -- A value that is no string is counted in the list's size and not written.
  unfoldable pub write_attributes : Attrs → Option (List ℕ)
  write_attributes [] = some []
  write_attributes ((k, AttrValue.text v) ∷ as') = do
    key ← write_string opts k
    value ← write_string opts v
    rest ← write_attributes as'
    some (key ++ (value ++ rest))
  write_attributes ((k, nullish) ∷ as') = write_attributes as'
  write_attributes ((k, other) ∷ as') = write_attributes as'

  -- The head of a node: the size of its list, its tag and its attributes.
  unfoldable pub write_head : Str → Attrs → ℕ → Option (List ℕ)
  write_head [] valid count = none
  write_head (c ∷ s) valid count = do
    tag ← write_string opts (c ∷ s)
    attributes ← write_attributes valid
    some (write_list_start (2 * length valid + 1 + count) ++ (tag ++ attributes))

  unfoldable mutual
    pub encode_inner : Node → Option (List ℕ)
    encode_inner (node tag attrs content) = do
      head ← write_head tag (valid_attributes attrs) (content_count content)
      body ← write_content content
      some (head ++ body)

    pub write_content : Content → Option (List ℕ)
    write_content absent = some []
    write_content (Content.text s) = write_string opts s
    write_content (bytes bs) = write_bytes bs
    write_content (children ns) = do
      items ← write_children ns
      some (write_list_start (count_valid ns) ++ items)
    write_content invalid = none

    pub write_children : Nodes → Option (List ℕ)
    write_children nil = some []
    write_children (cons n ns) =
        let both = (do item ← encode_inner n; rest ← write_children ns; some (item ++ rest)) in
        if is_valid n then both else write_children ns

  -- `encodeBinaryNode`: the buffer begins with the prefix byte 0.
  unfoldable pub encode_binary_node : Node → Option (List ℕ)
  encode_binary_node n = do encoded ← encode_inner n; some (0 ∷ encoded)
