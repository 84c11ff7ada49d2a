-- ===== src/Binary/Helpers.antt =====
-- The accessors of src/binary/types.ts, and `encodeBigEndian` of src/proto/payload.ts, which writes
-- the numbers that one of them reads.
use nexawhats.Common.{
  ℕ, zero, suc, ◌+◌, ◌*◌, ◌/◌, ◌%◌, ◌^◌, if◌then◌else◌, Bool, true, false, Option, none, some, List,
  [], ◌∷◌, ◌++◌, get_elem?,
}
use nexawhats.Common.Text.{Str, codes, str_eq}
use nexawhats.Common.Dict.{Dict, put, lookup}
use nexawhats.Jid.Numbers.{Number, num, to_number}
use nexawhats.Binary.{
  AttrValue, Node, Content, Nodes, absent, bytes, children, nil, cons, tag_of, content_of, attrs_of,
}
use nexawhats.Binary.Utf8.{utf8_decode}

abbrev pub list_of : Nodes → List Node
list_of nil = []
list_of (cons n ns) = n ∷ list_of ns

unfoldable pub has_child_nodes : Node → Bool
has_child_nodes n = elim (content_of n) [ children ns ↦ true | _ ↦ false ]

abbrev pub text_of : Content → Option Str
text_of (Content.text s) = some s
text_of (bytes bs) = some (utf8_decode bs)
text_of _ = none

unfoldable pub get_text_content : Node → Option Str
get_text_content n = text_of (content_of n)

abbrev pub bytes_of : Content → Option (List ℕ)
bytes_of (bytes bs) = some bs
bytes_of _ = none

unfoldable pub get_binary_content : Node → Option (List ℕ)
get_binary_content n = bytes_of (content_of n)

-- `find` and `filter` with the test of the tag.
unfoldable pub find_tag : Str → List Node → Option Node
find_tag tag [] = none
find_tag tag (n ∷ ns) = if str_eq (tag_of n) tag then some n else find_tag tag ns

unfoldable pub filter_tag : Str → List Node → List Node
filter_tag tag [] = []
filter_tag tag (n ∷ ns) =
    let rest = filter_tag tag ns in if str_eq (tag_of n) tag then n ∷ rest else rest

unfoldable pub get_all_binary_node_children : Node → List Node
get_all_binary_node_children n = elim (content_of n) [ children ns ↦ list_of ns | _ ↦ [] ]

unfoldable pub find_child_node : Node → Str → Option Node
find_child_node n tag = elim (content_of n) [ children ns ↦ find_tag tag (list_of ns) | _ ↦ none ]

unfoldable pub find_child_nodes : Node → Str → List Node
find_child_nodes n tag = elim (content_of n) [ children ns ↦ filter_tag tag (list_of ns) | _ ↦ [] ]

-- `?.content`
abbrev pub child_content : Node → Str → Content
child_content n tag = elim (find_child_node n tag) [ none ↦ absent | some child ↦ content_of child ]

unfoldable pub get_binary_node_child_buffer : Node → Str → Option (List ℕ)
get_binary_node_child_buffer n child_tag = bytes_of (child_content n child_tag)

unfoldable pub get_binary_node_child_string : Node → Str → Option Str
get_binary_node_child_string n child_tag = text_of (child_content n child_tag)

-- The loop over the bytes; one that is not there makes the number `NaN`.
unfoldable pub uint_from : ℕ → ℕ → ℕ → List ℕ → Number
uint_from zero i a buff = num a
uint_from (suc n) i a buff = elim (get_elem? buff i) [
  | none ↦ Number.nan
  | some b ↦ uint_from n (i + 1) (256 * a + b) buff
]

unfoldable pub get_binary_node_child_uint : Node → Str → ℕ → Option Number
get_binary_node_child_uint n child_tag len = elim (get_binary_node_child_buffer n child_tag) [
  | none ↦ none
  | some buff ↦ some (uint_from len 0 0 buff)
]

-- `encodeBigEndian`: the loop from the last byte, on unsigned numbers of 32 bits.
unfoldable pub encode_big_endian : ℕ → ℕ → List ℕ
encode_big_endian value zero = []
encode_big_endian value (suc n) = encode_big_endian (value % 2 ^ 32 / 256) n ++ ((value % 256) ∷ [])

-- An attribute that is a text.
abbrev pub attr : Str → Node → Option Str
attr name n = elim (lookup name (attrs_of n)) [
  | none ↦ none
  | some value ↦ elim value [ AttrValue.text s ↦ some s | _ ↦ none ]
]

-- `s || later`, and `truthy` texts.
abbrev pub or_else : Option Str → Option Str → Option Str
or_else none later = later
or_else (some []) later = later
or_else (some (c ∷ s)) later = some (c ∷ s)

-- The error that `assertNodeErrorFree` throws, with its `data`.
pub record NodeError : Type 0 where
  pub message : Str
  pub data_of : Option Number

abbrev pub code_number : Option Str → Option Number
code_number none = none
code_number (some []) = none
code_number (some (c ∷ s)) = some (to_number (c ∷ s))

abbrev pub message_or : Option Str → Str
message_or none = codes "Unknown error"
message_or (some s) = s

abbrev pub error_of : Node → NodeError
error_of n = record {
  message = message_or (or_else (attr (codes "text") n) none);
  data_of = code_number (attr (codes "code") n);
}

-- `none` when nothing is thrown.
unfoldable pub assert_node_error_free : Node → Option NodeError
assert_node_error_free n = elim (find_child_node n (codes "error")) [
  | none ↦ none
  | some err_node ↦ some (error_of err_node)
]

-- The key of an entry: a text, or what `undefined` is as a key.
abbrev key_or : Option Str → Option Str → Str
key_or (some name) code = name
key_or none (some code) = code
key_or none none = codes "undefined"

unfoldable pub reduce_from : List Node → Dict (Option Str) → Dict (Option Str)
reduce_from [] dict = dict
reduce_from (n ∷ ns) dict = reduce_from ns (
    put (key_or (attr (codes "name") n) (attr (codes "config_code") n))
      (or_else (attr (codes "value") n) (attr (codes "config_value") n)) dict)

unfoldable pub reduce_binary_node_to_dictionary : Node → Str → Dict (Option Str)
reduce_binary_node_to_dictionary n tag = reduce_from (find_child_nodes n tag) []
