-- ===== src/Binary.antt =====
-- src/binary/types.ts: the nodes that go over the wire.
pub mod Tests
pub mod Tags
pub mod Utf8
pub mod Tokens
pub mod Encoder
pub mod Decoder
pub mod RoundTrip
pub mod Constants
pub mod Streams
pub mod Termination
pub mod Helpers
pub mod Lookup
use nexawhats.Common.{ℕ, List}
use nexawhats.Common.Text.{Str}

-- A value in `attrs`. The declared type is `string`; the encoder also tests for `undefined` and
-- `null` (`nullish`) and for any other type (`other`).
pub data AttrValue : Type 0 where
  text : Str → AttrValue
  nullish : AttrValue
  other : AttrValue

-- `attrs`: the entries of the object in the order in which `Object.keys` gives them.
abbrev pub Attrs : Type 0
Attrs = List (Str × AttrValue)

-- `content`; `invalid` is a value of none of the declared types.
mutual
  pub data Node : Type 0 where
    node : (tag : Str) → (attrs : Attrs) → (content : Content) → Node

  pub data Content : Type 0 where
    absent : Content
    text : Str → Content
    bytes : List ℕ → Content
    children : Nodes → Content
    invalid : Content

  pub data Nodes : Type 0 where
    nil : Nodes
    cons : Node → Nodes → Nodes

abbrev pub tag_of : Node → Str
tag_of (node tag attrs content) = tag

abbrev pub content_of : Node → Content
content_of (node tag attrs content) = content

abbrev pub attrs_of : Node → Attrs
attrs_of (node tag attrs content) = attrs
