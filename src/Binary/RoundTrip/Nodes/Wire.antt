-- ===== src/Binary/RoundTrip/Nodes/Wire.antt =====
-- TODO
use nexawhats.Common.{ℕ, suc, ◌<◌, if◌then◌else◌, List, [], length}
use nexawhats.Common.Text.{Str}
use nexawhats.Binary.{
  Attrs, Node, Content, Nodes, node, absent, bytes, children, invalid, nil, cons,
}
use nexawhats.Binary.Utf8.{utf8_encode}
use nexawhats.Binary.Tokens.{CodingOptions}
use nexawhats.Binary.Encoder.{valid_attributes}
use nexawhats.Binary.RoundTrip.Attributes.{IsAttributes}
use nexawhats.Binary.RoundTrip.Strings.{WireText, sent_raw}

-- What the receiver gets: text that goes out raw arrives as bytes, attributes without a value are
-- gone.
module _ (opts : CodingOptions) where
  unfoldable mutual
    pub arrived : Node → Node
    arrived (node tag attrs content) = node tag (valid_attributes attrs) (arrived_content content)

    pub arrived_content : Content → Content
    arrived_content absent = absent
    arrived_content (Content.text s) =
        if sent_raw opts s then bytes (utf8_encode s) else Content.text s
    arrived_content (bytes bs) = bytes bs
    arrived_content (children ns) = children (arrived_nodes ns)
    arrived_content invalid = invalid

    pub arrived_nodes : Nodes → Nodes
    arrived_nodes nil = nil
    arrived_nodes (cons n ns) = cons (arrived n) (arrived_nodes ns)

unfoldable pub count : Nodes → ℕ
count nil = 0
count (cons n ns) = suc (count ns)

-- Nodes that survive the wire format.
mutual
  pub data WireNode : Node → Type 0 where
    wire_node :
        (tag : Str) (attrs : Attrs) (content : Content)
        → WireText tag
        → IsAttributes [] (valid_attributes attrs)
        → length (valid_attributes attrs) < 32767
        → WireContent content
        → WireNode (node tag attrs content)

  pub data WireContent : Content → Type 0 where
    wire_absent : WireContent absent
    wire_text : (s : Str) → WireText s → WireContent (Content.text s)
    wire_bytes : (bs : List ℕ) → length bs < 2147483648 → WireContent (bytes bs)
    wire_children : (ns : Nodes) → count ns < 65536 → WireNodes ns → WireContent (children ns)

  pub data WireNodes : Nodes → Type 0 where
    wire_nil : WireNodes nil
    wire_cons : (n : Node) (ns : Nodes) → WireNode n → WireNodes ns → WireNodes (cons n ns)
