-- ===== src/Binary/RoundTrip/Nodes.antt =====
-- Whole nodes: decoding what `encodeBinaryNode` wrote.
mod Wire
mod Parts
mod Contents
mod Whole
unfoldable pub use Wire.*
unfoldable pub use Parts.*
unfoldable pub use Contents.*
unfoldable pub use Whole.*
use nexawhats.Common.{
  ℕ, zero, suc, ◌+◌, ◌-◌, ◌*◌, ◌/◌, ◌%◌, ◌≤◌, ◌<◌, ◌≡◌, ◌≢◌, refl, sym, ap, ◌∙◌, arith, ◌==◌,
  if◌then◌else◌, true, false, ◌||◌, inl, inr, Option, some, List, [], ◌∷◌, ◌++◌, length,
  length-append, append_assoc, append-nil,
}
use nexawhats.Common.Text.{Str}
use nexawhats.Binary.{
  Attrs, Node, Content, Nodes, node, absent, bytes, children, invalid, nil, cons,
}
use nexawhats.Binary.Utf8.{utf8_encode}
use nexawhats.Binary.Tokens.{CodingOptions}
use nexawhats.Binary.Encoder.{
  write_string, write_list_start, write_attributes, write_head, encode_inner, write_content,
  write_children, count_valid, content_count, valid_attributes, encode_binary_node, is_valid,
}
use nexawhats.Binary.Decoder.{
  Result, Reader, ok, err, rewind, out_of_fuel, read_byte, read_bytes, read_int_20, read_length_32,
  read_string, read_list_size, read_attributes, read_nodes, read_content, read_content_if_even,
  decode_from, decode_binary_node, bind, decompressing_if_required, decode_decompressed_binary_node,
}
use nexawhats.Binary.RoundTrip.Sizes.{
  ListStart, list_start, SizedBytes, sized_bytes, IsBinaryTag, IsListTag, read_sized,
}
use nexawhats.Binary.RoundTrip.Attributes.{IsAttributes, AttributesCarried, attributes_carried}
use nexawhats.Binary.RoundTrip.Strings.{WireText, sent_raw, Carried, Kind, IsPlainTag}
use nexawhats.Binary.RoundTrip.Addresses.{
  IsSound, read_string-write_string, carried, WireText-ne-nil,
}

is_valid_of_tag :
    (tag : Str) (attrs : Attrs) (content : Content)
    → tag ≢ []
    → is_valid (node tag attrs content) ≡ true
is_valid_of_tag [] attrs content ne = absurd (ne refl)
is_valid_of_tag (c ∷ s) attrs content ne = refl

WireNode-is_valid : {n : Node} → WireNode n → is_valid n ≡ true
WireNode-is_valid (wire_node tag attrs content wt wa few wc) =
    is_valid_of_tag tag attrs content (WireText-ne-nil wt)

module _ (opts : CodingOptions) (h : IsSound opts) where
  mutual
    WireNode-NodeCarried : {n : Node} → WireNode n → NodeCarried opts n
    WireNode-NodeCarried (wire_node tag attrs content wt wa few wc) =
        node_carried opts h tag attrs content wt wa few (WireContent-ContentCarried wc)

    WireContent-ContentCarried : {c : Content} → WireContent c → ContentCarried opts c
    WireContent-ContentCarried wire_absent = absent_carried opts h
    WireContent-ContentCarried (wire_text s w) = text_carried opts h s w
    WireContent-ContentCarried (wire_bytes bs short) = bytes_carried opts h bs short
    WireContent-ContentCarried (wire_children ns few w) =
        children_carried opts h ns few (WireNodes-NodesCarried w)

    WireNodes-NodesCarried : {ns : Nodes} → WireNodes ns → NodesCarried opts ns
    WireNodes-NodesCarried wire_nil = nil_carried opts h
    WireNodes-NodesCarried (wire_cons n ns w ws) =
        cons_carried opts h n ns (WireNode-is_valid w) (WireNode-NodeCarried w)
          (WireNodes-NodesCarried ws)

-- A node that survives the format is encoded, and decoding the buffer gives what arrives of it:
-- the node without the attributes that have no value, its raw text as bytes. The tables are sound;
-- `inflate` is not called, whatever it does.
pub decode_binary_node-encode_binary_node :
    (opts : CodingOptions) (inflate : List ℕ → Option (List ℕ)) (n : Node)
    → IsSound opts
    → WireNode n
    → (buffer : List ℕ) × (encode_binary_node opts n ≡ some buffer)
      × (decode_binary_node opts inflate buffer ≡ ok (arrived opts n))
unfolding encode_binary_node decode_binary_node decompressing_if_required
    decode_decompressed_binary_node
decode_binary_node-encode_binary_node opts inflate n h w = of (WireNode-NodeCarried opts h w)
  where
    of :
        NodeCarried opts n
        → (buffer : List ℕ) × (encode_binary_node opts n ≡ some buffer)
          × (decode_binary_node opts inflate buffer ≡ ok (arrived opts n))
    of c = (0 ∷ c.bytes, rw c.written refl, decoded)
      where
        all_read : decode_from opts (length c.bytes + 1) c.bytes ≡ ok (arrived opts n, [])
        all_read =
            ap (decode_from opts (length c.bytes + 1)) (sym (append-nil c.bytes))
            ∙ c.read_back (length c.bytes + 1) [] (omega (arith, ap length (append-nil c.bytes)))

        decoded : decode_binary_node opts inflate (0 ∷ c.bytes) ≡ ok (arrived opts n)
        decoded = rw all_read refl
