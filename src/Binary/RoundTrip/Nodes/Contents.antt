-- ===== src/Binary/RoundTrip/Nodes/Contents.antt =====
-- TODO
use nexawhats.Common.{
  ℕ, suc, ◌+◌, ◌<◌, ◌≡◌, refl, ap, ◌∙◌, arith, if◌then◌else◌, true, inl, inr, List, [], ◌∷◌, ◌++◌,
  length, length-append, append_assoc,
}
use nexawhats.Common.Text.{Str}
use nexawhats.Binary.{Node, Content, Nodes, absent, bytes, children, nil, cons}
use nexawhats.Binary.Utf8.{utf8_encode}
use nexawhats.Binary.Tokens.{CodingOptions}
use nexawhats.Binary.Encoder.{write_string, write_content, write_children, count_valid, is_valid}
use nexawhats.Binary.Decoder.{Reader, ok, read_string, read_nodes, read_content, decode_from}
use nexawhats.Binary.RoundTrip.Sizes.{ListStart, list_start, SizedBytes, sized_bytes}
use nexawhats.Binary.RoundTrip.Strings.{WireText, sent_raw, Carried, Kind}
use nexawhats.Binary.RoundTrip.Addresses.{IsSound, carried}
use nexawhats.Binary.RoundTrip.Nodes.Wire.{arrived, arrived_nodes, count}
use nexawhats.Binary.RoundTrip.Nodes.Parts.{
  NodeCarried, ContentCarried, NodesCarried, content_even, content_odd, content_bytes, content_text,
  content_children,
}

module _ (opts : CodingOptions) (h : IsSound opts) where
  pub absent_carried : ContentCarried opts absent
  unfolding write_content arrived
  absent_carried = record {
    bytes = [];
    written = refl;
    read_back = λ g k rest bound. content_odd opts (decode_from opts g) k rest;
  }

  pub bytes_carried : (bs : List ℕ) → length bs < 2147483648 → ContentCarried opts (bytes bs)
  unfolding write_content arrived
  bytes_carried bs short = of (sized_bytes bs short)
    where
      of : SizedBytes bs → ContentCarried opts (bytes bs)
      of z = record {
        bytes = z.tag ∷ z.body;
        written = z.written;
        read_back = λ g k rest bound.
            content_even opts (decode_from opts g) k z.tag (z.body ++ rest)
            ∙ content_bytes opts (decode_from opts g) z.tag (z.body ++ rest) bs rest z.binary
                (z.read_back rest);
      }

  pub text_carried : (s : Str) → WireText s → ContentCarried opts (Content.text s)
  unfolding write_content arrived write_string
  text_carried s w = of (carried opts h w (length s + 1) (omega arith))
    where
      read :
          (c : Carried opts (length s + 1) s) (decode : Reader Node) (rest : List ℕ)
          → Kind opts s c.tag c.body
          → read_content opts decode c.tag (c.body ++ rest)
            ≡ ok ((if sent_raw opts s then bytes (utf8_encode s) else Content.text s), rest)
      read c decode rest (inl (binary, raw, back)) =
          rw raw (content_bytes opts decode c.tag _ (utf8_encode s) rest binary (back rest))
      read c decode rest (inr (plain_tag, raw)) = rw raw (
          content_text opts decode c.tag _ rest s plain_tag
            (unfold read_string in c.read_back _ rest (omega arith)))

      of : Carried opts (length s + 1) s → ContentCarried opts (Content.text s)
      of c = record {
        bytes = c.tag ∷ c.body;
        written = c.written;
        read_back = λ g k rest bound.
            content_even opts (decode_from opts g) k c.tag (c.body ++ rest)
            ∙ read c (decode_from opts g) rest c.kind;
      }

  pub children_carried :
      (ns : Nodes) → count ns < 65536 → NodesCarried opts ns → ContentCarried opts (children ns)
  unfolding write_content arrived
  children_carried ns few c = of (list_start (count ns) few)
    where
      of : ListStart (count ns) → ContentCarried opts (children ns)
      of z = record {
        bytes = z.tag ∷ (z.body ++ c.bytes);
        written = rw c.written (rw c.counted (rw z.written refl));
        read_back = λ g k rest bound.
            content_even opts (decode_from opts g) k z.tag ((z.body ++ c.bytes) ++ rest)
            ∙ ap (read_content opts (decode_from opts g) z.tag) (append_assoc z.body c.bytes rest)
            ∙ content_children opts (decode_from opts g) z.tag (count ns) _ (c.bytes ++ rest) rest
                (arrived_nodes opts ns) z.is_list (z.read_back (c.bytes ++ rest))
                (c.read_back g rest (
                  omega (
                    arith,
                    length-append (z.body ++ c.bytes) rest,
                    length-append z.body c.bytes,
                    length-append c.bytes rest,
                  )));
      }

  pub nil_carried : NodesCarried opts nil
  unfolding write_children arrived read_nodes count_valid count
  nil_carried = record {
    bytes = [];
    written = refl;
    counted = refl;
    read_back = λ g rest bound. refl;
  }

  pub cons_carried :
      (n : Node) (ns : Nodes)
      → is_valid n ≡ true
      → NodeCarried opts n
      → NodesCarried opts ns
      → NodesCarried opts (cons n ns)
  unfolding write_children arrived read_nodes count_valid count
  cons_carried n ns valid c d = record {
    bytes = c.bytes ++ d.bytes;
    written = rw valid (rw c.written (rw d.written refl));
    counted = rw valid (ap suc d.counted);
    read_back = back;
  }
    where
      back :
          (g : ℕ) (rest : List ℕ)
          → length ((c.bytes ++ d.bytes) ++ rest) < g
          → read_nodes (decode_from opts g) (suc (count ns)) ((c.bytes ++ d.bytes) ++ rest)
            ≡ ok (cons (arrived opts n) (arrived_nodes opts ns), rest)
      back g rest bound = rw (append_assoc c.bytes d.bytes rest) (
          rw
            (c.read_back g (d.bytes ++ rest)
              (omega (arith, ap length (append_assoc c.bytes d.bytes rest))))
            (rw
              (d.read_back g rest (
                omega (
                  arith,
                  ap length (append_assoc c.bytes d.bytes rest),
                  length-append c.bytes (d.bytes ++ rest),
                )))
              refl))
