-- ===== src/Binary/RoundTrip/Nodes/Whole.antt =====
-- TODO
use nexawhats.Common.{
  ℕ, zero, suc, ◌+◌, ◌-◌, ◌*◌, ◌/◌, ◌≤◌, ◌<◌, ◌≡◌, ◌≢◌, refl, ap, ◌∙◌, arith, ◌==◌, false, ◌||◌,
  some, List, [], ◌∷◌, ◌++◌, length, length-append, appends,
}
use nexawhats.Common.Text.{Str}
use nexawhats.Binary.{Attrs, Content, node, absent}
use nexawhats.Binary.Tokens.{CodingOptions}
use nexawhats.Binary.Encoder.{
  write_string, write_list_start, write_attributes, write_head, encode_inner, content_count,
  valid_attributes,
}
use nexawhats.Binary.Decoder.{
  ok, read_byte, read_string, read_list_size, read_attributes, read_content_if_even, decode_from,
}
use nexawhats.Binary.RoundTrip.Sizes.{ListStart, list_start}
use nexawhats.Binary.RoundTrip.Attributes.{IsAttributes, AttributesCarried, attributes_carried}
use nexawhats.Binary.RoundTrip.Strings.{WireText}
use nexawhats.Binary.RoundTrip.Addresses.{IsSound, read_string-write_string, WireText-ne-nil}
use nexawhats.Binary.RoundTrip.Nodes.Wire.{arrived, arrived_content}
use nexawhats.Binary.RoundTrip.Nodes.Parts.{NodeCarried, ContentCarried}

length_pos : (s : Str) → s ≢ [] → 0 < length s
length_pos [] ne = absurd (ne refl)
length_pos (c ∷ s) ne = omega arith

content_count_le : (c : Content) → content_count c ≤ 1
content_count_le absent = omega arith
content_count_le _ = omega arith

pub decode_node :
    (opts : CodingOptions) (g lt ht size : ℕ) (header : Str) (attrs : Attrs) (c : Content)
    (bs more after_header after_attrs rest : List ℕ)
    → read_list_size lt bs ≡ ok (size, ht ∷ more)
    → read_string opts ht more ≡ ok (header, after_header)
    → size ≢ 0
    → header ≢ []
    → read_attributes opts ((size - 1) / 2) [] after_header ≡ ok (attrs, after_attrs)
    → read_content_if_even opts (decode_from opts g) size after_attrs ≡ ok (c, rest)
    → decode_from opts (suc g) (lt ∷ bs) ≡ ok (node header attrs c, rest)
unfolding decode_from read_byte
decode_node opts g lt ht size header attrs c bs more a b rest e f sized tagged i j =
    rw e (rw f (rw valid (rw i (rw j refl))))
  where
    valid : (size == 0 || length header == 0) ≡ false
    valid = ground (arith, length_pos header tagged)

head_written :
    (opts : CodingOptions) (tag : Str) (valid : Attrs) (k : ℕ) (t a : List ℕ)
    → tag ≢ []
    → write_string opts tag ≡ some t
    → write_attributes opts valid ≡ some a
    → write_head opts tag valid k ≡ some (write_list_start (2 * length valid + 1 + k) ++ (t ++ a))
unfolding write_head
head_written opts [] valid k t a ne e f = absurd (ne refl)
head_written opts (c ∷ s) valid k t a ne e f = rw e (rw f refl)

module _ (opts : CodingOptions) (h : IsSound opts) (tag : Str) (attrs : Attrs)
    (content : Content) where
  pub node_carried :
      WireText tag
      → IsAttributes [] (valid_attributes attrs)
      → length (valid_attributes attrs) < 32767
      → ContentCarried opts content
      → NodeCarried opts (node tag attrs content)
  unfolding encode_inner arrived
  node_carried wt wa few c =
      of
        (list_start (2 * length (valid_attributes attrs) + 1 + content_count content)
          (omega (arith, content_count_le content)))
        (read_string-write_string opts tag h wt)
        (attributes_carried opts h [] (valid_attributes attrs) wa)
    where
      of :
          ListStart (2 * length (valid_attributes attrs) + 1 + content_count content)
          → (t : ℕ) × (body : List ℕ) × (write_string opts tag ≡ some (t ∷ body))
            × ((rest : List ℕ) → read_string opts t (body ++ rest) ≡ ok (tag, rest))
          → AttributesCarried opts h [] (valid_attributes attrs)
          → NodeCarried opts (node tag attrs content)
      of z (t, body, wrote, read) a = record {
        bytes = ((z.tag ∷ z.body) ++ ((t ∷ body) ++ a.bytes)) ++ c.bytes;
        written =
            rw
              (head_written opts tag (valid_attributes attrs) (content_count content) (t ∷ body)
                a.bytes (WireText-ne-nil wt) wrote a.written)
              (rw c.written (rw z.written refl));
        some_byte = omega arith;
        read_back = back;
      }
        where
          regroup :
              (rest : List ℕ)
              → ((z.body ++ ((t ∷ body) ++ a.bytes)) ++ c.bytes) ++ rest
                ≡ z.body ++ (t ∷ (body ++ (a.bytes ++ (c.bytes ++ rest))))
          regroup rest = simp appends

          half :
              (2 * length (valid_attributes attrs) + 1 + content_count content - 1) / 2
              ≡ length (valid_attributes attrs)
          half = omega (arith, content_count_le content)

          longer :
              (rest : List ℕ)
              → length (c.bytes ++ rest)
                ≤ length (((z.body ++ ((t ∷ body) ++ a.bytes)) ++ c.bytes) ++ rest)
          longer rest = omega (
            arith,
            length-append ((z.body ++ ((t ∷ body) ++ a.bytes)) ++ c.bytes) rest,
            length-append (z.body ++ ((t ∷ body) ++ a.bytes)) c.bytes,
            length-append c.bytes rest,
          )

          back :
              (g : ℕ) (rest : List ℕ)
              → length ((((z.tag ∷ z.body) ++ ((t ∷ body) ++ a.bytes)) ++ c.bytes) ++ rest) < g
              → decode_from opts g
                  ((((z.tag ∷ z.body) ++ ((t ∷ body) ++ a.bytes)) ++ c.bytes) ++ rest)
                ≡ ok (arrived opts (node tag attrs content), rest)
          back zero rest bound = absurd (omega arith)
          back (suc g) rest bound =
              ap (λ l. decode_from opts (suc g) (z.tag ∷ l)) (regroup rest)
              ∙ decode_node opts g z.tag t _ tag (valid_attributes attrs)
                  (arrived_content opts content) _ _ (a.bytes ++ (c.bytes ++ rest))
                  (c.bytes ++ rest) rest
                  (z.read_back (t ∷ (body ++ (a.bytes ++ (c.bytes ++ rest)))))
                  (read (a.bytes ++ (c.bytes ++ rest))) (omega arith) (WireText-ne-nil wt)
                  (ap (λ n. read_attributes opts n [] (a.bytes ++ (c.bytes ++ rest))) half
                    ∙ a.read_back (c.bytes ++ rest))
                  (c.read_back g (length (valid_attributes attrs)) rest
                    (omega (arith, longer rest)))
