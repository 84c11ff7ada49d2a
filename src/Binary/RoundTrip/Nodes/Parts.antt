-- ===== src/Binary/RoundTrip/Nodes/Parts.antt =====
-- TODO
use nexawhats.Common.{
  ℕ, ◌+◌, ◌*◌, ◌%◌, ◌<◌, ◌≡◌, refl, arith, ◌==◌, true, false, ◌||◌, inl, inr, some, List, ◌∷◌, ◌++◌,
  length,
}
use nexawhats.Common.Text.{Str}
use nexawhats.Binary.{Node, Content, Nodes, absent, bytes, children}
use nexawhats.Binary.Tokens.{CodingOptions}
use nexawhats.Binary.Encoder.{
  encode_inner, write_content, write_children, count_valid, content_count,
}
use nexawhats.Binary.Decoder.{
  Result, Reader, ok, err, rewind, out_of_fuel, read_byte, read_bytes, read_int_20, read_length_32,
  read_string, read_list_size, read_nodes, read_content, read_content_if_even, decode_from, bind,
}
use nexawhats.Binary.RoundTrip.Sizes.{IsBinaryTag, IsListTag, read_sized}
use nexawhats.Binary.RoundTrip.Strings.{IsPlainTag}
use nexawhats.Binary.RoundTrip.Nodes.Wire.{arrived, arrived_content, arrived_nodes, count}

pub bytes_of :
    (size : Reader ℕ) (bs out rest : List ℕ)
    → bind (size bs) (λ (n, more). read_bytes n more) ≡ ok (out, rest)
    → bind {B = Content × List ℕ}
        (size bs)
        (λ (n, more). bind {B = Content × List ℕ} (read_bytes n more) (λ (b, m). ok (bytes b, m)))
      ≡ ok (bytes out, rest)
bytes_of size bs out rest h = go (size bs) h
  where
    go :
        (r : Result (ℕ × List ℕ))
        → bind r (λ (n, more). read_bytes n more) ≡ ok (out, rest)
        → bind {B = Content × List ℕ} r (λ (n, more).
          bind {B = Content × List ℕ} (read_bytes n more) (λ (b, m). ok (bytes b, m)))
          ≡ ok (bytes out, rest)
    go (ok (n, more)) e = rw e refl
    go (err x) e = cc
    go rewind e = cc
    go out_of_fuel e = cc

module _ (opts : CodingOptions) where
  pub record NodeCarried (n : Node) : Type 0 where
    pub bytes : List ℕ
    pub written : encode_inner opts n ≡ some bytes
    pub some_byte : 0 < length bytes
    pub read_back :
        (g : ℕ) (rest : List ℕ)
        → length (bytes ++ rest) < g
        → decode_from opts g (bytes ++ rest) ≡ ok (arrived opts n, rest)

  -- The content of a node whose list has `k` elements before it.
  pub record ContentCarried (c : Content) : Type 0 where
    pub bytes : List ℕ
    pub written : write_content opts c ≡ some bytes
    pub read_back :
        (g k : ℕ) (rest : List ℕ)
        → length (bytes ++ rest) < g
        → read_content_if_even opts
            (decode_from opts g)
            (2 * k + 1 + content_count c)
            (bytes ++ rest)
          ≡ ok (arrived_content opts c, rest)

  pub record NodesCarried (ns : Nodes) : Type 0 where
    pub bytes : List ℕ
    pub written : write_children opts ns ≡ some bytes
    pub counted : count_valid ns ≡ count ns
    pub read_back :
        (g : ℕ) (rest : List ℕ)
        → length (bytes ++ rest) < g
        → read_nodes (decode_from opts g) (count ns) (bytes ++ rest)
          ≡ ok (arrived_nodes opts ns, rest)

  -- A list of even size has content, one of odd size has none.
  pub content_even :
      (decode : Reader Node) (k t : ℕ) (bs : List ℕ)
      → read_content_if_even opts decode (2 * k + 1 + 1) (t ∷ bs) ≡ read_content opts decode t bs
  unfolding read_content_if_even read_byte
  content_even decode k t bs = rw even refl
    where
      even : ((2 * k + 1 + 1) % 2 == 0) ≡ true
      even = ground arith

  pub content_odd :
      (decode : Reader Node) (k : ℕ) (bs : List ℕ)
      → read_content_if_even opts decode (2 * k + 1 + 0) bs ≡ ok (absent, bs)
  unfolding read_content_if_even read_byte
  content_odd decode k bs = rw odd refl
    where
      odd : ((2 * k + 1 + 0) % 2 == 0) ≡ false
      odd = ground arith

  pub content_bytes :
      (decode : Reader Node) (t : ℕ) (bs out rest : List ℕ)
      → IsBinaryTag t
      → read_sized t bs ≡ ok (out, rest)
      → read_content opts decode t bs ≡ ok (bytes out, rest)
  unfolding read_content
  content_bytes decode t bs out rest (inl e) h = rw e (bytes_of read_byte bs out rest (rw e at h))
  content_bytes decode t bs out rest (inr (inl e)) h =
      rw e (bytes_of read_int_20 bs out rest (rw e at h))
  content_bytes decode t bs out rest (inr (inr e)) h =
      rw e (bytes_of read_length_32 bs out rest (rw e at h))

  pub content_text :
      (decode : Reader Node) (t : ℕ) (bs rest : List ℕ) (s : Str)
      → IsPlainTag t
      → read_string opts t bs ≡ ok (s, rest)
      → read_content opts decode t bs ≡ ok (Content.text s, rest)
  unfolding read_content
  content_text decode t bs rest s (p0, p1, p2, p3, p4, p5) h =
      rw (no_list, no_8, no_20, no_32) (rw h refl)
    where
      no_list : (t == 0 || (t == 248 || t == 249)) ≡ false
      no_list = ground arith

      no_8 : (t == 252) ≡ false
      no_8 = ground arith

      no_20 : (t == 253) ≡ false
      no_20 = ground arith

      no_32 : (t == 254) ≡ false
      no_32 = ground arith

  pub content_children :
      (decode : Reader Node) (t n : ℕ) (bs more rest : List ℕ) (ns : Nodes)
      → IsListTag t
      → read_list_size t bs ≡ ok (n, more)
      → read_nodes decode n more ≡ ok (ns, rest)
      → read_content opts decode t bs ≡ ok (children ns, rest)
  unfolding read_content
  content_children decode t n bs more rest ns is_list e f = rw list (rw e (rw f refl))
    where
      list : (t == 0 || (t == 248 || t == 249)) ≡ true
      list = ground arith
