-- ===== src/Binary/Streams.antt =====
-- `encodeBinaryNodes` of src/binary/encoder.ts and `decodeBinaryNodes` of src/binary/decoder.ts:
-- each buffer follows its length in four bytes. The data are the whole of their ArrayBuffer, so a
-- length that is cut off cannot be read.
use nexawhats.Common.{
  ℕ, zero, suc, ◌+◌, ◌*◌, ◌/◌, ◌%◌, ◌^◌, ◌<◌, ◌≡◌, refl, arith, Option, none, some, List, [], ◌∷◌,
  ◌++◌, map, length, length-append, take, drop, take-append, drop-append, All,
}
use nexawhats.Binary.{Node}
use nexawhats.Binary.Tokens.{CodingOptions}
use nexawhats.Binary.Encoder.{int_32, encode_binary_node}
use nexawhats.Binary.Decoder.{
  Result, ok, err, out_of_fuel, bind, read_out_of_range, decode_binary_node,
}
use nexawhats.Binary.RoundTrip.Addresses.{IsSound}
use nexawhats.Binary.RoundTrip.Nodes.{WireNode, arrived, decode_binary_node-encode_binary_node}

module _ (opts : CodingOptions) where
  pub encode_binary_nodes : List Node → Option (List ℕ)
  encode_binary_nodes [] = some []
  encode_binary_nodes (n ∷ ns) = elim (encode_binary_node opts n) [
    | none ↦ none
    | some buf ↦ elim (encode_binary_nodes ns) [
      | none ↦ none
      | some rest ↦ some (int_32 (length buf) ++ (buf ++ rest))
    ]
  ]

  -- The loop; each round takes at least the four bytes of a length.
  pub decode_nodes_from : (List ℕ → Option (List ℕ)) → ℕ → List ℕ → Result (List Node)
  decode_nodes_from inflate zero data' = out_of_fuel
  decode_nodes_from inflate (suc fuel) [] = ok []
  decode_nodes_from inflate (suc fuel) (a ∷ b ∷ c ∷ d ∷ rest) =
      let size = a * 16777216 + b * 65536 + c * 256 + d in
      bind (decode_binary_node opts inflate (take size rest))
        λ n. bind (decode_nodes_from inflate fuel (drop size rest)) λ ns. ok (n ∷ ns)
  decode_nodes_from inflate (suc fuel) data' = err read_out_of_range

  pub decode_binary_nodes : (List ℕ → Option (List ℕ)) → List ℕ → Result (List Node)
  decode_binary_nodes inflate data' = decode_nodes_from inflate (length data' + 1) data'

  -- The buffer of a node has a length that four bytes can hold.
  abbrev pub Fits : Node → Type 0
  Fits n = (buf : List ℕ) → encode_binary_node opts n ≡ some buf → length buf < 2 ^ 32

  number_back :
      (n : ℕ)
      → n < 2 ^ 32
      → n / 16777216 % 256 * 16777216 + n / 65536 % 256 * 65536 + n / 256 % 256 * 256 + n % 256 ≡ n
  number_back n h = omega arith

  record Streamed (inflate : List ℕ → Option (List ℕ)) (ns : List Node) : Type 0 where
    pub bytes : List ℕ
    pub written : encode_binary_nodes ns ≡ some bytes
    pub read_back :
        (fuel : ℕ)
        → length bytes < fuel
        → decode_nodes_from inflate fuel bytes ≡ ok (map (arrived opts) ns)

  streamed :
      (inflate : List ℕ → Option (List ℕ)) (ns : List Node)
      → IsSound opts
      → All (λ n. WireNode n × Fits n) ns
      → Streamed inflate ns
  unfolding encode_binary_nodes decode_nodes_from
  streamed inflate [] h w = record { bytes = []; written = refl; read_back = nothing }
    where
      nothing : (fuel : ℕ) → 0 < fuel → decode_nodes_from inflate fuel [] ≡ ok []
      nothing zero pos = absurd (omega arith)
      nothing (suc fuel) pos = refl
  streamed inflate (n ∷ ns) h ((wire, fits), w) =
      let (buf, encoded, decoded) = decode_binary_node-encode_binary_node opts inflate n h wire in
      let later = streamed inflate ns h w in
      record {
        bytes = int_32 (length buf) ++ (buf ++ later.bytes);
        written = rw (encoded, later.written, encode_binary_nodes) refl;
        read_back = one buf (fits buf encoded) decoded later;
      }
    where
      one :
          (buf : List ℕ)
          → length buf < 2 ^ 32
          → decode_binary_node opts inflate buf ≡ ok (arrived opts n)
          → (later : Streamed inflate ns) → (fuel : ℕ)
          → length (int_32 (length buf) ++ (buf ++ later.bytes)) < fuel
          → decode_nodes_from inflate fuel (int_32 (length buf) ++ (buf ++ later.bytes))
            ≡ ok (arrived opts n ∷ map (arrived opts) ns)
      one buf short decoded later zero enough = absurd (omega arith)
      one buf short decoded later (suc fuel) enough =
          rw
            (
              number_back (length buf) short,
              take-append buf later.bytes,
              drop-append buf later.bytes,
              decoded,
              later.read_back fuel (omega (arith, length-append buf later.bytes)),
            )
            refl

  -- A list of nodes that survive the format, each of which fits its length, is encoded, and decoding
  -- the stream gives what arrives of each node, in order; the tables are sound, and `inflate` is not
  -- called.
  pub decode_binary_nodes-encode_binary_nodes :
      (inflate : List ℕ → Option (List ℕ)) (ns : List Node)
      → IsSound opts
      → All (λ n. WireNode n × Fits n) ns
      → (bytes : List ℕ) × (encode_binary_nodes ns ≡ some bytes)
        × (decode_binary_nodes inflate bytes ≡ ok (map (arrived opts) ns))
  unfolding decode_binary_nodes
  decode_binary_nodes-encode_binary_nodes inflate ns h w =
      let s = streamed inflate ns h w in
      (s.bytes, s.written, s.read_back (length s.bytes + 1) (omega arith))
