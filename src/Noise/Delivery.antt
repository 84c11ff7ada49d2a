-- ===== src/Noise/Delivery.antt =====
-- Stanzas over a connection: `sendNode` of src/client/connect.ts on one side and `decodeFrame` on
-- the other.
use nexawhats.Common.{
  ◌+◌, ◌^◌, ◌<◌, ◌≡◌, refl, ap, ◌∙◌, false, Option, none, some, List, [], ◌∷◌, map, length, All,
}
use nexawhats.Binary.{Node}
use nexawhats.Binary.Tokens.{CodingOptions}
use nexawhats.Binary.Encoder.{encode_binary_node}
use nexawhats.Binary.Decoder.{Result, ok, decode_binary_node}
use nexawhats.Binary.RoundTrip.Addresses
use nexawhats.Binary.RoundTrip.Nodes.{WireNode, arrived, decode_binary_node-encode_binary_node}
use nexawhats.Crypto.{Bytes, NodeCrypto}
use nexawhats.Crypto.Laws.{IsSound}
use nexawhats.Noise.{Noise, encode_frame}
use nexawhats.Noise.Frames.{parsed, decode_frame}
use nexawhats.Noise.Session.{Follows, Fits, and_then, send_all}

-- What a promise gives, or that it rejects.
abbrev settled : Result Node → Option Node
settled (ok n) = some n
settled _ = none

module _ (opts : CodingOptions) (inflate : Bytes → Option Bytes) (c : NodeCrypto) where
  -- `decodeBinaryNode`, which throws or gives a node.
  abbrev pub node_of : Bytes → Option Node
  node_of buffer = settled (decode_binary_node opts inflate buffer)

  -- `sendNode` while the transport is open, from the encoded node on, to the frame that the
  -- transport gets.
  abbrev frame_encoded : Option Bytes → Bytes → Noise → Option Bytes → Noise × Option Bytes
  frame_encoded routing_info header s none = (s, none)
  frame_encoded routing_info header s (some encoded) = encode_frame c routing_info header encoded s

  unfoldable pub send_node : Option Bytes → Bytes → Node → Noise → Noise × Option Bytes
  send_node routing_info header n s =
      frame_encoded routing_info header s (encode_binary_node opts n)

  pub send_nodes : Option Bytes → Bytes → List Node → Noise → Noise × Option Bytes
  send_nodes routing_info header [] s = (s, some [])
  send_nodes routing_info header (n ∷ ns) s =
      let one = send_node routing_info header n s in
      and_then one.1 (send_nodes routing_info header ns one.0)

  -- The buffer of a node fits a frame, with the tag of the cipher.
  abbrev pub FitsFrame : Node → Type 0
  FitsFrame n = (buf : Bytes) → encode_binary_node opts n ≡ some buf → length buf + 16 < 2 ^ 24

  record Encoded (ns : List Node) : Type 0 where
    pairs : List (Bytes × Node)
    fits : All (Fits c node_of) pairs
    nodes : map (λ q. parsed q.1) pairs ≡ map (λ n. parsed (arrived opts n)) ns
    sends :
        (routing_info : Option Bytes) (header : Bytes) (s : Noise)
        → send_nodes routing_info header ns s ≡ send_all c node_of routing_info header pairs s

  encoded :
      (ns : List Node)
      → Addresses.IsSound opts
      → All (λ n. WireNode n × FitsFrame n) ns
      → Encoded ns
  unfolding send_nodes send_node send_all
  encoded [] h w = record {
    pairs = [];
    fits = tt;
    nodes = refl;
    sends = λ routing_info header s. refl;
  }
  encoded (n ∷ ns) h ((wire, short), w) =
      let (buf, out, back) = decode_binary_node-encode_binary_node opts inflate n h wire in
      let later = encoded ns h w in
      record {
        pairs = (buf, arrived opts n) ∷ later.pairs;
        fits = ((ap settled back, short buf out), later.fits);
        nodes = ap (λ l. parsed (arrived opts n) ∷ l) later.nodes;
        sends = λ routing_info header s. sent buf out later routing_info header s;
      }
    where
      sent :
          (buf : Bytes)
          → encode_binary_node opts n ≡ some buf
          → (later : Encoded ns) → (routing_info : Option Bytes) (header : Bytes) (s : Noise)
          → send_nodes routing_info header (n ∷ ns) s
            ≡ send_all c node_of routing_info header ((buf, arrived opts n) ∷ later.pairs) s
      sent buf out later routing_info header s =
          ap
            (λ o.
              let one = frame_encoded routing_info header s o in
              and_then one.1 (send_nodes routing_info header ns one.0))
            out
          ∙ ap (and_then (encode_frame c routing_info header buf s).1)
              (later.sends routing_info header (encode_frame c routing_info header buf s).0)

  -- The frames are sent and read back.
  pub record Delivered (routing_info : Option Bytes) (header : Bytes) (ns : List Node) (s r : Noise)
      : Type 0 where
    pub state : Noise
    pub bytes : Bytes
    pub reader : Noise
    pub written : send_nodes routing_info header ns s ≡ (state, some bytes)
    pub read_back :
        decode_frame c node_of bytes r ≡ (reader, map (λ n. parsed (arrived opts n)) ns, false)
    goes_on : Follows state.cipher reader.cipher
    nothing_left : reader.in_bytes ≡ []
