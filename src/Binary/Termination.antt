-- ===== src/Binary/Termination.antt =====
-- The fuel of the decoder always suffices.
mod Readers
mod Jids
unfoldable pub use Readers.*
unfoldable pub use Jids.*
use nexawhats.Common.{
  ℕ, zero, suc, ◌+◌, ◌-◌, ◌*◌, ◌/◌, ◌%◌, ◌≤◌, ◌<◌, ◌≢◌, refl, arith, leb, ltb, ◌==◌, if◌then◌else◌,
  Bool, true, false, ◌&&◌, ◌||◌, Option, none, some, List, [], ◌∷◌, length, length-drop, drop, take,
  get_elem?,
}
use nexawhats.Common.Text.{Str}
use nexawhats.Binary.{Attrs, Node}
use nexawhats.Binary.Tokens.{CodingOptions}
use nexawhats.Binary.Decoder
use nexawhats.Binary.Decoder.{
  Result, Reader, ok, err, rewind, out_of_fuel, ◌>>=◌, pure, read_byte, read_bytes, read_int,
  read_int_20, read_length_32, read_string_from_chars, lift, unpack_byte, unpack_nibble, unpack_hex,
  read_packed, read_packed_8, read_list_size, read_jid_pair, pair_result, read_ad_jid,
  get_token_double, read_token_double, read_tag, read_string_from, read_string, read_attributes,
  read_nodes, read_content, read_content_if_even, decode_from, decode_decompressed_binary_node,
  bind,
}

module _ (opts : CodingOptions) where
  read_token_double-Within :
      (i n : ℕ) (bs : List ℕ) → length bs ≤ n → Within n (read_token_double opts i bs)
  unfolding read_token_double get_token_double
  read_token_double-Within i n bs h =
      Within-bind n n (read_byte bs) _ (read_byte-le n bs h)
        λ j r e. go j r e (get_elem? opts.double i)
    where
      entry :
          (r : List ℕ)
          → length r ≤ n
          → (o : Option Str)
          → Within n (
              bind
                (elim o [ none ↦ err Decoder.Error.invalid_double_token | some s ↦ ok s ])
                λ s. ok (s, r))
      entry r e none = failed
      entry r e (some s) = done e

      go :
          (j : ℕ) (r : List ℕ)
          → length r ≤ n
          → (o : Option (List Str))
          → Within n (
              bind
                (elim o [
                  | none ↦ err Decoder.Error.invalid_double_dict
                  | some dict ↦ elim (get_elem? dict j) [
                    | none ↦ err Decoder.Error.invalid_double_token
                    | some s ↦ ok s
                  ]
                ])
                λ s. ok (s, r))
      go j r e none = failed
      go j r e (some dict) = entry r e (get_elem? dict j)

  read_tag-Within :
      (pair device : Reader Str) (tag n : ℕ) (bs : List ℕ)
      → length bs ≤ n
      → Within n (pair bs)
      → Within n (device bs)
      → Within n (read_tag opts pair device tag bs)
  unfolding read_tag
  read_tag-Within pair device tag n bs h p d =
      Within-if n (leb 1 tag && ltb tag (length opts.single)) _ _ bs (done h) (
        Within-if n (leb 236 tag && leb tag 239) _ _ bs
          (read_token_double-Within (tag - 236) n bs h)
          (Within-if n (tag == 0) _ _ bs (done h) (
            Within-if n (tag == 252) _ _ bs
              (Within-bind n n (read_byte bs) _ (read_byte-le n bs h)
                λ k r e. read_chars-Within n k r e)
              (Within-if n (tag == 253) _ _ bs
                (Within-bind n n (read_int_20 bs) _ (read_int_20-Within n bs h)
                  λ k r e. read_chars-Within n k r e)
                (Within-if n (tag == 254) _ _ bs
                  (Within-bind n n (read_length_32 bs) _ (read_length_32-Within n bs h)
                    λ k r e. read_chars-Within n k r e)
                  (Within-if n (tag == 250) _ _ bs p (
                    Within-if n (tag == 247) _ _ bs d (
                      Within-if n (tag == 251 || tag == 255) _ _ bs
                        (read_packed_8-Within tag n bs h) failed))))))))

  read_string_from-Within :
      (fuel tag n : ℕ) (bs : List ℕ)
      → n < fuel
      → length bs ≤ n
      → Within n (read_string_from opts fuel tag bs)
  unfolding read_string_from
  read_string_from-Within zero tag n bs short h = absurd (omega arith)
  read_string_from-Within (suc fuel) tag n bs short h =
      read_tag-Within _ _ tag n bs h
        (read_jid_pair-Within n _ bs
          (λ t k cs less fits. read_string_from-Within fuel t k cs (omega arith) fits) h)
        (read_ad_jid-Within n _ bs
          (λ t k cs less fits. read_string_from-Within fuel t k cs (omega arith) fits) h)

  read_string-Within :
      (tag n : ℕ) (bs : List ℕ) → length bs ≤ n → Within n (read_string opts tag bs)
  unfolding read_string
  read_string-Within tag n bs h =
      weaken
        (read_string_from-Within (length bs + 1) tag (length bs) bs (omega arith) (omega arith)) h

  read_attributes-Within :
      (k : ℕ) (as' : Attrs) (n : ℕ) (bs : List ℕ)
      → length bs ≤ n
      → Within n (read_attributes opts k as' bs)
  unfolding read_attributes
  read_attributes-Within zero as' n bs h = done h
  read_attributes-Within (suc k) as' n bs h =
      Within-bind n n (read_byte bs) _ (read_byte-le n bs h) λ t r e.
        Within-bind n n (read_string opts t r) _ (read_string-Within t n r e) λ key s f.
          Within-bind n n (read_byte s) _ (read_byte-le n s f) λ u v g.
            Within-bind n n (read_string opts u v) _ (read_string-Within u n v g)
              λ value w i. read_attributes-Within k _ n w i

  -- A reader of nodes that stays within the input, for inputs of at most `n` bytes.
  abbrev DecodesTo : ℕ → Reader Node → Type 0
  DecodesTo n decode = (k : ℕ) (bs : List ℕ) → k ≤ n → length bs ≤ k → Within k (decode bs)

  read_nodes-Within :
      (decode : Reader Node) (k n : ℕ) (bs : List ℕ)
      → DecodesTo n decode
      → length bs ≤ n
      → Within n (read_nodes decode k bs)
  unfolding read_nodes
  read_nodes-Within decode zero n bs reads h = done h
  read_nodes-Within decode (suc k) n bs reads h =
      Within-bind n n (decode bs) _ (reads n bs (omega arith) h) λ item r e.
        Within-bind n n (read_nodes decode k r) _ (read_nodes-Within decode k n r reads e)
          λ items s f. done f

  bytes_of_length-Within :
      (size : Reader ℕ) (n : ℕ) (bs : List ℕ)
      → Within n (size bs)
      → Within n (Decoder.bytes_of_length opts size bs)
  bytes_of_length-Within size n bs h =
      Within-bind n n (size bs) _ h
        λ k r e. Within-bind n n (read_bytes k r) _ (read_bytes-Within n k r e) λ out s f. done f

  read_content-Within :
      (decode : Reader Node) (tag n : ℕ) (bs : List ℕ)
      → DecodesTo n decode
      → length bs ≤ n
      → Within n (read_content opts decode tag bs)
  unfolding read_content
  read_content-Within decode tag n bs reads h =
      Within-if n (Decoder.is_list_tag tag) _ _ bs
        (Within-bind n n (read_list_size tag bs) _ (read_list_size-Within tag n bs h) λ k r e.
          Within-bind n n (read_nodes decode k r) _ (read_nodes-Within decode k n r reads e)
            λ items s f. done f)
        (Within-if n (tag == 252) _ _ bs
          (bytes_of_length-Within read_byte n bs (read_byte-le n bs h))
          (Within-if n (tag == 253) _ _ bs
            (bytes_of_length-Within read_int_20 n bs (read_int_20-Within n bs h))
            (Within-if n (tag == 254) _ _ bs
              (bytes_of_length-Within read_length_32 n bs (read_length_32-Within n bs h))
              (Within-bind n n (read_string opts tag bs) _ (read_string-Within tag n bs h)
                λ s r e. done e))))

  read_content_if_even-Within :
      (decode : Reader Node) (size n : ℕ) (bs : List ℕ)
      → DecodesTo n decode
      → length bs ≤ n
      → Within n (read_content_if_even opts decode size bs)
  unfolding read_content_if_even
  read_content_if_even-Within decode size n bs reads h =
      Within-if n (size % 2 == 0) _ _ bs
        (Within-bind n n (read_byte bs) _ (read_byte-le n bs h)
          λ tag r e. read_content-Within decode tag n r reads e)
        (done h)

  decode_from-Within :
      (fuel n : ℕ) (bs : List ℕ) → n < fuel → length bs ≤ n → Within n (decode_from opts fuel bs)
  unfolding decode_from read_byte
  decode_from-Within zero n bs short h = absurd (omega arith)
  decode_from-Within (suc fuel) n [] short h = failed
  decode_from-Within (suc fuel) zero (b ∷ bs) short h = absurd (omega arith)
  decode_from-Within (suc fuel) (suc n) (b ∷ bs) short h =
      weaken
        (Within-bind n n (read_list_size b bs) _ (read_list_size-Within b n bs (omega arith))
          λ size r e. Within-bind n n (read_byte r) _ (read_byte-le n r e) λ t s f.
            Within-bind n n (read_string opts t s) _ (read_string-Within t n s f) λ header v g.
              Within-if n (Decoder.is_invalid opts size header) _ _ v failed (
                Within-bind n n (read_attributes opts ((size - 1) / 2) [] v) _
                  (read_attributes-Within _ _ n v g)
                  λ attrs w i.
                    Within-bind n n (read_content_if_even opts (decode_from opts fuel) size w) _
                      (read_content_if_even-Within _ size n w
                        (λ k cs less fits. decode_from-Within fuel k cs (omega arith) fits) i)
                      λ content x j. done j))
        (omega arith)

  Within-ne-out_of_fuel :
      {A : Type 0} (n : ℕ) (r : Result (A × List ℕ)) → Within n r → r ≢ out_of_fuel
  Within-ne-out_of_fuel n r (done h) e = ground arith
  Within-ne-out_of_fuel n r failed e = ground arith
  Within-ne-out_of_fuel n r moved_back e = ground arith

  -- The fuel never runs out: decoding ends with a node, with one of the errors, or where the model
  -- stops, at a negative length.
  decode_decompressed_binary_node-ne-out_of_fuel :
      (bs : List ℕ) → decode_decompressed_binary_node opts bs ≢ out_of_fuel
  unfolding decode_decompressed_binary_node
  decode_decompressed_binary_node-ne-out_of_fuel bs =
      Within-ne-out_of_fuel (length bs) _
        (decode_from-Within (length bs + 1) (length bs) bs (omega arith) (omega arith))
