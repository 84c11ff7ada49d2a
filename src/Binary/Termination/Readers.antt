-- ===== src/Binary/Termination/Readers.antt =====
-- The readers of bytes and numbers, within their input.
use nexawhats.Common.{
  ℕ, zero, suc, ◌+◌, ◌*◌, ◌/◌, ◌%◌, ◌≤◌, ◌≢◌, refl, arith, leb, ltb, ◌==◌, if◌then◌else◌, Bool,
  true, false, List, [], ◌∷◌, length, length-drop, drop, take,
}
use nexawhats.Binary.Decoder
use nexawhats.Binary.Decoder.{
  Result, Reader, ok, err, rewind, out_of_fuel, ◌>>=◌, pure, read_byte, read_bytes, read_int,
  read_int_20, read_length_32, read_string_from_chars, lift, unpack_byte, unpack_nibble, unpack_hex,
  read_packed, read_packed_8, read_list_size, read_jid_pair, pair_result, read_ad_jid,
  get_token_double, read_token_double, read_tag, read_string_from, read_string, read_attributes,
  read_nodes, read_content, read_content_if_even, decode_from, decode_decompressed_binary_node,
  bind,
}

-- A run that kept within its fuel and leaves at most `n` bytes, if it succeeds.
pub data Within {ℓ} {A : Type ℓ} (n : ℕ) : Result (A × List ℕ) → Type ℓ where
  done : {a : A} {rest : List ℕ} → length rest ≤ n → Within n (ok (a, rest))
  failed : {e : Decoder.Error} → Within n (err e)
  moved_back : Within n rewind

pub weaken {ℓ} : {A : Type ℓ} {n k : ℕ} {r : Result (A × List ℕ)} → Within n r → n ≤ k → Within k r
weaken (done h) le = done (omega arith)
weaken failed le = failed
weaken moved_back le = moved_back

pub Within-bind {ℓ κ} :
    {A : Type ℓ} {B : Type κ} (n k : ℕ) (r : Result (A × List ℕ)) (f : A → Reader B)
    → Within k r
    → ((a : A) (rest : List ℕ) → length rest ≤ k → Within n (f a rest))
    → Within n (bind r (λ (a, rest). f a rest))
Within-bind n k r f (done {a} {rest} h) g = g a rest h
Within-bind n k r f failed g = failed
Within-bind n k r f moved_back g = moved_back

pub Within-if {ℓ} :
    {A : Type ℓ} (n : ℕ) (b : Bool) (x y : Reader A) (bs : List ℕ)
    → Within n (x bs)
    → Within n (y bs)
    → Within n ((if b then x else y) bs)
Within-if n true x y bs h k = h
Within-if n false x y bs h k = k

read_byte-Within : (n : ℕ) (bs : List ℕ) → length bs ≤ suc n → Within n (read_byte bs)
unfolding read_byte
read_byte-Within n [] h = failed
read_byte-Within n (b ∷ bs) h = done (omega arith)

pub read_byte-le : (n : ℕ) (bs : List ℕ) → length bs ≤ n → Within n (read_byte bs)
unfolding read_byte
read_byte-le n [] h = failed
read_byte-le n (b ∷ bs) h = done (omega arith)

pub read_bytes-Within : (n k : ℕ) (bs : List ℕ) → length bs ≤ n → Within n (read_bytes k bs)
unfolding read_bytes
read_bytes-Within n k bs h = go (leb k (length bs))
  where
    go :
        (b : Bool)
        → Within n (if b then ok (take k bs, drop k bs) else err Decoder.Error.end_of_stream)
    go true = done (omega (arith, length-drop k bs))
    go false = failed

pub read_chars-Within :
    (n k : ℕ) (bs : List ℕ) → length bs ≤ n → Within n (read_string_from_chars k bs)
unfolding read_string_from_chars
read_chars-Within n k bs h =
    Within-bind n n (read_bytes k bs) _ (read_bytes-Within n k bs h) (λ a rest e. done e)

read_int-Within : (k val n : ℕ) (bs : List ℕ) → length bs ≤ n → Within n (read_int k val bs)
unfolding read_int
read_int-Within zero val n bs h = done h
read_int-Within (suc k) val n [] h = failed
read_int-Within (suc k) val n (b ∷ bs) h = read_int-Within k (val * 256 + b) n bs (omega arith)

pub read_int_20-Within : (n : ℕ) (bs : List ℕ) → length bs ≤ n → Within n (read_int_20 bs)
unfolding read_int_20
read_int_20-Within n bs h = Within-bind n n (read_byte bs) _ (read_byte-le n bs h) λ a r e.
    Within-bind n n (read_byte r) _ (read_byte-le n r e)
      λ b s f. Within-bind n n (read_byte s) _ (read_byte-le n s f) λ c t g. done g

pub read_length_32-Within : (n : ℕ) (bs : List ℕ) → length bs ≤ n → Within n (read_length_32 bs)
unfolding read_length_32
read_length_32-Within n bs h =
    Within-bind n n (read_int 4 0 bs) _ (read_int-Within 4 0 n bs h)
      λ v r e. go v r e (ltb v 2147483648)
  where
    go :
        (v : ℕ) (r : List ℕ)
        → length r ≤ n
        → (b : Bool) → Within n (if b then ok (v, r) else rewind)
    go v r e true = done e
    go v r e false = moved_back

unpack_byte-ne-out_of_fuel : (tag v : ℕ) → unpack_byte tag v ≢ out_of_fuel
unfolding unpack_byte unpack_nibble unpack_hex
unpack_byte-ne-out_of_fuel tag v e = ground arith

lift-Within :
    (r : Result ℕ) (n : ℕ) (bs : List ℕ) → r ≢ out_of_fuel → length bs ≤ n → Within n (lift r bs)
lift-Within (ok a) n bs ne h = done h
lift-Within (err e) n bs ne h = failed
lift-Within rewind n bs ne h = moved_back
lift-Within out_of_fuel n bs ne h = absurd (ne refl)

read_packed-Within : (tag k n : ℕ) (bs : List ℕ) → length bs ≤ n → Within n (read_packed tag k bs)
unfolding read_packed
read_packed-Within tag zero n bs h = done h
read_packed-Within tag (suc k) n bs h =
    Within-bind n n (read_byte bs) _ (read_byte-le n bs h) λ b r e.
      Within-bind n n (lift (unpack_byte tag (b / 16)) r) _
        (lift-Within _ n r (unpack_byte-ne-out_of_fuel tag (b / 16)) e)
        λ x s f.
          Within-bind n n (lift (unpack_byte tag (b % 16)) s) _
            (lift-Within _ n s (unpack_byte-ne-out_of_fuel tag (b % 16)) f)
            λ y t g.
              Within-bind n n (read_packed tag k t) _ (read_packed-Within tag k n t g)
                λ v u i. done i

pub read_packed_8-Within :
    (tag n : ℕ) (bs : List ℕ) → length bs ≤ n → Within n (read_packed_8 tag bs)
unfolding read_packed_8
read_packed_8-Within tag n bs h = Within-bind n n (read_byte bs) _ (read_byte-le n bs h) λ b r e.
    Within-bind n n (read_packed tag (b % 128) r) _ (read_packed-Within tag (b % 128) n r e)
      λ v s f. done f

pub read_list_size-Within :
    (tag n : ℕ) (bs : List ℕ) → length bs ≤ n → Within n (read_list_size tag bs)
unfolding read_list_size
read_list_size-Within tag n bs h = Within-if n (tag == 0) _ _ bs (done h) (
    Within-if n (tag == 248) _ _ bs (read_byte-le n bs h)
      (Within-if n (tag == 249) _ _ bs (read_int-Within 2 0 n bs h) failed))
