-- ===== src/Binary/Lookup.antt =====
-- What the accessors of src/binary/types.ts find.
use nexawhats.Common.{
  ℕ, zero, suc, ◌+◌, ◌*◌, ◌/◌, ◌%◌, ◌^◌, ◌<◌, ◌≡◌, refl, ap, subst, ◌∙◌, arith, some, List, [], ◌∷◌,
  ◌++◌, length, length-append, append_assoc, get_elem?,
}
use nexawhats.Common.Text.{Str}
use nexawhats.Jid.Numbers.{num}
use nexawhats.Binary.{Node}
use nexawhats.Binary.Helpers.{
  get_binary_node_child_buffer, uint_from, get_binary_node_child_uint, encode_big_endian,
}

-- The number that bytes write in base 256, after `a`.
abbrev value_of : ℕ → List ℕ → ℕ
value_of a [] = a
value_of a (b ∷ bs) = value_of (256 * a + b) bs

value_of-append : (a b : ℕ) (bs : List ℕ) → value_of a (bs ++ (b ∷ [])) ≡ 256 * value_of a bs + b
value_of-append a b [] = refl
value_of-append a b (c ∷ bs) = value_of-append (256 * a + c) b bs

get_elem?-append :
    (pre : List ℕ) (b : ℕ) (bs : List ℕ) → get_elem? (pre ++ (b ∷ bs)) (length pre) ≡ some b
get_elem?-append [] b bs = refl
get_elem?-append (x ∷ pre) b bs = get_elem?-append pre b bs

uint_from-value_of :
    (pre bs : List ℕ) (a : ℕ)
    → uint_from (length bs) (length pre) a (pre ++ bs) ≡ num (value_of a bs)
unfolding uint_from
uint_from-value_of pre [] a = refl
uint_from-value_of pre (b ∷ bs) a =
    rw (get_elem?-append pre b bs, uint_from)
      (subst
        (λ l.
          uint_from (length bs) (length pre + 1) (256 * a + b) l ≡ num (value_of (256 * a + b) bs))
        (append_assoc pre (b ∷ []) bs)
        (subst
          (λ i.
            uint_from (length bs) i (256 * a + b) ((pre ++ (b ∷ [])) ++ bs)
            ≡ num (value_of (256 * a + b) bs))
          (length-append pre (b ∷ [])) (uint_from-value_of (pre ++ (b ∷ [])) bs (256 * a + b))))

length-encode_big_endian : (v n : ℕ) → length (encode_big_endian v n) ≡ n
unfolding encode_big_endian
length-encode_big_endian v zero = refl
length-encode_big_endian v (suc n) = omega (
  arith,
  length-append (encode_big_endian (v % 2 ^ 32 / 256) n) ((v % 256) ∷ []),
  length-encode_big_endian (v % 2 ^ 32 / 256) n,
)

value_of-encode_big_endian :
    (v n : ℕ) → v < 2 ^ 32 → v < 256 ^ n → value_of 0 (encode_big_endian v n) ≡ v
unfolding encode_big_endian
value_of-encode_big_endian v zero h k = omega (arith, k)
value_of-encode_big_endian v (suc n) h k =
    let ih =
      value_of-encode_big_endian (v % 2 ^ 32 / 256) n (omega arith)
        (less (256 ^ n) (grind arith)) in
    value_of-append 0 (v % 256) (encode_big_endian (v % 2 ^ 32 / 256) n) ∙ omega (arith, ih)
  where
    less : (p : ℕ) → v < p * 256 → v % 2 ^ 32 / 256 < p
    less p l = omega (arith, l, h)

-- A number below 2^32 that fits `len` bytes is read back from the buffer of a child when that holds
-- what `encodeBigEndian` wrote for it.
pub get_binary_node_child_uint-encode_big_endian :
    (n : Node) (tag : Str) (value len : ℕ)
    → get_binary_node_child_buffer n tag ≡ some (encode_big_endian value len)
    → value < 2 ^ 32
    → value < 256 ^ len
    → get_binary_node_child_uint n tag len ≡ some (num value)
unfolding get_binary_node_child_uint
get_binary_node_child_uint-encode_big_endian n tag value len there h k =
    let bs = encode_big_endian value len in
    rw (there, get_binary_node_child_uint)
      (ap some (
        subst (λ l. uint_from l 0 0 bs ≡ num (value_of 0 bs)) (length-encode_big_endian value len)
          (uint_from-value_of [] bs 0)
        ∙ ap num (value_of-encode_big_endian value len h k)))
