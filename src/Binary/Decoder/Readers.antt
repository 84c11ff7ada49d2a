-- ===== src/Binary/Decoder/Readers.antt =====
-- src/binary/decoder.ts: what is read of the buffer without a look into the tables, and without a
-- call of `readString`.
use nexawhats.Common.{
  ℕ, zero, suc, ◌+◌, ◌-◌, ◌*◌, ◌/◌, ◌%◌, leb, ltb, ◌==◌, if◌then◌else◌, Bool, ◌||◌, Option, none,
  some, List, [], ◌∷◌, ◌++◌, length, take, drop, get_elem?,
}
use nexawhats.Common.Text.{Str}
use nexawhats.Jid.{jid_encode, get_server_from_domain_type, s_whatsapp_net}
use nexawhats.Jid.Numbers.{num}
use nexawhats.Binary.Tags
use nexawhats.Binary.Utf8.{utf8_decode}

-- The messages of the errors thrown.
pub data Error : Type 0 where
  end_of_stream invalid_hex invalid_nibble unknown_tag invalid_list_tag invalid_jid_pair : Error
  invalid_double_dict invalid_double_token invalid_string_tag invalid_node read_out_of_range : Error
  inflate_failed : Error

pub data Result {ℓ} (A : Type ℓ) : Type ℓ where
  ok : A → Result A
  err : Error → Result A
  rewind : Result A
  out_of_fuel : Result A

abbrev pub Reader {ℓ} : Type ℓ → Type ℓ
Reader A = List ℕ → Result (A × List ℕ)

abbrev pub bind {ℓ κ} : {A : Type ℓ} {B : Type κ} → Result A → (A → Result B) → Result B
bind (ok a) f = f a
bind (err e) f = err e
bind rewind f = rewind
bind out_of_fuel f = out_of_fuel

infixl 1 ◌>>=◌
abbrev pub ◌>>=◌ {ℓ κ} : {A : Type ℓ} {B : Type κ} → Reader A → (A → Reader B) → Reader B
◌>>=◌ m f bs = bind (m bs) λ (a, rest). f a rest

abbrev pub pure {ℓ} : {A : Type ℓ} → A → Reader A
pure a bs = ok (a, bs)

abbrev pub throw {ℓ} : {A : Type ℓ} → Error → Reader A
throw e bs = err e

unfoldable pub read_byte : Reader ℕ
read_byte [] = err end_of_stream
read_byte (b ∷ bs) = ok (b, bs)

unfoldable pub read_bytes : ℕ → Reader (List ℕ)
read_bytes n bs = if leb n (length bs) then ok (take n bs, drop n bs) else err end_of_stream

unfoldable pub read_string_from_chars : ℕ → Reader Str
read_string_from_chars n = do bs ← read_bytes n; pure (utf8_decode bs)

-- `readInt(n)` of the big-endian kind, the only one that is called.
unfoldable pub read_int : ℕ → ℕ → Reader ℕ
read_int zero val bs = ok (val, bs)
read_int (suc n) val [] = err end_of_stream
read_int (suc n) val (b ∷ bs) = read_int n (val * 256 + b) bs

-- `readInt(4)` where it gives a length.
unfoldable pub read_length_32 : Reader ℕ
read_length_32 = do n ← read_int 4 0; λ bs. if ltb n 2147483648 then ok (n, bs) else rewind

unfoldable pub read_int_20 : Reader ℕ
read_int_20 = do a ← read_byte; b ← read_byte; c ← read_byte; pure (a % 16 * 65536 + b * 256 + c)

unfoldable pub unpack_hex : ℕ → Result ℕ
unpack_hex v =
    if ltb v 16 then ok (if ltb v 10 then b'0' + v else b'A' + v - 10) else err invalid_hex

unfoldable pub unpack_nibble : ℕ → Result ℕ
unpack_nibble v =
    if leb v 9
    then ok (b'0' + v)
    else if v == 10
    then ok b'-'
    else if v == 11
    then ok b'.'
    else if v == 15
    then ok 0
    else err invalid_nibble

unfoldable pub unpack_byte : ℕ → ℕ → Result ℕ
unpack_byte tag v =
    if tag == Tags.nibble_8
    then unpack_nibble v
    else if tag == Tags.hex_8
    then unpack_hex v
    else err unknown_tag

abbrev pub lift : Result ℕ → Reader ℕ
lift r bs = bind r λ a. ok (a, bs)

-- The loop of `readPacked8`.
unfoldable pub read_packed : ℕ → ℕ → Reader Str
read_packed tag zero = pure []
read_packed tag (suc n) = do
  b ← read_byte
  x ← lift (unpack_byte tag (b / 16))
  y ← lift (unpack_byte tag (b % 16))
  rest ← read_packed tag n
  pure (x ∷ y ∷ rest)

-- `value.slice(0, -1)`
unfoldable pub drop_last : Str → Str
drop_last [] = []
drop_last (c ∷ []) = []
drop_last (c ∷ d ∷ s) = c ∷ drop_last (d ∷ s)

unfoldable pub read_packed_8 : ℕ → Reader Str
read_packed_8 tag = do
  start ← read_byte
  value ← read_packed tag (start % 128)
  pure (if start / 128 == 0 then value else drop_last value)

abbrev pub is_list_tag : ℕ → Bool
is_list_tag tag = tag == Tags.list_empty || (tag == Tags.list_8 || tag == Tags.list_16)

unfoldable pub read_list_size : ℕ → Reader ℕ
read_list_size tag =
    if tag == Tags.list_empty
    then pure 0
    else if tag == Tags.list_8
    then read_byte
    else if tag == Tags.list_16
    then read_int 2 0
    else throw invalid_list_tag

abbrev pub pair_result : Str → Str → Reader Str
pair_result i [] = throw invalid_jid_pair
pair_result i (c ∷ cs) = pure (i ++ (b'@' ∷ c ∷ cs))

-- `read` is `readString`.
unfoldable pub read_jid_pair : (ℕ → Reader Str) → Reader Str
read_jid_pair read = do t ← read_byte; i ← read t; u ← read_byte; j ← read u; pair_result i j

unfoldable pub read_ad_jid : (ℕ → Reader Str) → Reader Str
read_ad_jid read = do
  domain ← read_byte
  device ← read_byte
  t ← read_byte
  user ← read t
  pure
      (jid_encode user (get_server_from_domain_type s_whatsapp_net domain) (some (num device)) none)

-- `getTokenDouble`
unfoldable pub get_token_double : List (List Str) → ℕ → ℕ → Result Str
get_token_double double i j = elim (get_elem? double i) [
  | none ↦ err invalid_double_dict
  | some dict ↦ elim (get_elem? dict j) [ none ↦ err invalid_double_token | some s ↦ ok s ]
]

abbrev pub token_or_empty : Option Str → Str
token_or_empty none = []
token_or_empty (some s) = s
