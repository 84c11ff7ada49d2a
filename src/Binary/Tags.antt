-- ===== src/Binary/Tags.antt =====
-- `TAGS` of src/binary/constants.ts.
use nexawhats.Common.{ℕ}

abbrev pub list_empty : ℕ
list_empty = 0

abbrev pub dictionary_0 : ℕ
dictionary_0 = 236

abbrev pub dictionary_3 : ℕ
dictionary_3 = 239

abbrev pub ad_jid : ℕ
ad_jid = 247

abbrev pub list_8 : ℕ
list_8 = 248

abbrev pub list_16 : ℕ
list_16 = 249

abbrev pub jid_pair : ℕ
jid_pair = 250

abbrev pub hex_8 : ℕ
hex_8 = 251

abbrev pub binary_8 : ℕ
binary_8 = 252

abbrev pub binary_20 : ℕ
binary_20 = 253

abbrev pub binary_32 : ℕ
binary_32 = 254

abbrev pub nibble_8 : ℕ
nibble_8 = 255

abbrev pub packed_max : ℕ
packed_max = 127
