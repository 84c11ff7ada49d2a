-- ===== src/Binary/Constants.antt =====
-- The exported tables are sound: TOKEN_MAP of src/binary/constants.ts leads back to the tables.
use nexawhats.Common.{refl, arith, List, map}
use nexawhats.Common.Text.{Str, codes}
use nexawhats.Binary.Tokens.{build, constants}
use nexawhats.Binary.Tokens.Single.{single_byte_tokens}
use nexawhats.Binary.Tokens.Double.{double_byte_tokens}
use nexawhats.Binary.Tokens.Laws.{IsTable, build-Entries}
use nexawhats.Binary.RoundTrip.Addresses.{IsSound}

-- The loops of the module build a reverse table that leads back to the tables, if these have the
-- sizes that one byte can address and no token at index 0.
pub build-IsSound :
    (single : List Str) (double : List (List Str))
    → IsTable single double
    → IsSound (build single double)
unfolding build
build-IsSound single double t = record { table = t; sound = build-Entries single double t.first }

constants-IsTable : IsTable (map codes single_byte_tokens) (map (map codes) double_byte_tokens)
constants-IsTable = record {
  first = refl;
  singles = omega arith;
  dictionaries = omega arith;
  entries = omega arith;
}

-- The tables that the codec uses by default are sound.
pub constants-IsSound : IsSound constants
unfolding constants
constants-IsSound = build-IsSound _ _ constants-IsTable
