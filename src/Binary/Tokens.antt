-- ===== src/Binary/Tokens.antt =====
-- src/binary/constants.ts: the token tables, and the reverse table that the module builds from
-- them when it is loaded.
pub mod Single
pub mod Double
pub mod Laws
use nexawhats.Common.{
  ℕ, ◌+◌, if◌then◌else◌, Bool, true, false, Option, none, some, List, [], ◌∷◌, map,
}
use nexawhats.Common.Text.{Str, codes, str_eq, includes}
use Single.{single_byte_tokens}
use Double.{double_byte_tokens}

-- `TokenEntry`
pub record TokenEntry : Type 0 where
  pub index : ℕ
  pub dict : Option ℕ

-- The own properties of `TOKEN_MAP`; an entry in front hides those behind it, as an assignment
-- replaces the earlier one.
abbrev pub TokenMap : Type 0
TokenMap = List (Str × TokenEntry)

-- `BinaryNodeCodingOptions`, less `TAGS`, which are constants (Binary/Tags).
pub record CodingOptions : Type 0 where
  pub token_map : TokenMap
  pub single : List Str
  pub double : List (List Str)

-- The first loop of the module: every token that is not empty, under its index.
unfoldable pub add_single : ℕ → List Str → TokenMap → TokenMap
add_single i [] m = m
add_single i ([] ∷ ts) m = add_single (i + 1) ts m
add_single i ((c ∷ cs) ∷ ts) m =
    add_single (i + 1) ts ((c ∷ cs, record { index = i; dict = none }) ∷ m)

-- The second loop, over one dictionary and over all.
unfoldable pub add_dictionary : ℕ → ℕ → List Str → TokenMap → TokenMap
add_dictionary i j [] m = m
add_dictionary i j (t ∷ ts) m =
    add_dictionary i (j + 1) ts ((t, record { index = j; dict = some i }) ∷ m)

unfoldable pub add_double : ℕ → List (List Str) → TokenMap → TokenMap
unfolding add_dictionary
add_double i [] m = m
add_double i (d ∷ ds) m = add_double (i + 1) ds (add_dictionary i 0 d m)

unfoldable pub build : List Str → List (List Str) → CodingOptions
unfolding add_single add_double
build single double = record {
  token_map = add_double 0 double (add_single 0 single []);
  single = single;
  double = double;
}

-- The tables that the module exports.
unfoldable pub constants : CodingOptions
unfolding build
constants = build (map codes single_byte_tokens) (map (map codes) double_byte_tokens)

-- `TOKEN_MAP` is an object literal, so it also has the properties of `Object.prototype`.
abbrev pub inherited_names : List Str
inherited_names = map codes (
    "constructor" ∷ "__defineGetter__" ∷ "__defineSetter__" ∷ "hasOwnProperty" ∷ "__lookupGetter__"
    ∷ "__lookupSetter__" ∷ "isPrototypeOf" ∷ "propertyIsEnumerable" ∷ "toString" ∷ "valueOf"
    ∷ "__proto__" ∷ "toLocaleString" ∷ [])

-- `TOKEN_MAP[str]`: an own entry, a property of the prototype, or `undefined`.
pub data TokenRef : Type 0 where
  own : TokenEntry → TokenRef
  inherited : TokenRef
  missing : TokenRef

pub prototype : Str → TokenRef
unfolding includes
prototype s = if includes s inherited_names then inherited else missing

unfoldable pub find_token : TokenMap → Str → TokenRef
find_token [] s = prototype s
find_token ((t, e) ∷ m) s = if str_eq t s then own e else find_token m s
