-- ===== src/Binary/Tokens/Laws.antt =====
-- The reverse table leads back to the tables it was built from.
use nexawhats.Common.{
  ℕ, zero, suc, ◌+◌, ◌≤◌, ◌<◌, ◌≡◌, ◌≢◌, refl, sym, ◌∙◌, ap, arith, true, none, some, List, [], ◌∷◌,
  ◌⊎◌, inl, inr, Bool-cases, length, get_elem?, All,
}
use mathlib.Core.Path.{subst₂}
use nexawhats.Common.Text.{Str, str_eq, str_eq→eq, includes}
use nexawhats.Binary.Tokens.{
  TokenEntry, TokenMap, add_single, add_dictionary, add_double, build, TokenRef, own, inherited,
  missing, find_token, inherited_names, prototype,
}

-- What an entry stands for in the tables: a token of the first table, whose index is a byte that
-- is no tag and not 0, or one of the four dictionaries.
abbrev pub StandsFor : List Str → List (List Str) → Str → TokenEntry → Type 0
StandsFor single double s e = elim e.dict [
  | none ↦ (get_elem? single e.index ≡ some s) × (1 ≤ e.index)
  | some i ↦
      (dict : List Str) × (get_elem? double i ≡ some dict) × (get_elem? dict e.index ≡ some s)
]

abbrev pub Entries : List Str → List (List Str) → TokenMap → Type 0
Entries single double m = All (λ p. StandsFor single double p.0 p.1) m

-- The tables are of the sizes that one byte can address: tokens below the first tag, four
-- dictionaries of 256, and no token under the byte 0.
pub record IsTable (single : List Str) (double : List (List Str)) : Type 0 where
  pub first : get_elem? single 0 ≡ some []
  pub singles : length single ≤ 236
  pub dictionaries : length double ≤ 4
  pub entries : All (λ d. length d ≤ 256) double

-- `ts` is the rest of `l` from position `i` on.
abbrev From {ℓ} : {A : Type ℓ} → List A → ℕ → List A → Type ℓ
From l i ts = (j : ℕ) → get_elem? ts j ≡ get_elem? l (i + j)

From-tail {ℓ} :
    {A : Type ℓ} (l : List A) (i : ℕ) (t : A) (ts : List A) → From l i (t ∷ ts) → From l (i + 1) ts
From-tail l i t ts h j = h (suc j) ∙ ap (get_elem? l) (omega arith)

From-head {ℓ} :
    {A : Type ℓ} (l : List A) (i : ℕ) (t : A) (ts : List A)
    → From l i (t ∷ ts)
    → get_elem? l i ≡ some t
From-head l i t ts h = ap (get_elem? l) (omega arith) ∙ sym (h 0)

From-all {ℓ} : {A : Type ℓ} (l : List A) → From l 0 l
From-all l j = ap (get_elem? l) (omega arith)

module _ (single : List Str) (double : List (List Str)) where
  index_pos :
      (i c : ℕ) (cs : Str)
      → get_elem? single 0 ≡ some []
      → get_elem? single i ≡ some (c ∷ cs)
      → 1 ≤ i
  index_pos zero c cs h k = cc
  index_pos (suc i) c cs h k = omega arith

  add_single-Entries :
      (i : ℕ) (ts : List Str) (m : TokenMap)
      → get_elem? single 0 ≡ some []
      → From single i ts
      → Entries single double m
      → Entries single double (add_single i ts m)
  unfolding add_single
  add_single-Entries i [] m first at h = h
  add_single-Entries i ([] ∷ ts) m first at h =
      add_single-Entries (i + 1) ts m first (From-tail single i [] ts at) h
  add_single-Entries i ((c ∷ cs) ∷ ts) m first at h =
      let here = From-head single i (c ∷ cs) ts at in
      add_single-Entries (i + 1) ts _ first (From-tail single i (c ∷ cs) ts at)
        ((here, index_pos i c cs first here), h)

  add_dictionary-Entries :
      (i j : ℕ) (dict ts : List Str) (m : TokenMap)
      → get_elem? double i ≡ some dict
      → From dict j ts
      → Entries single double m
      → Entries single double (add_dictionary i j ts m)
  unfolding add_dictionary
  add_dictionary-Entries i j dict [] m found at h = h
  add_dictionary-Entries i j dict (t ∷ ts) m found at h =
      add_dictionary-Entries i (j + 1) dict ts _ found (From-tail dict j t ts at)
        ((dict, found, From-head dict j t ts at), h)

  add_double-Entries :
      (i : ℕ) (ds : List (List Str)) (m : TokenMap)
      → From double i ds
      → Entries single double m
      → Entries single double (add_double i ds m)
  unfolding add_double
  add_double-Entries i [] m at h = h
  add_double-Entries i (d ∷ ds) m at h =
      add_double-Entries (i + 1) ds _ (From-tail double i d ds at)
        (add_dictionary-Entries i 0 d d m (From-head double i d ds at) (From-all d) h)

  pub build-Entries :
      get_elem? single 0 ≡ some [] → Entries single double (build single double).token_map
  unfolding build
  build-Entries first =
      add_double-Entries 0 double _ (From-all double)
        (add_single-Entries 0 single [] first (From-all single) tt)

prototype-ne-own : (s : Str) (e : TokenEntry) → prototype s ≢ own e
unfolding prototype
prototype-ne-own s e p = elim (Bool-cases (includes s inherited_names)) [
  | inl h ↦ cc (rw h at p)
  | inr h ↦ cc (rw h at p)
]

pub find_token-Entries :
    (single : List Str) (double : List (List Str)) (m : TokenMap) (s : Str) (e : TokenEntry)
    → Entries single double m
    → find_token m s ≡ own e
    → StandsFor single double s e
unfolding find_token
find_token-Entries single double [] s e h p = absurd (prototype-ne-own s e p)
find_token-Entries single double ((t, f) ∷ m) s e (this, rest) p = elim (Bool-cases (str_eq t s)) [
  | inl same ↦ subst₂ (StandsFor single double) (str_eq→eq t s same) (own_eq (rw same at p)) this
  | inr other ↦ find_token-Entries single double m s e rest (rw other at p)
]
  where
    own_eq : own f ≡ own e → f ≡ e
    own_eq q = cc

pub get_elem?-lt {ℓ} :
    {A : Type ℓ} (l : List A) (i : ℕ) (a : A) → get_elem? l i ≡ some a → i < length l
get_elem?-lt [] i a e = cc
get_elem?-lt (x ∷ l) zero a e = omega arith
get_elem?-lt (x ∷ l) (suc i) a e = omega (arith, get_elem?-lt l i a e)

-- An inherited name is only found for the names on the prototype.
pub find_token-inherited :
    (m : TokenMap) (s : Str) → find_token m s ≡ inherited → includes s inherited_names ≡ true
unfolding find_token prototype
find_token-inherited [] s e = elim (Bool-cases (includes s inherited_names)) [
  | inl h ↦ h
  | inr h ↦ cc (rw h at e)
]
find_token-inherited ((t, f) ∷ m) s e = elim (Bool-cases (str_eq t s)) [
  | inl same ↦ cc (rw same at e)
  | inr other ↦ find_token-inherited m s (rw other at e)
]

pub TokenRef-cases :
    (r : TokenRef) → ((e : TokenEntry) × (r ≡ own e)) ⊎ ((r ≡ inherited) ⊎ (r ≡ missing))
TokenRef-cases (own e) = inl (e, refl)
TokenRef-cases inherited = inr (inl refl)
TokenRef-cases missing = inr (inr refl)
