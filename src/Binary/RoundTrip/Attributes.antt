-- ===== src/Binary/RoundTrip/Attributes.antt =====
-- Attributes: what `readString` gives, pair by pair, is collected into the object again.
use nexawhats.Common.{
  ℕ, suc, ◌≡◌, refl, sym, ap, ◌∙◌, false, some, List, [], ◌∷◌, ◌++◌, length, append_assoc, appends,
  append-nil, All,
}
use nexawhats.Common.Text.{Str, codes, str_eq}
use nexawhats.Binary.{AttrValue, Attrs, nullish, other}
use nexawhats.Binary.Tokens.{CodingOptions}
use nexawhats.Binary.Encoder.{write_string, write_attributes}
use nexawhats.Binary.Decoder.{
  ok, read_byte, read_string, read_attributes, set_attribute, assign, is_index,
}
use nexawhats.Binary.RoundTrip.Strings.{WireText}
use nexawhats.Binary.RoundTrip.Addresses.{IsSound, read_string-write_string}

abbrev NotIn : Str → Attrs → Type 0
NotIn key attrs = All (λ p. str_eq p.0 key ≡ false) attrs

-- Attributes of text that survives, under names that differ from those before and that are plain
-- properties: neither `__proto__` nor array indices.
abbrev pub IsAttributes : Attrs → Attrs → Type 0
IsAttributes before [] = Unit
IsAttributes before ((k, AttrValue.text v) ∷ as') =
    WireText k
    × WireText v
    × (str_eq k (codes "__proto__") ≡ false)
    × (is_index k ≡ false)
    × NotIn k before
    × IsAttributes (before ++ ((k, AttrValue.text v) ∷ [])) as'
IsAttributes before ((k, nullish) ∷ as') = ⊥
IsAttributes before ((k, other) ∷ as') = ⊥

assign_new :
    (key value : Str) (attrs : Attrs)
    → is_index key ≡ false
    → NotIn key attrs
    → assign key value attrs ≡ attrs ++ ((key, AttrValue.text value) ∷ [])
unfolding assign
assign_new key value [] h new = refl
assign_new key value ((k, v) ∷ attrs) h (this, new) =
    rw (this, h) (ap (λ l. (k, v) ∷ l) (assign_new key value attrs h new))

set_new :
    (key value : Str) (attrs : Attrs)
    → str_eq key (codes "__proto__") ≡ false
    → is_index key ≡ false
    → NotIn key attrs
    → set_attribute key value attrs ≡ attrs ++ ((key, AttrValue.text value) ∷ [])
unfolding set_attribute
set_new key value attrs p h new = rw p (assign_new key value attrs h new)

attribute_read :
    (opts : CodingOptions) (n t u : ℕ) (k v : Str) (before : Attrs) (bs more rest : List ℕ)
    → read_string opts t bs ≡ ok (k, u ∷ more)
    → read_string opts u more ≡ ok (v, rest)
    → read_attributes opts (suc n) before (t ∷ bs)
      ≡ read_attributes opts n (set_attribute k v before) rest
unfolding read_attributes read_byte
attribute_read opts n t u k v before bs more rest e f = rw e (rw f refl)

module _ (opts : CodingOptions) (h : IsSound opts) where
  pub record AttributesCarried (before as' : Attrs) : Type 0 where
    pub bytes : List ℕ
    pub written : write_attributes opts as' ≡ some bytes
    pub read_back :
        (rest : List ℕ)
        → read_attributes opts (length as') before (bytes ++ rest) ≡ ok (before ++ as', rest)

  pub attributes_carried :
      (before as' : Attrs) → IsAttributes before as' → AttributesCarried before as'
  unfolding write_attributes read_attributes read_byte
  attributes_carried before [] wf = record {
    bytes = [];
    written = refl;
    read_back = λ rest. ap (λ l. ok (l, rest)) (sym (append-nil before));
  }
  attributes_carried before ((k, AttrValue.text v) ∷ as') (wk, wv, proto, index, new, wf) =
      of (read_string-write_string opts k h wk) (read_string-write_string opts v h wv)
        (attributes_carried (before ++ ((k, AttrValue.text v) ∷ [])) as' wf)
    where
      regroup :
          (body more tail rest : List ℕ) (u : ℕ)
          → (body ++ ((u ∷ more) ++ tail)) ++ rest ≡ body ++ (u ∷ (more ++ (tail ++ rest)))
      regroup body more tail rest u = simp appends

      of :
          (t : ℕ) × (body : List ℕ) × (write_string opts k ≡ some (t ∷ body))
            × ((rest : List ℕ) → read_string opts t (body ++ rest) ≡ ok (k, rest))
          → (u : ℕ) × (more : List ℕ) × (write_string opts v ≡ some (u ∷ more))
            × ((rest : List ℕ) → read_string opts u (more ++ rest) ≡ ok (v, rest))
          → AttributesCarried (before ++ ((k, AttrValue.text v) ∷ [])) as'
          → AttributesCarried before ((k, AttrValue.text v) ∷ as')
      of (t, body, wt, rt) (u, more, wu, ru) a = record {
        bytes = (t ∷ body) ++ ((u ∷ more) ++ a.bytes);
        written = rw wt (rw wu (rw a.written refl));
        read_back = λ rest.
            ap (λ l. read_attributes opts (suc (length as')) before (t ∷ l))
              (regroup body more a.bytes rest u)
            ∙ attribute_read opts (length as') t u k v before _ (more ++ (a.bytes ++ rest)) _ (rt _)
                (ru _)
            ∙ ap (λ l. read_attributes opts (length as') l (a.bytes ++ rest))
                (set_new k v before proto index new)
            ∙ a.read_back rest
            ∙ ap (λ l. ok (l, rest)) (append_assoc before ((k, AttrValue.text v) ∷ []) as');
      }
  attributes_carried before ((k, nullish) ∷ as') wf = absurd wf
  attributes_carried before ((k, other) ∷ as') wf = absurd wf
