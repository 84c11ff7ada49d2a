-- ===== src/Messages/Participants.antt =====
-- `generateParticipantHashV2` of src/messages/send-relay.ts does not depend on an order.
use nexawhats.Common.{ℕ, ◌≡◌, refl, ap, ◌∙◌, arith, true, false, List, [], ◌∷◌, ◌++◌, take}
use mathlib.Core.List.{Perm, Permᴰ, is_set}
use mathlib.Core.Logic.{∥∥₁_elim}
use native.Mathlib.Nat.{ℕ_set}
use nexawhats.Common.Text.{Str, codes}
use nexawhats.Binary.Utf8.{utf8_encode}
use nexawhats.Messages.Relay.{str_leb, insert, sort, join, generate_participant_hash_v2}

str_leb_total : (s t : Str) → str_leb s t ≡ false → str_leb t s ≡ true
unfolding str_leb
str_leb_total [] t h = cc
str_leb_total (a ∷ s) [] h = refl
str_leb_total (a ∷ s) (b ∷ t) h = ground (arith, str_leb_total s t)

str_leb_antisymm : (s t : Str) → str_leb s t ≡ true → str_leb t s ≡ true → s ≡ t
unfolding str_leb
str_leb_antisymm [] [] h k = refl
str_leb_antisymm [] (b ∷ t) h k = cc
str_leb_antisymm (a ∷ s) [] h k = cc
str_leb_antisymm (a ∷ s) (b ∷ t) h k = ground (arith, str_leb_antisymm s t)

str_leb_trans : (s t u : Str) → str_leb s t ≡ true → str_leb t u ≡ true → str_leb s u ≡ true
unfolding str_leb
str_leb_trans [] t u h k = refl
str_leb_trans (a ∷ s) [] u h k = cc
str_leb_trans (a ∷ s) (b ∷ t) [] h k = cc
str_leb_trans (a ∷ s) (b ∷ t) (d ∷ u) h k = ground (arith, str_leb_trans s t u)

insert-insert : (s t : Str) (l : List Str) → insert s (insert t l) ≡ insert t (insert s l)
unfolding insert
insert-insert s t [] = ground (arith, str_leb_total s t, str_leb_total t s, str_leb_antisymm s t)
insert-insert s t (u ∷ l) = ground (
  arith,
  insert-insert s t l,
  str_leb_total s t,
  str_leb_total t s,
  str_leb_antisymm s t,
  str_leb_trans s t u,
  str_leb_trans t s u,
)

sort-Permᴰ : {l m : List Str} → Permᴰ l m → sort l ≡ sort m
unfolding sort
sort-Permᴰ Permᴰ.nil = refl
sort-Permᴰ (Permᴰ.cons {a} {b} {l₁} {l₂} e d) =
    ap (λ x. insert x (sort l₁)) e ∙ ap (insert b) (sort-Permᴰ d)
sort-Permᴰ (Permᴰ.swap {a} {b} {a'} {b'} {l} e f) =
    insert-insert a b (sort l)
    ∙ ap (λ x. insert x (insert a (sort l))) f
    ∙ ap (λ x. insert a' (insert x (sort l))) e
sort-Permᴰ (Permᴰ.trans c d) = sort-Permᴰ c ∙ sort-Permᴰ d

-- The hash of the participants is the same for every order in which they are given.
pub generate_participant_hash_v2-Perm :
    (digest : List ℕ → Str) (l m : List Str)
    → Perm l m
    → generate_participant_hash_v2 digest l ≡ generate_participant_hash_v2 digest m
unfolding generate_participant_hash_v2
generate_participant_hash_v2-Perm digest l m p =
    ∥∥₁_elim p (is_set ℕ_set _ _)
      (λ d. ap (λ s. codes "2:" ++ take 6 (digest (utf8_encode (join s)))) (sort-Permᴰ d))
