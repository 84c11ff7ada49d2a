-- ===== src/Queue/DeadLetters.antt =====
-- src/queue/dead-letter.ts: the messages that were given up, the oldest first.
use nexawhats.Common.{
  ℕ, zero, suc, ◌+◌, ◌-◌, ◌≤◌, ◌≡◌, refl, sym, ap, ◌∙◌, arith, ltb, if◌then◌else◌, true, false,
  List, [], ◌∷◌, ◌++◌, length, length-append, length-drop, drop, Bool-cases, inl, inr,
}
use nexawhats.Common.Text.{Str, str_eq}

pub record DeadLetter {ℓ} (C E : Type ℓ) : Type ℓ where
  pub jid : Str
  pub content : C
  pub error : E
  pub attempts : ℕ
  pub first_attempt : ℕ
  pub last_attempt : ℕ

-- `while (items.length > maxSize) items.shift()`, a round for each item at most.
evict {ℓ} : {A : Type ℓ} → ℕ → ℕ → List A → List A
evict zero most items = items
evict (suc fuel) most items =
    let rest = evict fuel most (drop 1 items) in if ltb most (length items) then rest else items

pub add {ℓ} : {A : Type ℓ} → ℕ → A → List A → List A
add most letter items = let longer = items ++ (letter ∷ []) in evict (length longer) most longer

get_for_jid {ℓ} : {C E : Type ℓ} → Str → List (DeadLetter C E) → List (DeadLetter C E)
get_for_jid jid [] = []
get_for_jid jid (x ∷ xs) =
    let rest = get_for_jid jid xs in if str_eq x.jid jid then x ∷ rest else rest

-- `drain`: the letters, and the queue without them.
abbrev drain {ℓ} : {A : Type ℓ} → List A → List A × List A
drain items = (items, [])

abbrev clear {ℓ} : {A : Type ℓ} → List A → List A
clear items = []

drop-drop {ℓ} : {A : Type ℓ} (n : ℕ) (xs : List A) → drop n (drop 1 xs) ≡ drop (suc n) xs
drop-drop zero [] = refl
drop-drop (suc n) [] = refl
drop-drop n (x ∷ xs) = refl

evict-drop {ℓ} :
    {A : Type ℓ} (fuel most : ℕ) (items : List A)
    → length items ≤ fuel
    → evict fuel most items ≡ drop (length items - most) items
unfolding evict
evict-drop zero most [] h = let e : 0 - most ≡ 0 = omega arith in ap (λ n. drop n []) (sym e)
evict-drop zero most (x ∷ xs) h = absurd (omega arith)
evict-drop (suc fuel) most items h = elim (Bool-cases (ltb most (length items))) [
  | inl e ↦ rw e (
      evict-drop fuel most (drop 1 items) (omega (arith, length-drop 1 items))
      ∙ ap (λ n. drop n (drop 1 items)) (fewer e)
      ∙ drop-drop (length items - suc most) items
      ∙ ap (λ n. drop n items) (one_more e))
  | inr e ↦ rw e (ap (λ n. drop n items) (none_left e))
]
  where
    fewer : ltb most (length items) ≡ true → length (drop 1 items) - most ≡ length items - suc most
    fewer e = omega (arith, length-drop 1 items)

    one_more : ltb most (length items) ≡ true → suc (length items - suc most) ≡ length items - most
    one_more e = ground arith

    none_left : ltb most (length items) ≡ false → 0 ≡ length items - most
    none_left e = ground arith

-- A letter is added at the end and the oldest ones go, so that the newest are left, `most` of them
-- at most.
pub add-drop {ℓ} :
    {A : Type ℓ} (most : ℕ) (letter : A) (items : List A)
    → (add most letter items ≡ drop (length items + 1 - most) (items ++ (letter ∷ [])))
      × (length (add most letter items) ≤ most)
unfolding add
add-drop most letter items = (
  kept ∙ ap (λ n. drop (n - most) (items ++ (letter ∷ []))) size,
  omega (
    arith,
    ap length kept,
    length-drop (length (items ++ (letter ∷ [])) - most) (items ++ (letter ∷ [])),
  ),
)
  where
    size : length (items ++ (letter ∷ [])) ≡ length items + 1
    size = length-append items (letter ∷ [])

    kept :
        evict (length (items ++ (letter ∷ []))) most (items ++ (letter ∷ []))
        ≡ drop (length (items ++ (letter ∷ [])) - most) (items ++ (letter ∷ []))
    kept = evict-drop _ most (items ++ (letter ∷ [])) (omega arith)
