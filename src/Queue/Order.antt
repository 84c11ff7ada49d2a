-- ===== src/Queue/Order.antt =====
-- The queue is four queues, one for each priority, each in the order of arrival.
use nexawhats.Common.{
  ℕ, ◌≤◌, ◌<◌, ◌≡◌, refl, sym, ap, subst, ◌∙◌, arith, ltb, true, false, Option, none, some, List,
  [], ◌∷◌, ◌++◌, append_assoc, append-nil, appends, All, All-append,
}
use nexawhats.Queue.{
  Priority, Entry, urgent, high, normal, low, weight, after_one, find_index, insert_at, insert,
}

module _ {ℓ} {C : Type ℓ} where
  insert-append :
      (e : Entry C) (xs ys : List (Entry C))
      → All (λ x. weight x.priority ≤ weight e.priority) xs
      → All (λ y. weight e.priority < weight y.priority) ys
      → insert e (xs ++ ys) ≡ xs ++ (e ∷ ys)
  unfolding insert find_index insert_at
  insert-append e [] [] h k = refl
  insert-append e [] (y ∷ ys) h (later, k) = rw (past, insert, find_index) refl
    where
      past : ltb (weight e.priority) (weight y.priority) ≡ true
      past = ground arith
  insert-append e (x ∷ xs) ys (before, h) k =
      rw (past, insert, find_index)
        (go (find_index (λ y. ltb (weight e.priority) (weight y.priority)) (xs ++ ys))
          (insert-append e xs ys h k))
    where
      past : ltb (weight e.priority) (weight x.priority) ≡ false
      past = ground arith

      go :
          (o : Option ℕ)
          → elim o [ none ↦ (xs ++ ys) ++ (e ∷ []) | some i ↦ insert_at i e (xs ++ ys) ]
            ≡ xs ++ (e ∷ ys)
          → elim (after_one o) [
            | none ↦ (x ∷ (xs ++ ys)) ++ (e ∷ [])
            | some i ↦ insert_at i e (x ∷ (xs ++ ys))
          ]
            ≡ x ∷ (xs ++ (e ∷ ys))
      go none q = ap (λ l. x ∷ l) q
      go (some i) q = ap (λ l. x ∷ l) q

-- The abstract queue.
pub record Lanes {ℓ} (C : Type ℓ) : Type ℓ where
  pub of_urgent : List (Entry C)
  pub of_high : List (Entry C)
  pub of_normal : List (Entry C)
  pub of_low : List (Entry C)

module _ {ℓ} {C : Type ℓ} where
  abbrev AllOf : Priority → List (Entry C) → Type 0
  AllOf p = All (λ x. x.priority ≡ p)

  pub record IsLanes (l : Lanes C) : Type 0 where
    pub all_urgent : AllOf urgent l.of_urgent
    pub all_high : AllOf high l.of_high
    pub all_normal : AllOf normal l.of_normal
    pub all_low : AllOf low l.of_low

  abbrev pub flatten : Lanes C → List (Entry C)
  flatten l = l.of_urgent ++ (l.of_high ++ (l.of_normal ++ l.of_low))

  abbrev lanes : List (Entry C) → List (Entry C) → List (Entry C) → List (Entry C) → Lanes C
  lanes u h n l = record { of_urgent = u; of_high = h; of_normal = n; of_low = l }

  -- An entry joins the end of its lane.
  abbrev join_at : Priority → Entry C → Lanes C → Lanes C
  join_at urgent e l = lanes (l.of_urgent ++ (e ∷ [])) l.of_high l.of_normal l.of_low
  join_at high e l = lanes l.of_urgent (l.of_high ++ (e ∷ [])) l.of_normal l.of_low
  join_at normal e l = lanes l.of_urgent l.of_high (l.of_normal ++ (e ∷ [])) l.of_low
  join_at low e l = lanes l.of_urgent l.of_high l.of_normal (l.of_low ++ (e ∷ []))

  abbrev pub join : Entry C → Lanes C → Lanes C
  join e l = join_at e.priority e l

  at_most :
      (p q : Priority) (xs : List (Entry C))
      → weight p ≤ weight q
      → AllOf p xs
      → All (λ x. weight x.priority ≤ weight q) xs
  at_most p q [] h k = tt
  at_most p q (x ∷ xs) h (e, k) = (subst (λ r. weight r ≤ weight q) (sym e) h, at_most p q xs h k)

  above :
      (p q : Priority) (xs : List (Entry C))
      → weight q < weight p
      → AllOf p xs
      → All (λ x. weight q < weight x.priority) xs
  above p q [] h k = tt
  above p q (x ∷ xs) h (e, k) = (subst (λ r. weight q < weight r) (sym e) h, above p q xs h k)

  -- Inserting at a priority puts the entry between the lanes up to it and those after it.
  insert_between :
      (p : Priority) (e : Entry C) (xs ys : List (Entry C))
      → e.priority ≡ p
      → All (λ x. weight x.priority ≤ weight p) xs
      → All (λ y. weight p < weight y.priority) ys
      → insert e (xs ++ ys) ≡ xs ++ (e ∷ ys)
  insert_between p e xs ys at h k =
      insert-append e xs ys (subst (λ r. All (λ x. weight x.priority ≤ weight r) xs) (sym at) h)
        (subst (λ r. All (λ y. weight r < weight y.priority) ys) (sym at) k)

  insert_lane :
      (p : Priority) (e : Entry C) (before lane after : List (Entry C))
      → e.priority ≡ p
      → All (λ x. weight x.priority ≤ weight p) before
      → AllOf p lane
      → All (λ y. weight p < weight y.priority) after
      → insert e (before ++ (lane ++ after)) ≡ before ++ ((lane ++ (e ∷ [])) ++ after)
  insert_lane p e before lane after at h same k =
      ap (insert e) (sym (append_assoc before lane after))
      ∙ insert_between p e (before ++ lane) after at
          (All-append _ before lane h (at_most p p lane (omega arith) same)) k
      ∙ simp appends

  joined :
      (p : Priority) (e : Entry C) (lane : List (Entry C))
      → AllOf p lane
      → e.priority ≡ p
      → AllOf p (lane ++ (e ∷ []))
  joined p e lane k at = All-append _ lane (e ∷ []) k (at, tt)

  module _ (e : Entry C) (l : Lanes C) (h : IsLanes l) where
    after_high :
        (p : Priority)
        → weight p ≤ 1
        → All (λ y. weight p < weight y.priority) (l.of_normal ++ l.of_low)
    after_high p few =
        All-append _ l.of_normal l.of_low (above normal p l.of_normal (omega arith) h.all_normal)
          (above low p l.of_low (omega arith) h.all_low)

    before_low :
        All (λ x. weight x.priority ≤ weight low) (l.of_urgent ++ (l.of_high ++ l.of_normal))
    before_low =
        All-append _ l.of_urgent (l.of_high ++ l.of_normal)
          (at_most urgent low l.of_urgent (omega arith) h.all_urgent)
          (All-append _ l.of_high l.of_normal (at_most high low l.of_high (omega arith) h.all_high)
            (at_most normal low l.of_normal (omega arith) h.all_normal))

    -- The lanes before the last one, taken together.
    three :
        (w : List (Entry C))
        → l.of_urgent ++ (l.of_high ++ (l.of_normal ++ w))
          ≡ (l.of_urgent ++ (l.of_high ++ l.of_normal)) ++ w
    three w = simp appends

    insert-normal : e.priority ≡ normal → insert e (flatten l) ≡ flatten (join_at normal e l)
    insert-normal at =
        ap (insert e) (sym (append_assoc l.of_urgent l.of_high (l.of_normal ++ l.of_low)))
        ∙ insert_lane normal e (l.of_urgent ++ l.of_high) l.of_normal l.of_low at
            (All-append _ l.of_urgent l.of_high
              (at_most urgent normal l.of_urgent (omega arith) h.all_urgent)
              (at_most high normal l.of_high (omega arith) h.all_high))
            h.all_normal (above low normal l.of_low (omega arith) h.all_low)
        ∙ append_assoc l.of_urgent l.of_high ((l.of_normal ++ (e ∷ [])) ++ l.of_low)

    insert-low : e.priority ≡ low → insert e (flatten l) ≡ flatten (join_at low e l)
    insert-low at =
        ap (λ w. insert e (l.of_urgent ++ (l.of_high ++ (l.of_normal ++ w))))
          (sym (append-nil l.of_low))
        ∙ ap (insert e) (three (l.of_low ++ []))
        ∙ insert_lane low e (l.of_urgent ++ (l.of_high ++ l.of_normal)) l.of_low [] at before_low
            h.all_low tt
        ∙ sym (three ((l.of_low ++ (e ∷ [])) ++ []))
        ∙ ap (λ w. l.of_urgent ++ (l.of_high ++ (l.of_normal ++ w)))
            (append-nil (l.of_low ++ (e ∷ [])))

    insert-join_at :
        (p : Priority) → e.priority ≡ p → insert e (flatten l) ≡ flatten (join_at p e l)
    insert-join_at urgent at =
        insert_lane urgent e [] l.of_urgent (l.of_high ++ (l.of_normal ++ l.of_low)) at tt
          h.all_urgent
          (All-append _ l.of_high (l.of_normal ++ l.of_low)
            (above high urgent l.of_high (omega arith) h.all_high)
            (after_high urgent (omega arith)))
    insert-join_at high at =
        insert_lane high e l.of_urgent l.of_high (l.of_normal ++ l.of_low) at
          (at_most urgent high l.of_urgent (omega arith) h.all_urgent) h.all_high
          (after_high high (omega arith))
    insert-join_at normal at = insert-normal at
    insert-join_at low at = insert-low at

    join_at-IsLanes : (p : Priority) → e.priority ≡ p → IsLanes (join_at p e l)
    join_at-IsLanes urgent at = record {
      all_urgent = joined urgent e l.of_urgent h.all_urgent at;
      all_high = h.all_high;
      all_normal = h.all_normal;
      all_low = h.all_low;
    }
    join_at-IsLanes high at = record {
      all_urgent = h.all_urgent;
      all_high = joined high e l.of_high h.all_high at;
      all_normal = h.all_normal;
      all_low = h.all_low;
    }
    join_at-IsLanes normal at = record {
      all_urgent = h.all_urgent;
      all_high = h.all_high;
      all_normal = joined normal e l.of_normal h.all_normal at;
      all_low = h.all_low;
    }
    join_at-IsLanes low at = record {
      all_urgent = h.all_urgent;
      all_high = h.all_high;
      all_normal = h.all_normal;
      all_low = joined low e l.of_low h.all_low at;
    }

  -- Inserting an entry into the queue of four lanes adds it to the end of its priority's lane,
  -- behind the lanes of higher priority and before those of lower priority, and changes nothing else.
  pub insert-flatten :
      (e : Entry C) (l : Lanes C)
      → IsLanes l
      → (insert e (flatten l) ≡ flatten (join e l)) × IsLanes (join e l)
  insert-flatten e l h =
      (insert-join_at e l h e.priority refl, join_at-IsLanes e l h e.priority refl)
