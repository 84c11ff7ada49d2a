-- ===== src/Queue/Drain.antt =====
-- The loop of `processNext` when nothing else runs in between: it empties the queue.
use nexawhats.Common.{
  ℕ, zero, suc, ◌+◌, ◌-◌, ◌*◌, ◌≤◌, ◌≡◌, refl, sym, ap, subst, ◌∙◌, arith, leb, if◌then◌else◌, Bool,
  true, false, Option, none, some, List, [], ◌∷◌, ◌++◌, length, append-nil,
}
use nexawhats.Queue.{Entry}
use nexawhats.Queue.DeadLetters.{DeadLetter, add}
use nexawhats.Queue.Processing.{
  MessageQueue, Settled, Outcome, sent, failed, resolved, rejected, head_of, pick, process_next,
  finish, receive, attempt, one_more, settle, letter_of,
}

-- The ids of the promises that were settled.
abbrev pub settled_ids {ℓ} : {R E : Type ℓ} → List (ℕ × Settled R E) → List ℕ
settled_ids [] = []
settled_ids ((id, how) ∷ rest) = id ∷ settled_ids rest

abbrev pub ids {ℓ} : {C : Type ℓ} → List (Entry C) → List ℕ
ids [] = []
ids (e ∷ es) = e.id ∷ ids es

settled_ids-append {ℓ} :
    {R E : Type ℓ} (xs : List (ℕ × Settled R E)) (id : ℕ) (how : Settled R E) (rest : List ℕ)
    → settled_ids (xs ++ ((id, how) ∷ [])) ++ rest ≡ settled_ids xs ++ (id ∷ rest)
settled_ids-append [] id how rest = refl
settled_ids-append ((i, x) ∷ xs) id how rest = ap (λ l. i ∷ l) (settled_ids-append xs id how rest)

module _ {ℓ} {C R E : Type ℓ} where
  -- The loop, with what the send function gives at each attempt and when.
  pub run : (ℕ → Entry C → Outcome R E × ℕ) → ℕ → MessageQueue C R E → MessageQueue C R E
  run send zero q = q
  run send (suc fuel) q = elim q.current [
    | none ↦ q
    | some e ↦
        let (outcome, now) = send (suc (q.attempts e.id)) e in run send fuel (finish outcome now q)
  ]

  -- The queue is empty and at rest, and its entries were settled one by one, in its order.
  pub record Drained (q q' : MessageQueue C R E) : Type ℓ where
    pub entries : q'.entries ≡ []
    pub current : q'.current ≡ none
    pub settled : settled_ids q'.settled ≡ settled_ids q.settled ++ ids q.entries

module _ {ℓ} {C R E : Type ℓ} (send : ℕ → Entry C → Outcome R E × ℕ) (b : Bool)
    (m size most : ℕ) where
  abbrev on :
      List (Entry C) → (ℕ → ℕ) → List (DeadLetter C E) → List (ℕ × Settled R E) → MessageQueue C R E
  on es tried dead settled = record {
    entries = es;
    attempts = tried;
    current = head_of es;
    can_send = b;
    max_retries = m;
    max_size = size;
    max_dead = most;
    dead_letters = dead;
    settled = settled;
  }

  -- How many rounds are left at most.
  abbrev budget : List (Entry C) → ℕ
  budget [] = 0
  budget (e ∷ es) = budget es + (m + 1)

  abbrev rounds : List (Entry C) → (ℕ → ℕ) → ℕ
  rounds [] tried = 0
  rounds (e ∷ es) tried = budget es + (m - tried e.id) + 1

  rounds-le : (es : List (Entry C)) (tried : ℕ → ℕ) → rounds es tried ≤ budget es
  rounds-le [] tried = omega arith
  rounds-le (e ∷ es) tried = omega arith

  budget_eq : (es : List (Entry C)) → budget es ≡ length es * (m + 1)
  budget_eq [] = omega arith
  budget_eq (e ∷ es) = grind (arith, budget_eq es)

  abbrev Finishes : ℕ → Type ℓ
  Finishes fuel =
      (es : List (Entry C)) (tried : ℕ → ℕ) (dead : List (DeadLetter C E))
      (settled : List (ℕ × Settled R E))
      → rounds es tried ≤ fuel
      → Drained (on es tried dead settled) (run send fuel (on es tried dead settled))

  next_round :
      (fuel : ℕ) (e : Entry C) (es : List (Entry C)) (tried : ℕ → ℕ)
      (dead dead' : List (DeadLetter C E)) (settled : List (ℕ × Settled R E)) (how : Settled R E)
      → Finishes fuel
      → rounds (e ∷ es) tried ≤ suc fuel
      → Drained
          (on (e ∷ es) tried dead settled)
          (run send fuel (on es (one_more e.id tried) dead' (settled ++ ((e.id, how) ∷ []))))
  next_round fuel e es tried dead dead' settled how later h =
      let d =
        later es (one_more e.id tried) dead' (settled ++ ((e.id, how) ∷ []))
          (omega (arith, rounds-le es (one_more e.id tried))) in
      record {
        entries = d.entries;
        current = d.current;
        settled = d.settled ∙ settled_ids-append settled e.id how (ids es);
      }

  one_more_self : (id : ℕ) (tried : ℕ → ℕ) → one_more id tried id ≡ suc (tried id)
  one_more_self id tried = ground arith

  finish-Drained :
      (fuel : ℕ) (e : Entry C) (es : List (Entry C)) (tried : ℕ → ℕ) (dead : List (DeadLetter C E))
      (settled : List (ℕ × Settled R E)) (o : Outcome R E) (now : ℕ)
      → Finishes fuel
      → rounds (e ∷ es) tried ≤ suc fuel
      → Drained
          (on (e ∷ es) tried dead settled)
          (run send fuel (finish o now (on (e ∷ es) tried dead settled)))
  unfolding finish receive
  finish-Drained fuel e es tried dead settled (sent r) now later h =
      next_round fuel e es tried dead dead settled (resolved r) later h
  finish-Drained fuel e es tried dead settled (failed x) now later h =
      go (leb m (one_more e.id tried e.id)) refl
    where
      go :
          (last : Bool)
          → leb m (one_more e.id tried e.id) ≡ last
          → Drained (on (e ∷ es) tried dead settled) (
              run send fuel (
                pick (
                  if last
                  then settle e
                      (rejected x)
                      (add most (letter_of e x (one_more e.id tried e.id) now) dead)
                      (attempt e (on (e ∷ es) tried dead settled))
                  else attempt e (on (e ∷ es) tried dead settled))))
      go true k = next_round fuel e es tried dead _ settled (rejected x) later h
      go false k =
          let d =
            later (e ∷ es) (one_more e.id tried) dead settled
              (ground (arith, one_more_self e.id tried)) in
          record { entries = d.entries; current = d.current; settled = d.settled }

  run-Drained : (fuel : ℕ) → Finishes fuel
  unfolding run
  run-Drained zero [] tried dead settled h = record {
    entries = refl;
    current = refl;
    settled = sym (append-nil _);
  }
  run-Drained zero (e ∷ es) tried dead settled h = absurd (omega arith)
  run-Drained (suc fuel) [] tried dead settled h = record {
    entries = refl;
    current = refl;
    settled = sym (append-nil _);
  }
  run-Drained (suc fuel) (e ∷ es) tried dead settled h =
      finish-Drained fuel e es tried dead settled _ _ (run-Drained fuel) h

process_next-pick {ℓ} :
    {C R E : Type ℓ} (q : MessageQueue C R E)
    → q.current ≡ none
    → q.can_send ≡ true
    → process_next q ≡ pick q
unfolding process_next
process_next-pick {C = C} q rest can = go q.current q.can_send rest can
  where
    go :
        (o : Option (Entry C)) (b : Bool)
        → o ≡ none
        → b ≡ true
        → elim o [ some e ↦ q | none ↦ if b then pick q else q ] ≡ pick q
    go none true e f = refl
    go none false e f = cc
    go (some x) b e f = cc

-- Whatever the send function does, once the processing of a queue at rest starts and nothing else
-- runs in between, `maxRetries + 1` rounds for each entry are enough to empty the queue, and the
-- promises of its entries are settled one by one, in its order.
pub process_next-Drained {ℓ} :
    {C R E : Type ℓ} (send : ℕ → Entry C → Outcome R E × ℕ) (fuel : ℕ) (q : MessageQueue C R E)
    → q.current ≡ none
    → q.can_send ≡ true
    → length q.entries * (q.max_retries + 1) ≤ fuel
    → Drained q (run send fuel (process_next q))
process_next-Drained send fuel q rest can enough =
    subst (λ t. Drained q (run send fuel t)) (sym (process_next-pick q rest can))
      (let d =
          run-Drained send q.can_send q.max_retries q.max_size q.max_dead fuel q.entries q.attempts
            q.dead_letters q.settled
            (omega (
              arith,
              rounds-le send q.can_send q.max_retries q.max_size q.max_dead q.entries q.attempts,
              budget_eq send q.can_send q.max_retries q.max_size q.max_dead q.entries,
            )) in
        record { entries = d.entries; current = d.current; settled = d.settled })
