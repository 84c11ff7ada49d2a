-- ===== src/Queue/Processing.antt =====
-- src/queue/index.ts: the operations of `MessageQueue`. The calls of `await` are where other calls
-- may run in between, so the loop of `processNext` is two operations: picking the head, which is
-- then `current`, and finishing it with what the send function gave. The rate limiter only delays.
use nexawhats.Common.{
  ℕ, suc, leb, ◌==◌, if◌then◌else◌, Bool, true, Option, none, some, List, [], ◌∷◌, ◌++◌, length,
  drop,
}
use nexawhats.Queue.{Entry, insert}
use nexawhats.Queue.DeadLetters.{DeadLetter, add}

-- How a promise was settled.
pub data Settled {ℓ} (R E : Type ℓ) : Type ℓ where
  resolved : R → Settled R E
  rejected : E → Settled R E
  cleared : Settled R E

-- What the send function gives.
pub data Outcome {ℓ} (R E : Type ℓ) : Type ℓ where
  sent : R → Outcome R E
  failed : E → Outcome R E

pub record MessageQueue {ℓ} (C R E : Type ℓ) : Type ℓ where
  pub entries : List (Entry C)
  pub attempts : ℕ → ℕ
  pub current : Option (Entry C)
  pub can_send : Bool
  pub max_retries : ℕ
  pub max_size : ℕ
  pub max_dead : ℕ
  pub dead_letters : List (DeadLetter C E)
  pub settled : List (ℕ × Settled R E)

abbrev pub head_of {ℓ} : {C : Type ℓ} → List (Entry C) → Option (Entry C)
head_of [] = none
head_of (e ∷ es) = some e

abbrev pub one_more : ℕ → (ℕ → ℕ) → ℕ → ℕ
one_more id attempts i = if i == id then suc (attempts i) else attempts i

abbrev pub letter_of {ℓ} : {C E : Type ℓ} → Entry C → E → ℕ → ℕ → DeadLetter C E
letter_of e error attempts now = record {
  jid = e.jid;
  content = e.content;
  error = error;
  attempts = attempts;
  first_attempt = e.enqueued_at;
  last_attempt = now;
}

module _ {ℓ} {C R E : Type ℓ} where
  abbrev pub with_entries : List (Entry C) → MessageQueue C R E → MessageQueue C R E
  with_entries entries q = record {
    entries = entries;
    attempts = q.attempts;
    current = q.current;
    can_send = q.can_send;
    max_retries = q.max_retries;
    max_size = q.max_size;
    max_dead = q.max_dead;
    dead_letters = q.dead_letters;
    settled = q.settled;
  }

  abbrev pub with_current : Option (Entry C) → MessageQueue C R E → MessageQueue C R E
  with_current current q = record {
    entries = q.entries;
    attempts = q.attempts;
    current = current;
    can_send = q.can_send;
    max_retries = q.max_retries;
    max_size = q.max_size;
    max_dead = q.max_dead;
    dead_letters = q.dead_letters;
    settled = q.settled;
  }

  -- The test of the loop: `queue[0]` is picked, or processing ends.
  abbrev pub pick : MessageQueue C R E → MessageQueue C R E
  pick q = with_current (head_of q.entries) q

  -- The start of `processNext`: nothing if it runs already or has no send function.
  unfoldable pub process_next : MessageQueue C R E → MessageQueue C R E
  process_next q = elim q.current [ some e ↦ q | none ↦ if q.can_send then pick q else q ]

  -- Setting the send function starts nothing.
  abbrev pub set_send_fn : MessageQueue C R E → MessageQueue C R E
  set_send_fn q = record {
    entries = q.entries;
    attempts = q.attempts;
    current = q.current;
    can_send = true;
    max_retries = q.max_retries;
    max_size = q.max_size;
    max_dead = q.max_dead;
    dead_letters = q.dead_letters;
    settled = q.settled;
  }

  -- A full queue throws.
  unfoldable pub enqueue : Entry C → MessageQueue C R E → Option (MessageQueue C R E)
  enqueue e q =
      if leb q.max_size (length q.entries)
      then none
      else some (process_next (with_entries (insert e q.entries) q))

  -- `attempts++`
  abbrev pub attempt : Entry C → MessageQueue C R E → MessageQueue C R E
  attempt e q = record {
    entries = q.entries;
    attempts = one_more e.id q.attempts;
    current = q.current;
    can_send = q.can_send;
    max_retries = q.max_retries;
    max_size = q.max_size;
    max_dead = q.max_dead;
    dead_letters = q.dead_letters;
    settled = q.settled;
  }

  -- `shift`, and the promise of the entry is settled.
  abbrev pub settle :
      Entry C → Settled R E → List (DeadLetter C E) → MessageQueue C R E → MessageQueue C R E
  settle e how dead q = record {
    entries = drop 1 q.entries;
    attempts = q.attempts;
    current = q.current;
    can_send = q.can_send;
    max_retries = q.max_retries;
    max_size = q.max_size;
    max_dead = q.max_dead;
    dead_letters = dead;
    settled = q.settled ++ ((e.id, how) ∷ []);
  }

  -- What follows the send of an entry.
  unfoldable pub receive : Entry C → Outcome R E → ℕ → MessageQueue C R E → MessageQueue C R E
  receive e (sent result) now q = settle e (resolved result) q.dead_letters q
  receive e (failed error) now q =
      if leb q.max_retries (q.attempts e.id)
      then settle e (rejected error)
          (add q.max_dead (letter_of e error (q.attempts e.id) now) q.dead_letters) q
      else q

  -- One round of the loop, from the send of the current entry to the next pick.
  unfoldable pub finish : Outcome R E → ℕ → MessageQueue C R E → MessageQueue C R E
  finish outcome now q = elim q.current [
    | none ↦ q
    | some e ↦ pick (receive e outcome now (attempt e q))
  ]

  abbrev pub clear_all : List (Entry C) → List (ℕ × Settled R E)
  clear_all [] = []
  clear_all (e ∷ es) = (e.id, cleared) ∷ clear_all es

  pub clear : MessageQueue C R E → MessageQueue C R E
  clear q = record {
    entries = [];
    attempts = q.attempts;
    current = q.current;
    can_send = q.can_send;
    max_retries = q.max_retries;
    max_size = q.max_size;
    max_dead = q.max_dead;
    dead_letters = q.dead_letters;
    settled = q.settled ++ clear_all q.entries;
  }
