-- ===== src/Queue/Tests.antt =====
-- Runs of the message queue, one of which shows what an urgent message does to the one in flight.
use nexawhats.Common.{
  ℕ, ◌+◌, ◌*◌, ◌-◌, false, ◌==◌, if◌then◌else◌, ◌≡◌, ◌≤◌, refl, arith, true, Option, none, some,
  List, [], ◌∷◌, ◌++◌, map, length, drop,
}
use nexawhats.Common.Text.{Str, codes}
use nexawhats.Queue.{Priority, Entry, urgent, high, normal, low, insert, find_index, insert_at}
use nexawhats.Queue.DeadLetters.{add, add-drop}
use nexawhats.Queue.Order.{Lanes, IsLanes, flatten, join, insert-flatten}
use nexawhats.Queue.Processing.{
  MessageQueue, Outcome, sent, failed, process_next, enqueue, finish, receive,
}
use nexawhats.Queue.RateLimiter.{RateLimiter, make, attempts, last_time, unit, attempts-bound}
use nexawhats.Queue.Drain.{Drained, run, process_next-Drained}

abbrev message : ℕ → Priority → Entry Str
message id priority = record {
  id = id;
  jid = codes "a@s.whatsapp.net";
  content = codes "hi";
  priority = priority;
  enqueued_at = 0;
}

abbrev two_lanes : Lanes Str
two_lanes = record {
  of_urgent = [];
  of_high = message 1 high ∷ [];
  of_normal = [];
  of_low = message 2 low ∷ [];
}

two_lanes-IsLanes : IsLanes two_lanes
two_lanes-IsLanes = record {
  all_urgent = tt;
  all_high = (refl, tt);
  all_normal = tt;
  all_low = (refl, tt);
}

insert-flatten_example :
    (insert (message 3 high) (flatten two_lanes) ≡ flatten (join (message 3 high) two_lanes))
    × IsLanes (join (message 3 high) two_lanes)
insert-flatten_example = insert-flatten (message 3 high) two_lanes two_lanes-IsLanes

abbrev two_letters : List ℕ
two_letters = 3 ∷ 4 ∷ []

add-drop_example :
    (add {A = ℕ} 2 5 two_letters ≡ drop (length two_letters + 1 - 2) (two_letters ++ (5 ∷ [])))
    × (length (add {A = ℕ} 2 5 two_letters) ≤ 2)
add-drop_example = add-drop {A = ℕ} 2 5 two_letters

abbrev start : MessageQueue Str ℕ ℕ
start = record {
  entries = message 1 normal ∷ message 2 low ∷ [];
  attempts = λ i. 0;
  current = none;
  can_send = true;
  max_retries = 3;
  max_size = 10000;
  max_dead = 1000;
  dead_letters = [];
  settled = [];
}

-- The first message always fails.
abbrev unlucky : ℕ → Entry Str → Outcome ℕ ℕ × ℕ
unlucky attempt e = (if e.id == 1 then failed attempt else sent attempt, 100)

process_next-Drained_example : Drained start (run unlucky 8 (process_next start))
process_next-Drained_example = process_next-Drained unlucky 8 start refl refl (omega arith)

-- While message 1 is being sent, an urgent one is put before it. When the send succeeds, the
-- urgent one is shifted out of the queue, unsent and unsettled, and message 1 is picked again.
abbrev outcome_of : Option (MessageQueue Str ℕ ℕ) → List ℕ × Option ℕ
outcome_of none = ([], none)
outcome_of (some q) =
    (map (λ e. e.id) q.entries, elim q.current [ none ↦ none | some e ↦ some e.id ])

abbrev finished : Option (MessageQueue Str ℕ ℕ) → Option (MessageQueue Str ℕ ℕ)
finished none = none
finished (some q) = some (finish (sent 0) 100 q)

urgent_lost :
    outcome_of (finished (enqueue (message 9 urgent) (process_next start))) ≡ (1 ∷ 2 ∷ [], some 1)
unfolding finish receive enqueue process_next insert find_index insert_at
urgent_lost = refl

-- Twenty messages a minute, asked for four times within a second and a half.
attempts-bound_example :
    (attempts (100 ∷ 100 ∷ 900 ∷ 1500 ∷ []) (make 20 false 100)).1 * unit
    ≤ 20 * unit + (last_time 100 (100 ∷ 100 ∷ 900 ∷ 1500 ∷ []) - 100) * 20
attempts-bound_example =
    attempts-bound 20 100 false (100 ∷ 100 ∷ 900 ∷ 1500 ∷ [])
      (omega arith, (omega arith, (omega arith, (omega arith, tt))))

-- An empty bucket, and a clock that went back by ten minutes.
abbrev empty_bucket : RateLimiter
empty_bucket = record (make 1 false 600100) { tokens = 0 }
