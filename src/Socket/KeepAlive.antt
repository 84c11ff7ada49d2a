-- ===== src/Socket/KeepAlive.antt =====
-- src/socket/keepalive.ts, with the time of each call as an argument. The interval is a call of
-- `tick`, which comes only while it runs.
use nexawhats.Common.{
  ℕ, ◌+◌, ◌-◌, ltb, ◌≡◌, refl, ap, if◌then◌else◌, Bool, true, false, Option, none, some, List, [],
  ◌∷◌, ◌++◌, All,
}

pub record KeepAlive : Type 0 where
  pub last_date_recv : Option ℕ
  pub running : Bool

-- What a tick does: it calls `sendPing` or `onConnectionLost`.
pub data Effect : Type 0 where
  ping connection_lost : Effect

abbrev pub initial : KeepAlive
initial = record { last_date_recv = none; running = false }

abbrev pub received_frame : ℕ → KeepAlive → KeepAlive
received_frame now k = record k { last_date_recv = some now }

abbrev pub start : KeepAlive → KeepAlive
start k = if k.running then k else record k { running = true }

abbrev pub stop : KeepAlive → KeepAlive
stop k = if k.running then record k { running = false } else k

-- The grace beyond the interval.
abbrev pub grace : ℕ
grace = 5000

abbrev pub last_or : ℕ → Option ℕ → ℕ
last_or now none = now
last_or now (some t) = t

unfoldable pub tick : ℕ → ℕ → KeepAlive → KeepAlive × Effect
tick interval now k =
    let last = last_or now k.last_date_recv in
    (
      record k { last_date_recv = some last },
      if ltb (interval + grace) (now - last) then connection_lost else ping,
    )

-- What happens to a controller, with the times.
pub data Event : Type 0 where
  frame : ℕ → Event
  started stopped : Event
  interval_passed : ℕ → Event

abbrev pub step : ℕ → Event → KeepAlive → KeepAlive × List Effect
step interval (frame now) k = (received_frame now k, [])
step interval started k = (start k, [])
step interval stopped k = (stop k, [])
step interval (interval_passed now) k =
    if k.running then (let (k', e) = tick interval now k in (k', e ∷ [])) else (k, [])

unfoldable pub run : ℕ → List Event → KeepAlive → KeepAlive × List Effect
run interval [] k = (k, [])
run interval (e ∷ es) k =
    let (k', out) = step interval e k in
    let (k'', later) = run interval es k' in (k'', out ++ later)

-- Events in which no frame comes and nothing stops the controller.
abbrev pub is_silent : Event → Bool
is_silent started = true
is_silent (interval_passed now) = true
is_silent _ = false

abbrev pub IsSilent : Event → Type 0
IsSilent e = is_silent e ≡ true

-- What is called in such a time, when the last frame came at `t`.
abbrev pub watch : ℕ → ℕ → List Event → List Effect
watch interval t [] = []
watch interval t (interval_passed now ∷ es) =
    (if ltb (interval + grace) (now - t) then connection_lost else ping) ∷ watch interval t es
watch interval t (e ∷ es) = watch interval t es

run-silent :
    (interval t : ℕ) (es : List Event)
    → All IsSilent es
    → (run interval es (record { last_date_recv = some t; running = true })).1 ≡ watch interval t es
unfolding run tick
run-silent interval t [] h = refl
run-silent interval t (frame now ∷ es) (h, hs) = cc
run-silent interval t (started ∷ es) (h, hs) = run-silent interval t es hs
run-silent interval t (stopped ∷ es) (h, hs) = cc
run-silent interval t (interval_passed now ∷ es) (h, hs) =
    ap (λ l. (if ltb (interval + grace) (now - t) then connection_lost else ping) ∷ l)
      (run-silent interval t es hs)

-- After a frame at time `t`, and a call of `start`, each tick sends a ping as long as no more than
-- the interval and the grace have passed since `t`, and reports the connection lost from then on, until a
-- frame comes or the controller is stopped, however often `start` is called again.
pub run-watch :
    (interval t : ℕ) (k : KeepAlive) (es : List Event)
    → All IsSilent es
    → (run interval (frame t ∷ started ∷ es) k).1 ≡ watch interval t es
unfolding run
run-watch interval t k es h = go k.running refl
  where
    go :
        (b : Bool)
        → k.running ≡ b
        → (run interval (frame t ∷ started ∷ es) k).1 ≡ watch interval t es
    go true e = rw (e, run) (run-silent interval t es h)
    go false e = rw (e, run) (run-silent interval t es h)
