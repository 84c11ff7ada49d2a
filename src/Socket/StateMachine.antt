-- ===== src/Socket/StateMachine.antt =====
-- src/socket/state-machine.ts: the states of the connection.
use nexawhats.Common.{
  ℕ, ◌≡◌, refl, subst, Bool, true, false, ◌||◌, if◌then◌else◌, List, [], ◌∷◌, ◌++◌, any,
}

pub data ConnectionStatus : Type 0 where
  disconnected connecting connected reconnecting : ConnectionStatus

-- `TRANSITIONS`
abbrev pub transitions : ConnectionStatus → List ConnectionStatus
transitions disconnected = connecting ∷ []
transitions connecting = connected ∷ reconnecting ∷ disconnected ∷ []
transitions connected = reconnecting ∷ disconnected ∷ []
transitions reconnecting = connecting ∷ disconnected ∷ []

abbrev pub same_status : ConnectionStatus → ConnectionStatus → Bool
same_status disconnected disconnected = true
same_status connecting connecting = true
same_status connected connected = true
same_status reconnecting reconnecting = true
same_status a b = false

-- What is emitted.
pub data Event : Type 0 where
  transition_event : (from to : ConnectionStatus) → Event
  error_event : (from to : ConnectionStatus) → Event

pub record Machine : Type 0 where
  pub state : ConnectionStatus
  pub last_transition : ℕ
  pub events : List Event

abbrev pub moved : ConnectionStatus → ℕ → Machine → Machine
moved to now m = record {
  state = to;
  last_transition = now;
  events = m.events ++ (transition_event m.state to ∷ []);
}

abbrev pub can_transition : ConnectionStatus → Machine → Bool
can_transition to m = any (same_status to) (transitions m.state)

-- Whether it throws, and the machine after it.
pub transition : ConnectionStatus → ℕ → Machine → Bool × Machine
transition to now m =
    if same_status m.state to
    then (false, m)
    else if any (same_status to) (transitions m.state)
    then (false, moved to now m)
    else (
      true,
      record {
        state = m.state;
        last_transition = m.last_transition;
        events = m.events ++ (error_event m.state to ∷ []);
      },
    )

pub reset : ℕ → Machine → Machine
reset now m =
    if same_status m.state disconnected
    then record { state = disconnected; last_transition = now; events = m.events }
    else moved disconnected now m

abbrev pub is_connected : Machine → Bool
is_connected m = same_status m.state connected

abbrev pub is_connecting : Machine → Bool
is_connecting m = same_status m.state connecting || same_status m.state reconnecting

-- The calls that clients make.
pub data Call : Type 0 where
  transition_to : ConnectionStatus → Call
  reset_all : Call

abbrev pub call : Call → ℕ → Machine → Machine
call (transition_to to) now m = (transition to now m).1
call reset_all now m = reset now m

-- The machine after calls, each at its time.
pub run_calls : List (Call × ℕ) → Machine → Machine
run_calls [] m = m
run_calls ((c, now) ∷ cs) m = run_calls cs (call c now m)

abbrev pub initial : ℕ → Machine
initial now = record { state = disconnected; last_transition = now; events = [] }

-- An entry of the table of transitions. All but `give_up` are in the diagram of the class.
pub data Arrow : ConnectionStatus → ConnectionStatus → Type 0 where
  connect : Arrow disconnected connecting
  handshake_ok : Arrow connecting connected
  connect_error : Arrow connecting reconnecting
  give_up : Arrow connecting disconnected
  lost : Arrow connected reconnecting
  fatal : Arrow connected disconnected
  retry : Arrow reconnecting connecting
  exhausted : Arrow reconnecting disconnected

-- The events since the start: the transitions form a path of arrows, from `s` to the last state.
pub data Trace : ConnectionStatus → List Event → ConnectionStatus → Type 0 where
  begin : {s : ConnectionStatus} → Trace s [] s
  step :
      {s t u : ConnectionStatus} {es : List Event}
      → Trace s es t
      → Arrow t u
      → Trace s (es ++ (transition_event t u ∷ [])) u
  refused :
      {s t : ConnectionStatus} {es : List Event}
      → Trace s es t
      → (u : ConnectionStatus) → Trace s (es ++ (error_event t u ∷ [])) t

transitions-Arrow :
    (s t : ConnectionStatus) → any (same_status t) (transitions s) ≡ true → Arrow s t
transitions-Arrow disconnected connecting e = connect
transitions-Arrow connecting connected e = handshake_ok
transitions-Arrow connecting reconnecting e = connect_error
transitions-Arrow connecting disconnected e = give_up
transitions-Arrow connected reconnecting e = lost
transitions-Arrow connected disconnected e = fatal
transitions-Arrow reconnecting connecting e = retry
transitions-Arrow reconnecting disconnected e = exhausted
transitions-Arrow disconnected disconnected e = cc
transitions-Arrow disconnected connected e = cc
transitions-Arrow disconnected reconnecting e = cc
transitions-Arrow connecting connecting e = cc
transitions-Arrow connected connecting e = cc
transitions-Arrow connected connected e = cc
transitions-Arrow reconnecting connected e = cc
transitions-Arrow reconnecting reconnecting e = cc

same_status_eq : (s t : ConnectionStatus) → same_status s t ≡ true → s ≡ t
same_status_eq disconnected disconnected e = refl
same_status_eq connecting connecting e = refl
same_status_eq connected connected e = refl
same_status_eq reconnecting reconnecting e = refl
same_status_eq disconnected connecting e = cc
same_status_eq disconnected connected e = cc
same_status_eq disconnected reconnecting e = cc
same_status_eq connecting disconnected e = cc
same_status_eq connecting connected e = cc
same_status_eq connecting reconnecting e = cc
same_status_eq connected disconnected e = cc
same_status_eq connected connecting e = cc
same_status_eq connected reconnecting e = cc
same_status_eq reconnecting disconnected e = cc
same_status_eq reconnecting connecting e = cc
same_status_eq reconnecting connected e = cc

abbrev Traced : ConnectionStatus → Machine → Type 0
Traced s m = Trace s m.events m.state

abbrev TracedIn : ConnectionStatus → Bool × Machine → Type 0
TracedIn s (thrown, m) = Traced s m

transition-Trace :
    (s to : ConnectionStatus) (now : ℕ) (m : Machine)
    → Traced s m
    → TracedIn s (transition to now m)
unfolding transition
transition-Trace s to now m h =
    go (same_status m.state to) (any (same_status to) (transitions m.state)) refl
  where
    go :
        (same allowed : Bool)
        → any (same_status to) (transitions m.state) ≡ allowed
        → TracedIn s (
            if same then (false, m) else if allowed then (false, moved to now m) else (
              true,
              record {
                state = m.state;
                last_transition = m.last_transition;
                events = m.events ++ (error_event m.state to ∷ []);
              },
            ))
    go true allowed e = h
    go false true e = step h (transitions-Arrow m.state to e)
    go false false e = refused h to

down : (s : ConnectionStatus) → same_status s disconnected ≡ false → Arrow s disconnected
down disconnected e = cc
down connecting e = give_up
down connected e = fatal
down reconnecting e = exhausted

reset-Trace : (s : ConnectionStatus) (now : ℕ) (m : Machine) → Traced s m → Traced s (reset now m)
unfolding reset
reset-Trace s now m h = go (same_status m.state disconnected) refl
  where
    go :
        (b : Bool)
        → same_status m.state disconnected ≡ b
        → Traced s (
            if b
            then record { state = disconnected; last_transition = now; events = m.events }
            else moved disconnected now m)
    go true e = subst (λ t. Trace s m.events t) (same_status_eq m.state disconnected e) h
    go false e = step h (down m.state e)

run_calls-Traced :
    (s : ConnectionStatus) (cs : List (Call × ℕ)) (m : Machine)
    → Traced s m
    → Traced s (run_calls cs m)
unfolding run_calls
run_calls-Traced s [] m h = h
run_calls-Traced s ((transition_to to, now) ∷ cs) m h =
    run_calls-Traced s cs _ (transition-Trace s to now m h)
run_calls-Traced s ((reset_all, now) ∷ cs) m h = run_calls-Traced s cs _ (reset-Trace s now m h)

-- Whatever is called, and in whatever order, the transitions that are emitted lead from
-- `disconnected` to the present state, each an entry of the table of transitions, one after the
-- other, and a refused call leaves the state as it is.
pub run_calls-Trace :
    (created : ℕ) (cs : List (Call × ℕ))
    → Trace disconnected
        (run_calls cs (initial created)).events
        (run_calls cs (initial created)).state
run_calls-Trace created cs = run_calls-Traced disconnected cs (initial created) begin
