-- ===== src/Socket/Tests.antt =====
-- Pairing codes, and runs of the connection's state machine and of the circuit breaker.
use nexawhats.Common.{map, ℕ, ◌-◌, ◌*◌, ◌^◌, ◌≡◌, refl, arith, min, leb, List, [], ◌∷◌}
use nexawhats.Socket.KeepAlive
use nexawhats.Socket.KeepAlive.{frame, started, interval_passed, watch, run-watch}
use nexawhats.Socket.Crockford.{bytes_to_crockford, value, padding}
use nexawhats.Socket.PairingCode.{number_of, bytes_to_crockford-value}
use nexawhats.Socket.StateMachine.{
  ConnectionStatus, disconnected, connecting, connected, reconnecting, Event, Call, transition_to,
  reset_all, Trace, run_calls, run_calls-Trace,
}
use nexawhats.Socket.StateMachine
use nexawhats.Socket.CircuitBreaker
use nexawhats.Socket.CircuitBreaker.{default_config, is_allowed, probes, trip, is_allowed-probes}

abbrev day : List (Call × ℕ)
day =
    (transition_to connecting, 1)
    ∷ (transition_to connected, 2)
    ∷ (transition_to connecting, 3)
    ∷ (reset_all, 4)
    ∷ []

run_calls-Trace_example :
    Trace disconnected
      (run_calls day (StateMachine.initial 0)).events
      (run_calls day (StateMachine.initial 0)).state
run_calls-Trace_example = run_calls-Trace 0 day

is_allowed-probes_example :
    let b =
      probes default_config
        (31000 ∷ 92000 ∷ [])
        (trip default_config 1000 (CircuitBreaker.initial default_config)) in
    (b.cooldown ≡ min (30000 * 2 ^ 2) 300000)
    × (is_allowed default_config 200000 b ≡ leb (min (30000 * 2 ^ 2) 300000) (200000 - 92000))
is_allowed-probes_example =
    is_allowed-probes default_config 1000 200000 (31000 ∷ 92000 ∷ [])
      (omega arith, (omega arith, tt))

abbrev quiet : List KeepAlive.Event
quiet = interval_passed 30000 ∷ started ∷ interval_passed 60000 ∷ interval_passed 90000 ∷ []

run-watch_example :
    (KeepAlive.run 30000 (frame 0 ∷ started ∷ quiet) KeepAlive.initial).1 ≡ watch 30000 0 quiet
run-watch_example = run-watch 30000 0 KeepAlive.initial quiet (refl, (refl, (refl, (refl, tt))))

-- `bytesToCrockford` of six bytes: ten characters, the last one with two zero bits.
abbrev six_bytes : List ℕ
six_bytes = 255 ∷ 0 ∷ 17 ∷ 128 ∷ 9 ∷ 200 ∷ []

bytes_to_crockford-value_example :
    value 32 0 (map number_of (bytes_to_crockford six_bytes))
    ≡ 2 ^ padding 48 * value 256 0 six_bytes
bytes_to_crockford-value_example =
    bytes_to_crockford-value six_bytes
      (omega arith, (omega arith, (omega arith, (omega arith, (omega arith, (omega arith, tt))))))
