-- ===== src/Zmq/Monitor/Tests.antt =====
-- Monitored events at concrete inputs.
use zpp_adapter.Prelude.{
  ℕ, ◌+◌, ◌*◌, ◌≡◌, refl, Str, some, List, [], ◌∷◌, ◌++◌, map, codes, arith, pos, true, false,
}
use zpp_adapter.Zmq.Loopback.{Queues, loopback, loopback_delivers}
use zpp_adapter.Zmq.Monitor.{Report, event_of, monitor_event, monitor_events}
use zpp_adapter.Zmq.Monitor.Events.{Outcome, monitor_event_lem, monitor_events_lem}

-- The first byte counts least.
abbrev little : List ℕ → ℕ
little [] = 0
little (c ∷ b) = c + 256 * little b

abbrev connected : Str
connected = 1 ∷ (0 ∷ (7 ∷ (0 ∷ (0 ∷ (0 ∷ [])))))

abbrev closed : Str
closed = 128 ∷ (0 ∷ (7 ∷ (0 ∷ (0 ∷ (0 ∷ [])))))

abbrev waiting : Queues
waiting = (
  [],
  (connected, true)
      ∷ ((codes "tcp", false)
          ∷ ((closed, true) ∷ ((codes "ipc", false) ∷ ((codes "x", false) ∷ [])))),
)

-- A buffer that is one byte short.
monitor_event_lem_example :
    (r : Report loopback) × (s' : Queues) × (monitor_event loopback little (some 3) (pos 3) waiting
      ≡ some (r, s'))
    × (s'.1 ≡ (closed, true) ∷ ((codes "ipc", false) ∷ ((codes "x", false) ∷ [])))
    × (r.event ≡ some (event_of little connected))
    × Outcome (some 3) (codes "tcp") r
monitor_event_lem_example =
    monitor_event_lem loopback little (loopback_delivers 0) connected (codes "tcp") (some 3)
      ((closed, true) ∷ ((codes "ipc", false) ∷ ((codes "x", false) ∷ []))) waiting (omega arith)
      refl

monitor_events_lem_example :
    (s' : Queues) × (monitor_events loopback little 2 4 waiting
      ≡ some (
        map
            (λ (e : Str × Str). (some (event_of little e.0), some (e.1 ++ (0 ∷ []))))
            ((connected, codes "tcp") ∷ ((closed, codes "ipc") ∷ [])),
        s',
      ))
    × (s'.1 ≡ (codes "x", false) ∷ [])
monitor_events_lem_example =
    monitor_events_lem loopback little (loopback_delivers 0)
      ((connected, codes "tcp") ∷ ((closed, codes "ipc") ∷ [])) 4 ((codes "x", false) ∷ []) waiting
      (omega arith, omega arith, (omega arith, omega arith, tt)) refl
