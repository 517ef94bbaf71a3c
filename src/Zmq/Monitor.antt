-- ===== src/Zmq/Monitor.antt =====
-- zpp/zmq.hpp, Socket::MonitorEvent: an event of a monitored socket, in two frames.
pub mod Events
mod Tests
use zpp_adapter.Prelude.{
  ℕ, zero, suc, ◌+◌, ◌*◌, ◌≡◌, Str, Bool, true, false, ◌==◌, leb, ltb, if◌then◌else◌, Option, none,
  some, List, [], ◌∷◌, ◌++◌, length, take, drop, ℤ, pos, negsuc,
}
use zpp_adapter.Zsi.{Err, ok, fail, param_invalid, not_support, is_ok}
use zpp_adapter.Zmq.{Libzmq}

-- What the call gives: the result, `*event` and `*fd` where they are written, and what is written to
-- `addr`; and the messages that it has received and not closed.
pub record Report (z : Libzmq) : Type 0 where
  pub ret : Err
  pub event : Option (ℕ × ℕ)
  pub addr : Option Str
  pub lost : List z.Msg

-- `len < zmq_msg_size(&msg) + 1`, in which an `int` below 0 is taken for a number of 64 bits.
abbrev pub too_short : ℤ → ℕ → Bool
too_short (pos n) size = ltb n (size + 1)
too_short (negsuc _) size = false

-- The number of the event and its value; `native` reads the byte order of the machine.
abbrev pub event_of : (List ℕ → ℕ) → Str → ℕ × ℕ
event_of native b = (native (take 2 b), native (take 4 (drop 2 b)))

module _ (z : Libzmq) (native : List ℕ → ℕ) where
  -- The second frame; `room` is how many bytes there are at `addr`, `none` for NULL, and `len` the
  -- argument. `none` is a write beyond them.
  pub second_frame : (room : Option ℕ) (len : ℤ) → ℕ × ℕ → z.Msg → Option (Report z)
  second_frame none len event m =
      some (record { ret = ok; event = some event; addr = none; lost = [] })
  second_frame (some room) len event m =
      let b = z.bytes m in
      if too_short len (length b)
      then some (record { ret = param_invalid; event = some event; addr = none; lost = m ∷ [] })
      else if leb (length b + 1) room
      then some (record { ret = ok; event = some event; addr = some (b ++ (0 ∷ [])); lost = [] })
      else none

  -- `none` is also a first frame that is too short for an event.
  pub monitor_event : (room : Option ℕ) (len : ℤ) → z.Sock → Option (Report z × z.Sock)
  monitor_event room len s =
      let (first, s1) = z.recv 0 s in
      elim first [
        | none ↦ some (record { ret = fail; event = none; addr = none; lost = [] }, s1)
        | some m ↦
            (if z.more m
              then if leb 6 (length (z.bytes m))
                then (let event = event_of native (z.bytes m) in
                    let (second, s2) = z.recv 0 s1 in
                    elim second [
                      | none ↦
                          some
                            (record { ret = fail; event = some event; addr = none; lost = [] }, s2)
                      | some m2 ↦ elim (second_frame room len event m2) [
                        | none ↦ none
                        | some r ↦ some (r, s2)
                      ]
                    ])
                else none
              else some
                  (record { ret = not_support; event = none; addr = none; lost = m ∷ [] }, s1))
      ]

  -- `n` calls with a buffer of `room` bytes, as long as they succeed: the events with their addresses.
  pub monitor_events : (n room : ℕ) → z.Sock → Option (List (Option (ℕ × ℕ) × Option Str) × z.Sock)
  monitor_events zero room s = some ([], s)
  monitor_events (suc n) room s = elim (monitor_event (some room) (pos room) s) [
    | none ↦ none
    | some (r, s1) ↦
        (let rest = monitor_events n room s1 in
          if is_ok r.ret
          then elim rest [ none ↦ none | some (es, s2) ↦ some ((r.event, r.addr) ∷ es, s2) ]
          else none)
  ]
