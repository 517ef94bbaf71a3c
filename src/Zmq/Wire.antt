-- ===== src/Zmq/Wire.antt =====
-- zpp/zmq.hpp, class Socket: sending and receiving messages, stacks and routed messages. `flags` is
-- passed on; `ZMQ_SNDMORE` is a separate argument of `zmq_msg_send`.
pub mod Frames
pub mod Sending
pub mod Receiving
pub mod RoundTrip
use zpp_adapter.Prelude.{
  ℕ, zero, suc, ◌+◌, Bool, true, false, ◌==◌, ltb, not, ◌&&◌, if◌then◌else◌, Option, none, some,
  List, [], ◌∷◌, ◌++◌, length,
}
use zpp_adapter.Zsi.{Err, ok, fail, param_invalid, not_support, timeout}
use zpp_adapter.Zmq.{Libzmq, Message, init}
use zpp_adapter.Zmq.Stack.{MsgStack, unsnoc, push_ref, set_close}
use zpp_adapter.Zmq.Route.{RoutePath}

-- The next call is made only if the last one succeeded.
abbrev pub and_then : {S : Type 0} → Bool × S → (S → Bool × S) → Bool × S
and_then (true, s) k = k s
and_then (false, s) k = (false, s)

-- What `zmq_poll` reports of one socket: an error, nothing in time, or an event, with the test of
-- `ZMQ_POLLIN`.
pub data Polled : Type 0 where
  poll_error poll_timeout : Polled
  poll_ready : Bool → Polled

module _ (z : Libzmq) where
  -- The loops that send with `ZMQ_SNDMORE` and stop at the first failure.
  pub send_more : ℕ → List z.Msg → z.Sock → Bool × z.Sock
  send_more flags [] s = (true, s)
  send_more flags (m ∷ ms) s = and_then (z.send m flags true s) (send_more flags ms)

  -- The messages of a stack or a route's address list: the last one ends the message.
  pub send_last : ℕ → List z.Msg → z.Sock → Option (Bool × z.Sock)
  send_last flags ms s = elim (unsnoc ms) [
    | none ↦ none
    | some p ↦ some (and_then (send_more flags p.0 s) (z.send p.1 flags false))
  ]

  -- The last part of `Send(RoutePath &)`: the separator and the addresses.
  pub send_dest : ℕ → List z.Msg → z.Sock → Bool × z.Sock
  send_dest flags dest s = elim (unsnoc dest) [
    | none ↦ z.send z.init flags false s
    | some p ↦
        and_then (and_then (z.send z.init flags true s) (send_more flags p.0))
          (z.send p.1 flags false)
  ]

  -- The first part: `msgs[0][0]`, if there is one.
  pub send_src : ℕ → List z.Msg → z.Sock → Bool × z.Sock
  send_src flags [] s = (true, s)
  send_src flags (m ∷ _) s = z.send m flags true s

module _ {z : Libzmq} where
  pub send : Message z → ℕ → z.Sock → Err × Message z × z.Sock
  send m flags s =
      let (sent, s') = z.send m.msg flags false s in
      if sent then (ok, record m { need_close = false }, s') else (fail, m, s')

  pub recv : Message z → ℕ → z.Sock → Err × Message z × z.Sock
  recv m flags s =
      let (got, s') = z.recv flags s in
      elim got [ none ↦ (fail, (init m).1, s') | some h ↦ (ok, record m { msg = h }, s') ]

  pub send_stack : MsgStack z → ℕ → z.Sock → Err × MsgStack z × z.Sock
  send_stack ms flags s = elim (send_last z flags ms.msgs s) [
    | none ↦ (param_invalid, ms, s)
    | some r ↦ if r.0 then (ok, set_close false ms, r.1) else (fail, ms, r.1)
  ]

  -- `fuel` bounds the rounds of the loop; `none` where it runs out.
  pub recv_stack : ℕ → MsgStack z → ℕ → z.Sock → Option (Err × MsgStack z × z.Sock)
  recv_stack zero ms flags s = none
  recv_stack (suc fuel) ms flags s =
      let (got, s') = z.recv flags s in
      elim got [
        | none ↦ some (fail, ms, s')
        | some m ↦
            (let ms' = (push_ref m ms).1 in
              let rest = recv_stack fuel ms' flags s' in
              if z.more m then rest else some (ok, ms', s'))
      ]

  pub send_route : RoutePath z → ℕ → z.Sock → Err × RoutePath z × z.Sock
  send_route r flags s =
      if ltb (length r.user) 2
      then (param_invalid, r, s)
      else let (sent, s') =
          and_then
            (and_then (and_then (send_src z flags r.src s) (z.send z.init flags true))
              (send_more z flags r.user))
            (send_dest z flags r.dest) in
        if sent then (ok, record r { need_close = false }, s') else (fail, r, s')

  -- `msgs[stat].push_back(msg)`.
  abbrev pub put : ℕ → z.Msg → RoutePath z → RoutePath z
  put zero m r = record r { src = r.src ++ (m ∷ []) }
  put (suc zero) m r = record r { user = r.user ++ (m ∷ []) }
  put (suc (suc i)) m r = record r { dest = r.dest ++ (m ∷ []) }

  -- One round of the loop of `Recv(RoutePath &)` on a message that has arrived.
  pub absorb : z.Msg → ℕ × RoutePath z → ℕ × RoutePath z
  absorb m (stat, r) =
      if ltb stat 3 && not (length (z.bytes m) == 0) then (stat, put stat m r) else (stat + 1, r)

  pub recv_loop : ℕ → ℕ × RoutePath z → ℕ → z.Sock → Option (Err × RoutePath z × z.Sock)
  recv_loop zero st flags s = none
  recv_loop (suc fuel) st flags s =
      let (got, s') = z.recv flags s in
      elim got [
        | none ↦ some (fail, st.1, s')
        | some m ↦
            (let st' = absorb m st in
              let rest = recv_loop fuel st' flags s' in
              if z.more m then rest else some (if st'.0 == 2 then ok else not_support, st'.1, s'))
      ]

  pub recv_route : ℕ → RoutePath z → ℕ → z.Sock → Option (Err × RoutePath z × z.Sock)
  recv_route fuel r flags s = recv_loop fuel (0, r) flags s

  -- `nowait` is `ZMQ_DONTWAIT`.
  pub recv_by_timeout : ℕ → ℕ → Polled → RoutePath z → z.Sock → Option (Err × RoutePath z × z.Sock)
  recv_by_timeout fuel nowait poll_error r s = some (fail, r, s)
  recv_by_timeout fuel nowait poll_timeout r s = some (timeout, r, s)
  recv_by_timeout fuel nowait (poll_ready true) r s = recv_route fuel r nowait s
  recv_by_timeout fuel nowait (poll_ready false) r s = some (ok, r, s)
