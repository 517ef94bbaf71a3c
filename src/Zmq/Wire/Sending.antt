-- ===== src/Zmq/Wire/Sending.antt =====
-- Socket::Send of a stack and of a routed message: the frames that go out.
use native.Mathlib.Decide.{dec_lt}
use zpp_adapter.Prelude.{
  ℕ, ◌≤◌, ◌<◌, ◌≡◌, ◌≢◌, sym, subst, ◌⊎◌, inl, inr, false, Option-cases, List, [], ◌++◌, map,
  length, arith,
}
use zpp_adapter.Zsi.{ok, fail, param_invalid}
use zpp_adapter.Zmq.{Libzmq, Frame}
use zpp_adapter.Zmq.Stack.{MsgStack, unsnoc, set_close}
use zpp_adapter.Zmq.Stack.Last.{unsnoc-none, unsnoc-some}
use zpp_adapter.Zmq.Route.{RoutePath}
use zpp_adapter.Zmq.Wire.{and_then, send_more, send_last, send_stack, send_route}
use zpp_adapter.Zmq.Wire.Frames.{flagged, parts, Sends, send_last_lem, send_all}

module _ {z : Libzmq} where
  -- `Send(RoutePath &)` needs two user messages at least and otherwise sends nothing. Where it
  -- succeeds, exactly the parts of the routed message went out, framed as one message, and they will
  -- not be closed; where libzmq fails, a proper beginning of them went out.
  pub send_route_lem :
      (r : RoutePath z) (flags : ℕ) (s : z.Sock)
      → let (ret, r', s') = send_route r flags s in
        let fs = flagged (parts z r) in
        ((length r.user < 2) × (ret ≡ param_invalid) × (s' ≡ s) × (r' ≡ r))
        ⊎ ((2 ≤ length r.user)
            × (ret ≡ ok)
            × (z.sent s' ≡ z.sent s ++ fs)
            × (r' ≡ record r { need_close = false }))
        ⊎ ((2 ≤ length r.user)
            × (ret ≡ fail)
            × (r' ≡ r)
            × ((p : List Frame) × (q : List Frame) × (fs ≡ p ++ q)
                × (q ≢ [])
                × (z.sent s' ≡ z.sent s ++ p)))
  unfolding send_route
  send_route_lem r flags s = elim (dec_lt (length r.user) 2) [
    | yes few ↦ inl (ground (arith, few))
    | no many ↦ elim (send_all z r flags s) [
      | inl (b, out) ↦ inr (inl (ground (arith, many, b, out)))
      | inr (b, (p, q, split, ne, out)) ↦ inr (
          inr (
            omega arith,
            ground (arith, many, b),
            ground (arith, many, b),
            (p, q, split, ne, ground (arith, many, b, out)),
          ))
    ]
  ]

  -- `Send(MsgStack &)` on a stack that is not empty: where it succeeds exactly its messages went out,
  -- framed as one message, and the stack will not close them; where libzmq fails a proper beginning
  -- of them went out. An empty stack is a wrong parameter.
  pub send_stack_lem :
      (ms : MsgStack z) (flags : ℕ) (s : z.Sock)
      → let (ret, ms', s') = send_stack ms flags s in
        let fs = flagged (map z.bytes ms.msgs) in
        ((ms.msgs ≡ []) × (ret ≡ param_invalid) × (s' ≡ s) × (ms' ≡ ms))
        ⊎ ((ret ≡ ok) × (z.sent s' ≡ z.sent s ++ fs) × (ms' ≡ set_close false ms))
        ⊎ ((ret ≡ fail)
            × (ms' ≡ ms)
            × ((p : List Frame) × (q : List Frame) × (fs ≡ p ++ q)
                × (q ≢ [])
                × (z.sent s' ≡ z.sent s ++ p)))
  unfolding send_stack send_last
  send_stack_lem ms flags s = elim (Option-cases (unsnoc ms.msgs)) [
    | inl e ↦ inl (ground (arith, e, unsnoc-none ms.msgs e))
    | inr (f, e) ↦
        let whole = unsnoc-some ms.msgs f.0 f.1 e in
        let out : Sends z (and_then (send_more z flags f.0 s) (z.send f.1 flags false)) s
            (flagged (map z.bytes ms.msgs)) =
          subst
            (λ d.
              Sends z (and_then (send_more z flags f.0 s) (z.send f.1 flags false)) s
                (flagged (map z.bytes d)))
            (sym whole) (send_last_lem z flags f.0 f.1 s) in
        elim out [
          | inl (b, o) ↦ inr (inl (ground (arith, e, b, o)))
          | inr (b, (p, q, split, ne, o)) ↦ inr (
              inr (
                ground (arith, e, b),
                ground (arith, e, b),
                (p, q, split, ne, ground (arith, e, b, o)),
              ))
        ]
  ]
