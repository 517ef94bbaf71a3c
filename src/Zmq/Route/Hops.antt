-- ===== src/Zmq/Route/Hops.antt =====
-- RoutePath at a router: CalcRoute, RotateRoute and IsLastHop.
pub mod Journey
use zpp_adapter.Prelude.{
  ℕ, zero, suc, ◌+◌, ◌-◌, ◌%◌, ◌^◌, Bool, true, false, not, ◌==◌, ltb, if◌then◌else◌, Option, none,
  some, List, [], ◌∷◌, reverse, length, get_elem?, set, take, drop,
}
use zpp_adapter.Zsi.{Err, ok, param_invalid, eof}
use zpp_adapter.Zmq.{Libzmq}
use zpp_adapter.Zmq.Stack.{unsnoc, rotate_loop}
use zpp_adapter.Zmq.Route.{RoutePath}

-- The last byte of the address is not `*`; an empty address has none.
abbrev pub leaves : List ℕ → Option Bool
leaves b = elim (unsnoc b) [ none ↦ none | some p ↦ some (not (p.1 == 42)) ]

module _ {z : Libzmq} where
  -- `hops` is at most the number of addresses: beyond that the source leaves the vector, and here
  -- an exchange with nothing does nothing. The first loop of `RotateRoute` leaves `hops + 1`
  -- addresses and closes the others, last first.
  pub rotate_route : ℕ → RoutePath z → Err × RoutePath z × List z.Msg
  rotate_route zero r = (ok, r, [])
  rotate_route (suc n) r =
      let kept = take (suc n + 1) r.dest in
      (
        ok,
        record r { dest = rotate_loop (suc n) 0 (suc n - 1) kept },
        reverse (drop (suc n + 1) r.dest),
      )

  pub is_last_hop : ℕ → RoutePath z → Bool
  is_last_hop cur_hop r = length r.dest == cur_hop

  -- The exchange of `msgs[0][0]` and `msgs[2][hops]`.
  abbrev pub exchange : ℕ → RoutePath z → Option (RoutePath z)
  exchange hops r = elim (get_elem? r.src 0) [
    | none ↦ none
    | some a ↦ elim (get_elem? r.dest hops) [
      | none ↦ none
      | some b ↦ some (record r { src = set r.src 0 b; dest = set r.dest hops a })
    ]
  ]

  -- `hops` is a byte.
  unfoldable pub calc_route : ℕ → RoutePath z → Option (Err × ℕ × RoutePath z)
  calc_route hops r =
      let size = length r.dest in
      if ltb hops size
      then elim (exchange hops r) [ none ↦ none | some r' ↦ some (ok, (hops + 1) % 2 ^ 8, r') ]
      else if hops == size
      then some (eof, hops, r)
      else some (param_invalid, hops, r)

  -- `CalcRoute(hops, is_out)`; `is_out` is the value it has before.
  pub calc_route_out : ℕ → Bool → RoutePath z → Option (Err × ℕ × Bool × RoutePath z)
  calc_route_out hops is_out r =
      let size = length r.dest in
      if ltb hops size
      then elim (get_elem? r.dest hops) [
        | none ↦ none
        | some b ↦ elim (exchange hops r) [
          | none ↦ none
          | some r' ↦
              (let next = (hops + 1) % 2 ^ 8 in
                if next == size then some (ok, next, false, r') else elim (leaves (z.bytes b)) [
                  | none ↦ none
                  | some out ↦ some (ok, next, out, r')
                ])
        ]
      ]
      else if hops == size
      then some (eof, hops, is_out, r)
      else some (param_invalid, hops, is_out, r)
