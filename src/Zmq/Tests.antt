-- ===== src/Zmq/Tests.antt =====
-- The zmq classes at concrete inputs.
use mathlib.Core.List.{Perm}
use zpp_adapter.Prelude.{
  ℕ, ◌≤◌, ◌<◌, ◌≡◌, ◌≢◌, ◌⊎◌, refl, true, false, none, some, List, [], ◌∷◌, ◌++◌, map, reverse,
  length, take, arith,
}
use zpp_adapter.Zsi.{ok, fail, eof, param_invalid}
use zpp_adapter.Zmq.{Frame}
use zpp_adapter.Zmq.Loopback.{Queues, loopback, loopback_delivers, reaching}
use zpp_adapter.Zmq.Stack.{MsgStack, rotate}
use zpp_adapter.Zmq.Stack.Rotate.{rotate_lem}
use zpp_adapter.Zmq.Route.{RoutePath, empty_route}
use zpp_adapter.Zmq.Route.Hops.{calc_route, rotate_route, is_last_hop}
use zpp_adapter.Zmq.Route.Hops.Journey.{travel, travel_back, rotate_route_keeps}
use zpp_adapter.Zmq.Wire.{send_route, recv_route}
use zpp_adapter.Zmq.Wire.Frames.{flagged, parts}
use zpp_adapter.Zmq.Wire.Sending.{send_route_lem}
use zpp_adapter.Zmq.Wire.RoundTrip.{round_trip}
use zpp_adapter.Zmq.Conns.{same_str, conn_info, known, ConnInfo, Socket, connect, disconnect}
use zpp_adapter.Zmq.Conns.Distinct.{IsDistinct, calls-IsDistinct}
use zpp_adapter.Zmq.Pirate.{poll_nothing, Round}

abbrev msg : ℕ → Frame
msg b = (b ∷ [], false)

abbrev stack : MsgStack loopback
stack = record { msgs = msg 1 ∷ msg 2 ∷ msg 3 ∷ []; status = 0; fd = 0 }

rotate_lem_example : rotate stack ≡ record stack { msgs = reverse stack.msgs }
rotate_lem_example = rotate_lem stack

abbrev route : RoutePath loopback
route = record {
  need_close = true;
  flag = 0;
  src = [];
  user = msg 10 ∷ msg 11 ∷ [];
  dest = msg 21 ∷ msg 22 ∷ [];
}

abbrev senders : List Frame
senders = msg 31 ∷ msg 32 ∷ []

travel_works :
    travel senders 0 route
    ≡ some (msg 21 ∷ msg 22 ∷ [], 2, record route { src = msg 22 ∷ []; dest = senders })
unfolding travel calc_route
travel_works = refl

travel_back_example :
    let n = length route.dest in
    (r' : RoutePath loopback) × (travel senders 0 route ≡ some (route.dest, n, r'))
    × (r'.dest ≡ senders)
    × (r'.user ≡ route.user)
    × (calc_route n r' ≡ some (eof, n, r'))
    × (is_last_hop n r' ≡ true)
    × (rotate_route n r' ≡ (ok, record r' { dest = reverse senders }, []))
travel_back_example = travel_back senders route refl (omega arith)

rotate_route_keeps_example :
    let (_, r', closed) = rotate_route 1 route in Perm (r'.dest ++ closed) route.dest
rotate_route_keeps_example = rotate_route_keeps 1 route (omega arith)

abbrev idle : Queues
idle = ([], [])

send_route_lem_example :
    let (ret, r', s') = send_route route 0 idle in
    let fs = flagged (parts loopback route) in
    ((length route.user < 2) × (ret ≡ param_invalid) × (s' ≡ idle) × (r' ≡ route))
    ⊎ ((2 ≤ length route.user)
        × (ret ≡ ok)
        × (s'.0 ≡ [] ++ fs)
        × (r' ≡ record route { need_close = false }))
    ⊎ ((2 ≤ length route.user)
        × (ret ≡ fail)
        × (r' ≡ route)
        × ((p : List Frame) × (q : List Frame) × (fs ≡ p ++ q) × (q ≢ []) × (s'.0 ≡ [] ++ p)))
send_route_lem_example = send_route_lem route 0 idle

-- The frames of `route`, and those of another message.
abbrev arriving : Queues
arriving = (
  [],
  ([], true)
      ∷ (10 ∷ [], true)
      ∷ (11 ∷ [], true)
      ∷ ([], true)
      ∷ (21 ∷ [], true)
      ∷ (22 ∷ [], false)
      ∷ (5 ∷ [], false)
      ∷ [],
)

round_trip_example :
    (r' : RoutePath loopback) × (s' : Queues) × (recv_route 6
        (empty_route {z = loopback})
        0
        arriving
      ≡ some (ok, r', s'))
    × (map loopback.bytes r'.src ≡ map loopback.bytes (take 1 route.src))
    × (map loopback.bytes r'.user ≡ map loopback.bytes route.user)
    × (map loopback.bytes r'.dest ≡ map loopback.bytes route.dest)
    × (s'.1 ≡ (5 ∷ [], false) ∷ [])
unfolding flagged parts
round_trip_example =
    round_trip loopback loopback_delivers route 6 0 arriving ((5 ∷ [], false) ∷ []) tt
      (omega arith, (omega arith, tt)) (omega arith, (omega arith, tt)) refl (omega arith)

abbrev conns : List ConnInfo
conns = conn_info (1 ∷ []) 5 ∷ record (conn_info (2 ∷ []) 6) { id = 9 ∷ []; stat = 3 } ∷ []

abbrev socket : Socket reaching
socket = record { sock = some ((1 ∷ []) ∷ (2 ∷ []) ∷ []); sock_type = 5; conns = conns }

conns-IsDistinct : IsDistinct conns
unfolding known same_str
conns-IsDistinct = (refl, (refl, tt))

calls-IsDistinct_example :
    IsDistinct (connect true 7 (2 ∷ []) none socket).1.conns
    × IsDistinct (disconnect (2 ∷ []) socket).1.conns
calls-IsDistinct_example = calls-IsDistinct true 7 (2 ∷ []) none socket conns-IsDistinct

abbrev silence : Round
silence = record { before = poll_nothing; stale = ok; send = ok; after = poll_nothing; reply = ok }
