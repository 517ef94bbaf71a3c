-- ===== src/Zmq/Route.antt =====
-- zpp/zmq.hpp, class RoutePath: a message with the way it has come and the way it has to go. A result
-- `none` stands for an access outside a vector, which the source does not guard.
pub mod Hops
pub mod Laws
pub mod Swaps
use zpp_adapter.Prelude.{
  ℕ, zero, suc, ◌+◌, ◌-◌, ◌*◌, ◌/◌, ◌%◌, ◌^◌, Bool, true, false, not, ◌==◌, ltb, leb, ◌&&◌,
  if◌then◌else◌, Option, none, some, List, [], ◌∷◌, ◌++◌, map, reverse, length, get_elem?, set,
  take, drop, ℤ, pos, negsuc,
}
use zpp_adapter.Zsi.{Err, ok, fail, exist, not_exist, param_invalid, mem_insufficient, eof}
use zpp_adapter.Zmq.{Libzmq, Message, copied, filled}
use zpp_adapter.Zmq.Stack.{MsgStack, unsnoc, swap, copy_all, push_ref, rotate_loop}

-- `src`, `user` and `dest` are `msgs[0]`, `msgs[1]` and `msgs[2]`.
pub record RoutePath (z : Libzmq) : Type 0 where
  pub need_close : Bool
  pub flag : ℕ
  pub src : List z.Msg
  pub user : List z.Msg
  pub dest : List z.Msg

module _ {z : Libzmq} where
  abbrev pub empty_route : RoutePath z
  empty_route = record { need_close = true; flag = 0; src = []; user = []; dest = [] }

  -- `msgs[i]`.
  abbrev pub vector : ℕ → RoutePath z → List z.Msg
  vector zero r = r.src
  vector (suc zero) r = r.user
  vector (suc (suc i)) r = r.dest

  pub push_msg : Message z → RoutePath z → Err × RoutePath z
  push_msg m r = (ok, record r { user = r.user ++ (copied z m.msg ∷ []) })

  pub push_msg_stack : MsgStack z → RoutePath z → Err × RoutePath z
  push_msg_stack s r = (ok, record r { user = copy_all z r.user s.msgs })

  pub push_msg_str : List ℕ → RoutePath z → Err × RoutePath z
  push_msg_str str r = elim (filled z str) [
    | none ↦ (fail, r)
    | some m ↦ (ok, record r { user = r.user ++ (m ∷ []) })
  ]

  pub push_dest : Message z → RoutePath z → Err × RoutePath z
  push_dest m r = (ok, record r { dest = r.dest ++ (copied z m.msg ∷ []) })

  pub push_dest_str : List ℕ → RoutePath z → Err × RoutePath z
  push_dest_str str r = elim (filled z str) [
    | none ↦ (fail, r)
    | some m ↦ (ok, record r { dest = r.dest ++ (m ∷ []) })
  ]

  -- The handles themselves; the stack no longer closes them.
  pub push_dest_stack : MsgStack z → RoutePath z → Err × MsgStack z × RoutePath z
  push_dest_stack s r = (ok, record s { status = 1 }, record r { dest = r.dest ++ s.msgs })

  pub dest_back : RoutePath z → Err × Option z.Msg
  dest_back r = elim (unsnoc r.dest) [
    | none ↦ (not_exist, none)
    | some p ↦ (ok, some (copied z p.1))
  ]

  pub swap_dest : RoutePath z → Option (Err × RoutePath z)
  swap_dest r =
      let n = length r.dest in
      if ltb n 2 then none else some (ok, record r { dest = swap (n - 1) (n - 2) r.dest })

  pub pop_dest : Message z → RoutePath z → Err × Message z × RoutePath z
  pop_dest m r = elim (unsnoc r.dest) [
    | none ↦ (not_exist, m, r)
    | some p ↦ (ok, record m { msg = p.1 }, record r { dest = p.0 })
  ]

  pub push_src : Message z → RoutePath z → Err × RoutePath z
  push_src m r = (ok, record r { src = r.src ++ (copied z m.msg ∷ []) })

  -- With what the local message closes. Where `Init` fails the local message is not set.
  pub push_src_str : List ℕ → RoutePath z → Option (Err × RoutePath z × List z.Msg)
  push_src_str str r = elim (filled z str) [
    | none ↦ none
    | some m ↦
        (let (ret, r') = push_src (record { need_close = true; msg = m }) r in
          some (ret, r', m ∷ []))
  ]

  -- `has_data` and `has_len`: the pointers are not NULL.
  pub get_msg : ℤ → ℤ → Bool → Bool → RoutePath z → Err × Option (List ℕ × ℕ)
  get_msg (negsuc _) i1 has_data has_len r = (param_invalid, none)
  get_msg (pos i0) (negsuc _) has_data has_len r = (param_invalid, none)
  get_msg (pos i0) (pos i1) has_data has_len r =
      if ltb 2 i0
      then (param_invalid, none)
      else if not (has_data && has_len)
      then (param_invalid, none)
      else elim (get_elem? (vector i0 r) i1) [
        | none ↦ (param_invalid, none)
        | some m ↦ (ok, some (z.bytes m, length (z.bytes m)))
      ]

  pub get_user_data : ℕ → RoutePath z → Option (Err × List ℕ)
  get_user_data index r = elim (get_elem? r.user index) [
    | none ↦ none
    | some m ↦ some (ok, z.bytes m)
  ]

  -- `zmq_msg_move` releases the old message; what is released comes last.
  pub set_user_data : List ℕ → ℕ → RoutePath z → Option (Err × RoutePath z × List z.Msg)
  set_user_data str index r = elim (filled z str) [
    | none ↦ some (fail, r, [])
    | some m ↦ elim (get_elem? r.user index) [
      | none ↦ none
      | some old ↦ some (ok, record r { user = set r.user index m }, old ∷ [])
    ]
  ]

  pub swap_route : MsgStack z → RoutePath z → MsgStack z × RoutePath z
  swap_route s r = (record s { msgs = r.dest }, record r { dest = s.msgs })

  pub swap_data : Message z → RoutePath z → Option (Err × Message z × RoutePath z)
  swap_data m r = elim (get_elem? r.user 1) [
    | none ↦ none
    | some old ↦ some (ok, record m { msg = old }, record r { user = set r.user 1 m.msg })
  ]

  pub swap_src : Message z → RoutePath z → Option (Err × Message z × RoutePath z)
  swap_src m r = elim (get_elem? r.src 0) [
    | none ↦ none
    | some old ↦ some (ok, record m { msg = old }, record r { src = set r.src 0 m.msg })
  ]

  -- With what is closed, in order.
  pub close_msg : Bool → Bool → Bool → RoutePath z → Err × RoutePath z × List z.Msg
  close_msg src msg dest r =
      if r.need_close
      then (
        ok,
        record r {
          src = if src then [] else r.src;
          user = if msg then [] else r.user;
          dest = if dest then [] else r.dest;
        },
        (if src then reverse r.src else [])
            ++ ((if msg then reverse r.user else []) ++ (if dest then reverse r.dest else [])),
      )
      else (ok, record r { src = []; user = []; dest = [] }, [])

  -- `~RoutePath`.
  pub fini : RoutePath z → List z.Msg
  fini r = let (_, _, closed) = close_msg true true true r in closed

  pub release : RoutePath z → RoutePath z × List z.Msg
  release r =
      let (_, r', closed) = close_msg true true true (record r { flag = 0; need_close = true }) in
      (r', closed)

  pub init_route : ℕ → RoutePath z → Err × RoutePath z
  init_route ctl_size r = elim (z.init_size ctl_size) [
    | none ↦ (mem_insufficient, r)
    | some m ↦ (ok, record r { user = r.user ++ (m ∷ []) })
  ]

  pub dest_id : RoutePath z → Err × Option (List ℕ)
  dest_id r = elim (unsnoc r.dest) [
    | none ↦ (param_invalid, none)
    | some p ↦ (if length r.dest == 1 then ok else exist, some (z.bytes p.1))
  ]

  pub copy_src : RoutePath z → Option z.Msg
  copy_src r = elim (get_elem? r.src 0) [ none ↦ none | some m ↦ some (copied z m) ]

  pub copy : RoutePath z → RoutePath z → Err × RoutePath z
  copy from r = (
    ok,
    record r {
      src = copy_all z r.src from.src;
      user = copy_all z r.user from.user;
      dest = copy_all z r.dest from.dest;
    },
  )

  pub copy_route : RoutePath z → RoutePath z → Err × RoutePath z
  copy_route from r =
      if (length r.dest == 0) && not (length from.dest == 0)
      then (ok, record r { dest = copy_all z r.dest from.dest })
      else (param_invalid, r)

  -- The loop of `Copy(MsgStack &, ...)`, with `n` rounds to go.
  pub copy_range : ℕ → ℕ → List z.Msg → MsgStack z → Option (MsgStack z)
  copy_range zero i ms s = some s
  copy_range (suc n) i ms s = elim (get_elem? ms i) [
    | none ↦ none
    | some m ↦ copy_range n (i + 1) ms (push_ref (copied z m) s).1
  ]

  pub copy_to_stack : MsgStack z → ℕ → ℕ → ℕ → RoutePath z → Option (Err × MsgStack z)
  copy_to_stack s index begin_pos end_pos r =
      let ms = vector index r in
      let end' = if end_pos == 0 then length ms else end_pos in
      elim (copy_range (end' - begin_pos) begin_pos ms s) [ none ↦ none | some s' ↦ some (ok, s') ]

  -- `GetSrcId(char **, int *)`.
  pub get_src_id : RoutePath z → Err × Option (List ℕ)
  get_src_id r = elim (get_elem? r.dest 0) [
    | none ↦ (not_exist, none)
    | some m ↦ (ok, some (z.bytes m))
  ]
