-- ===== src/Zmq/Route/Swaps.antt =====
-- zpp/zmq.hpp, class RoutePath: the exchange of messages with other vectors, and user data that moves.
use zpp_adapter.Prelude.{
  ℕ, zero, suc, ◌≡◌, refl, ap, Option, none, some, List, [], ◌∷◌, get_elem?, set, arith,
}
use zpp_adapter.Zsi.{Err, ok}
use zpp_adapter.Zmq.{Libzmq, Message}
use zpp_adapter.Zmq.Route.{RoutePath, get_user_data}

module _ {A : Type 0} where
  -- `SwapMsg(Msgs &, int, Msgs &, int)` for two different vectors.
  pub swap_msg_at : List A → ℕ → List A → ℕ → Option (Err × List A × List A)
  swap_msg_at msgs idx msgs1 idx1 = elim (get_elem? msgs idx) [
    | none ↦ none
    | some a ↦ elim (get_elem? msgs1 idx1) [
      | none ↦ none
      | some b ↦ some (ok, set msgs idx b, set msgs1 idx1 a)
    ]
  ]

  -- `SwapMsg(Msgs &, Msgs &)`.
  pub swap_msgs : List A → List A → List A × List A
  swap_msgs msgs msgs1 = (msgs1, msgs)

module _ {z : Libzmq} where
  -- `SwapMsg(Message &, Msgs &, int)`.
  pub swap_msg : Message z → List z.Msg → ℕ → Option (Err × Message z × List z.Msg)
  swap_msg m msgs idx = elim (get_elem? msgs idx) [
    | none ↦ none
    | some old ↦ some (ok, record m { msg = old }, set msgs idx m.msg)
  ]

  -- `MoveUserData` from another route, with the old message, which `zmq_msg_move` releases; the other
  -- route is left with an empty message.
  pub move_user_data :
      RoutePath z → ℕ → RoutePath z → Option (RoutePath z × RoutePath z × List z.Msg)
  move_user_data route index r = elim (get_elem? r.user index) [
    | none ↦ none
    | some old ↦ elim (get_elem? route.user index) [
      | none ↦ none
      | some m ↦ some (
        record r { user = set r.user index m },
        record route { user = set route.user index z.init },
        old ∷ [],
      )
    ]
  ]

  -- `GetRouteCtl` and `GetRouteCmd`, which give bytes of the first and of the second user message.
  pub get_route_ctl : RoutePath z → Option (List ℕ)
  get_route_ctl r = elim (get_elem? r.user 0) [ none ↦ none | some m ↦ some (z.bytes m) ]

  pub get_route_cmd : RoutePath z → Option (List ℕ)
  get_route_cmd r = elim (get_elem? r.user 1) [ none ↦ none | some m ↦ some (z.bytes m) ]

module _ {A : Type 0} where
  get-set :
      (xs : List A) (i : ℕ) (x old : A)
      → get_elem? xs i ≡ some old
      → get_elem? (set xs i x) i ≡ some x
  get-set [] i x old e = cc
  get-set (y ∷ xs) zero x old e = refl
  get-set (y ∷ xs) (suc i) x old e = get-set xs i x old e

  set-set :
      (xs : List A) (i : ℕ) (x old : A) → get_elem? xs i ≡ some old → set (set xs i x) i old ≡ xs
  set-set [] i x old e = cc
  set-set (y ∷ xs) zero x old e = ground (arith, e)
  set-set (y ∷ xs) (suc i) x old e = ap (λ l. y ∷ l) (set-set xs i x old e)

module _ {z : Libzmq} where
  -- A message that is exchanged with one of a vector, or one of a vector with one of another, where both
  -- are there, is back after the same exchange again, and nothing else has changed.
  pub swap_twice :
      (m : Message z) (msgs msgs1 : List z.Msg) (i j : ℕ) (a b : z.Msg)
      → get_elem? msgs i ≡ some a
      → get_elem? msgs1 j ≡ some b
      → ((m' : Message z) × (msgs' : List z.Msg) × (swap_msg m msgs i ≡ some (ok, m', msgs'))
          × (swap_msg m' msgs' i ≡ some (ok, m, msgs)))
        × ((ms ms1 : List z.Msg) × (swap_msg_at msgs i msgs1 j ≡ some (ok, ms, ms1))
            × (swap_msg_at ms i ms1 j ≡ some (ok, msgs, msgs1)))
  unfolding swap_msg swap_msg_at
  swap_twice m msgs msgs1 i j a b e e' = (
    (
      record m { msg = a },
      set msgs i m.msg,
      ground (arith, e),
      ground (arith, get-set msgs i m.msg a e, set-set msgs i m.msg a e),
    ),
    (
      set msgs i b,
      set msgs1 j a,
      ground (arith, e, e'),
      ground (
        arith,
        get-set msgs i b a e,
        set-set msgs i b a e,
        get-set msgs1 j a b e',
        set-set msgs1 j a b e',
      ),
    ),
  )

  -- Moved user data is what the other route held, which is left without bytes there.
  pub moved_data :
      (route r : RoutePath z) (index : ℕ) (old m : z.Msg)
      → get_elem? r.user index ≡ some old
      → get_elem? route.user index ≡ some m
      → (r' route' : RoutePath z) × (move_user_data route index r ≡ some (r', route', old ∷ []))
        × (get_user_data index r' ≡ some (ok, z.bytes m))
        × (get_user_data index route' ≡ some (ok, []))
  unfolding move_user_data get_user_data
  moved_data route r index old m e e' = (
    record r { user = set r.user index m },
    record route { user = set route.user index z.init },
    ground (arith, e, e'),
    ground (arith, get-set r.user index m old e),
    ground (arith, get-set route.user index z.init m e', z.bytes-init),
  )
