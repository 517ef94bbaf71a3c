-- ===== src/Zmq/Route/Hops/Journey.antt =====
-- A message on its way through routers, and the way back.
use mathlib.Core.List.{Perm, reverse_perm}
use mathlib.Core.List.Perm
use zpp_adapter.Prelude.{
  length-take, take_more, take-drop, take_all, get_at, set_at, ℕ, zero, suc, ◌+◌, ◌-◌, ◌≤◌, ◌<◌,
  ◌≡◌, refl, sym, ap, ap₂, subst, ◌∙◌, true, Option, none, some, List, [], ◌∷◌, ◌++◌, reverse,
  append_assoc, append-nil, length, get_elem?, set, take, drop, length-append, arith,
}
use zpp_adapter.Zsi.{Err, ok, eof}
use zpp_adapter.Zmq.{Libzmq}
use zpp_adapter.Zmq.Stack.{rotate_loop}
use zpp_adapter.Zmq.Stack.Rotate.{rotate_segment}
use zpp_adapter.Zmq.Route.{RoutePath}
use zpp_adapter.Zmq.Route.Hops.{rotate_route, calc_route, is_last_hop}

module _ {A : Type 0} where
  no_addresses : (d : List A) → length d ≡ 0 → d ≡ reverse d
  no_addresses [] h = refl
  no_addresses (x ∷ d) h = absurd (omega arith)

module _ {z : Libzmq} where
  -- `RotateRoute` after `hops` hops: the first `hops` addresses are turned round, the next one, if
  -- any, stays behind them, and the others are closed.
  pub rotate_route_lem :
      (hops : ℕ) (r : RoutePath z)
      → 0 < hops
      → hops ≤ length r.dest
      → rotate_route hops r ≡ (
        ok,
        record r { dest = reverse (take hops r.dest) ++ take 1 (drop hops r.dest) },
        reverse (drop (hops + 1) r.dest),
      )
  unfolding rotate_route
  rotate_route_lem zero r pos h = absurd (omega arith)
  rotate_route_lem (suc n) r pos h =
      let e : suc n + 1 ≡ suc (suc n) = omega arith in
      let loop : List z.Msg → List z.Msg = rotate_loop (suc n) 0 (suc n - 1) in
      let len = length-take (suc n) r.dest h in
      let turned =
        ap (λ k. loop (take k r.dest)) e
        ∙ ap loop (take_more (suc n) r.dest)
        ∙ rotate_segment (suc n) [] (take (suc n) r.dest) (take 1 (drop (suc n) r.dest)) 0
            (suc n - 1) refl (omega (arith, len)) (omega (arith, len)) in
      ap (λ d. (ok, record r { dest = d }, reverse (drop (suc n + 1) r.dest))) turned

  -- `RotateRoute` after at most as many hops as there are addresses keeps or closes every address,
  -- once.
  pub rotate_route_keeps :
      (hops : ℕ) (r : RoutePath z)
      → hops ≤ length r.dest
      → let (_, r', closed) = rotate_route hops r in Perm (r'.dest ++ closed) r.dest
  unfolding rotate_route
  rotate_route_keeps zero r h = rw (append-nil r.dest) (Perm.refl _)
  rotate_route_keeps (suc n) r h =
      let e : suc n + 1 ≡ suc (suc n) = omega arith in
      let a = take (suc n) r.dest in
      let b = take 1 (drop (suc n) r.dest) in
      let c = drop (suc n + 1) r.dest in
      let whole : (a ++ b) ++ c ≡ r.dest =
        ap (λ x. x ++ c) (sym (take_more (suc n) r.dest))
        ∙ ap (λ k. take k r.dest ++ c) (sym e)
        ∙ take-drop (suc n + 1) r.dest in
      let p : Perm ((reverse a ++ b) ++ reverse c) ((a ++ b) ++ c) =
        Perm.append (Perm.append (reverse_perm a) (Perm.refl b)) (reverse_perm c) in
      subst (λ (x : Err × RoutePath z × List z.Msg). Perm (x.1.dest ++ x.2) r.dest)
        (sym (rotate_route_lem (suc n) r (omega arith) h))
        (subst (Perm ((reverse a ++ b) ++ reverse c)) whole p)

  -- A router receives the message from `s`, so `msgs[0]` is `s`, calls `CalcRoute`, and sends the
  -- message to the `msgs[0][0]` it then has. The results are where the message went, the count of
  -- hops, and the message.
  unfoldable pub travel : List z.Msg → ℕ → RoutePath z → Option (List z.Msg × ℕ × RoutePath z)
  travel [] hops r = some ([], hops, r)
  travel (s ∷ ss) hops r = elim (calc_route hops (record r { src = s ∷ [] })) [
    | none ↦ none
    | some (ok, h, r') ↦ elim (get_elem? r'.src 0) [
      | none ↦ none
      | some next ↦ elim (travel ss h r') [
        | none ↦ none
        | some (nexts, h', r'') ↦ some (next ∷ nexts, h', r'')
      ]
    ]
    | some _ ↦ none
  ]

  hop :
      (n : ℕ) (done : List z.Msg) (b : z.Msg) (todo : List z.Msg) (s : z.Msg) (r : RoutePath z)
      → n ≡ length done
      → r.dest ≡ done ++ (b ∷ todo)
      → length r.dest ≤ 255
      → calc_route n (record r { src = s ∷ [] })
        ≡ some (ok, n + 1, record r { src = b ∷ []; dest = done ++ (s ∷ todo) })
  unfolding calc_route
  hop n done b todo s r e h small =
      let there : get_elem? r.dest n ≡ some b =
        subst (λ d. get_elem? d n ≡ some b) (sym h) (get_at done b todo n e) in
      let put : set r.dest n s ≡ done ++ (s ∷ todo) =
        ap (λ d. set d n s) h ∙ set_at done b todo s n e in
      ground (arith, there, put, ap length h, length-append done (b ∷ todo))

  travel_from :
      (ss : List z.Msg) (n : ℕ) (done todo : List z.Msg) (r : RoutePath z)
      → n ≡ length done
      → r.dest ≡ done ++ todo
      → length ss ≡ length todo
      → length r.dest ≤ 255
      → (r' : RoutePath z) × (travel ss n r ≡ some (todo, length r.dest, r'))
        × (r'.dest ≡ done ++ ss)
        × (r'.user ≡ r.user)
  unfolding travel
  travel_from [] n done [] r e h len small =
      (r, ap (λ k. some ([], k, r)) (omega (arith, ap length h, length-append done [])), h, refl)
  travel_from [] n done (b ∷ todo) r e h len small = absurd (omega arith)
  travel_from (s ∷ ss) n done [] r e h len small = absurd (omega arith)
  travel_from (s ∷ ss) n done (b ∷ todo) r e h len small =
      let r1 : RoutePath z = record r { src = b ∷ []; dest = done ++ (s ∷ todo) } in
      let one = length-append done (s ∷ []) in
      let same : length r1.dest ≡ length r.dest =
        omega (arith, ap length h, length-append done (b ∷ todo), length-append done (s ∷ todo)) in
      let (r', t, d, u) =
        travel_from ss (n + 1) (done ++ (s ∷ [])) todo r1 (omega (arith, one))
          (sym (append_assoc done (s ∷ []) todo)) (omega arith) (omega (arith, same)) in
      (
        r',
        ground (arith, hop n done b todo s r e h small, t, same),
        d ∙ append_assoc done (s ∷ []) ss,
        u,
      )

  at_end : (n : ℕ) (r : RoutePath z) → length r.dest ≡ n → calc_route n r ≡ some (eof, n, r)
  unfolding calc_route
  at_end n r h = ground (arith, h)

  last_hop : (n : ℕ) (r : RoutePath z) → length r.dest ≡ n → is_last_hop n r ≡ true
  unfolding is_last_hop
  last_hop n r h = ground (arith, h)

  turned :
      (n : ℕ) (r : RoutePath z)
      → length r.dest ≡ n
      → rotate_route n r ≡ (ok, record r { dest = reverse r.dest }, [])
  unfolding rotate_route
  turned zero r h = ap (λ d. (ok, record r { dest = d }, [])) (no_addresses r.dest h)
  turned (suc n) r h =
      let (t, d) = take_all (suc n) r.dest (omega arith) in
      let (_, d1) = take_all (suc n + 1) r.dest (omega arith) in
      rotate_route_lem (suc n) r (omega arith) (omega arith)
      ∙ ap₂
          (λ (a b : List z.Msg).
            (ok, record r { dest = reverse a ++ take 1 b }, reverse (drop (suc n + 1) r.dest)))
          t d
      ∙ ap₂ (λ (a b : List z.Msg). (ok, record r { dest = a }, reverse b))
          (append-nil (reverse r.dest)) d1

  -- A message with at most 255 addresses that passes as many routers visits the addresses in order
  -- and keeps its user data. It then carries the senders it was received from, `CalcRoute` reports
  -- the end, `IsLastHop` holds, and `RotateRoute` turns the senders round, so the answer goes back
  -- the way the message came; it closes nothing.
  pub travel_back :
      (ss : List z.Msg) (r : RoutePath z)
      → length ss ≡ length r.dest
      → length ss ≤ 255
      → let n = length r.dest in
        (r' : RoutePath z) × (travel ss 0 r ≡ some (r.dest, n, r'))
        × (r'.dest ≡ ss)
        × (r'.user ≡ r.user)
        × (calc_route n r' ≡ some (eof, n, r'))
        × (is_last_hop n r' ≡ true)
        × (rotate_route n r' ≡ (ok, record r' { dest = reverse ss }, []))
  travel_back ss r len small =
      let (r', t, d, u) = travel_from ss 0 [] r.dest r refl refl len (omega arith) in
      let n = length r.dest in
      let full : length r'.dest ≡ n = ap length d ∙ len in
      (
        r',
        t,
        d,
        u,
        at_end n r' full,
        last_hop n r' full,
        turned n r' full ∙ ap (λ x. (ok, record r' { dest = reverse x }, [])) d,
      )
