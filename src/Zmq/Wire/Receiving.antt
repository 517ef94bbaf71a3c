-- ===== src/Zmq/Wire/Receiving.antt =====
-- Socket::Recv of a routed message: what the loop makes of the frames of one message.
use zpp_adapter.Prelude.{
  ℕ, zero, suc, ◌+◌, ◌≤◌, ◌<◌, ◌≡◌, ◌≢◌, refl, sym, ap, ◌∙◌, inl, inr, Bool, true, false, ltb, ◌==◌,
  ◌&&◌, not, if◌then◌else◌, none, some, Option-cases, List, [], ◌∷◌, ◌++◌, map, append_assoc,
  length, arith,
}
use zpp_adapter.Zsi.{ok, not_support}
use zpp_adapter.Zmq.{Libzmq, Frame}
use zpp_adapter.Zmq.Route.{RoutePath}
use zpp_adapter.Zmq.Stack.{MsgStack, push_ref}
use zpp_adapter.Zmq.Wire.{absorb, recv_loop, recv_stack}
use zpp_adapter.Zmq.Wire.Frames.{flagged}

-- The stage of the loop and the bytes in the three vectors.
abbrev pub View : Type 0
View = ℕ × List (List ℕ) × List (List ℕ) × List (List ℕ)

abbrev pub put_bytes : ℕ → List ℕ → View → View
put_bytes zero b (n, s, u, d) = (n, s ++ (b ∷ []), u, d)
put_bytes (suc zero) b (n, s, u, d) = (n, s, u ++ (b ∷ []), d)
put_bytes (suc (suc i)) b (n, s, u, d) = (n, s, u, d ++ (b ∷ []))

-- An empty part, and any part after the third stage, begins the next stage.
unfoldable pub take_part : List ℕ → View → View
take_part b v =
    if ltb v.0 3 && not (length b == 0) then put_bytes v.0 b v else (v.0 + 1, v.1, v.2, v.3)

unfoldable pub take_parts : List (List ℕ) → View → View
take_parts [] v = v
take_parts (b ∷ bs) v = take_parts bs (take_part b v)

map_snoc :
    {A B : Type 0} (f : A → B) (xs : List A) (m : A)
    → map f (xs ++ (m ∷ [])) ≡ map f xs ++ (f m ∷ [])
map_snoc f [] m = refl
map_snoc f (x ∷ xs) m = ap (λ r. f x ∷ r) (map_snoc f xs m)

module _ {z : Libzmq} where
  abbrev pub view : ℕ × RoutePath z → View
  view (n, r) = (n, map z.bytes r.src, map z.bytes r.user, map z.bytes r.dest)

  view-absorb :
      (m : z.Msg) (n : ℕ) (r : RoutePath z)
      → view (absorb m (n, r)) ≡ take_part (z.bytes m) (view (n, r))
  unfolding absorb take_part
  view-absorb m zero r = ground (arith, map_snoc z.bytes r.src m)
  view-absorb m (suc zero) r = ground (arith, map_snoc z.bytes r.user m)
  view-absorb m (suc (suc n)) r = ground (arith, map_snoc z.bytes r.dest m)

-- `deliver`: a socket that has frames to receive gives one.
module _ (z : Libzmq)
    (deliver : (flags : ℕ) (s : z.Sock) → z.pending s ≢ [] → (z.recv flags s).0 ≢ none) where
  received :
      (flags : ℕ) (s : z.Sock) (b : List ℕ) (more : Bool) (rest : List Frame)
      → z.pending s ≡ (b, more) ∷ rest
      → (m : z.Msg) × ((z.recv flags s).0 ≡ some m)
        × (z.bytes m ≡ b)
        × (z.more m ≡ more)
        × (z.pending (z.recv flags s).1 ≡ rest)
  received flags s b more rest p = elim (Option-cases (z.recv flags s).0) [
    | inl e ↦ absurd (deliver flags s (λ none_there. cc) e)
    | inr (m, e) ↦ let split = z.pending-recv flags m s e in (m, e, cc, cc, cc)
  ]

  recv_loop_lem :
      (bs : List (List ℕ)) (b : List ℕ) (fuel : ℕ) (st : ℕ × RoutePath z) (flags : ℕ) (s : z.Sock)
      (rest : List Frame)
      → z.pending s ≡ flagged (b ∷ bs) ++ rest
      → length bs < fuel
      → let v = take_parts (b ∷ bs) (view st) in
        (r' : RoutePath z) × (s' : z.Sock) × (recv_loop fuel st flags s
          ≡ some (if v.0 == 2 then ok else not_support, r', s'))
        × (view (v.0, r') ≡ v)
        × (z.pending s' ≡ rest)
  unfolding recv_loop flagged take_parts
  recv_loop_lem bs b zero st flags s rest p f = absurd (omega arith)
  recv_loop_lem [] b (suc fuel) st flags s rest p f =
      let (m, got, same, more, left) = received flags s b false rest p in
      let seen : view (absorb m st) ≡ take_part b (view st) =
        view-absorb m st.0 st.1 ∙ ap (λ x. take_part x (view st)) same in
      let stage : (absorb m st).0 ≡ (take_part b (view st)).0 = ap (λ v. v.0) seen in
      (
        (absorb m st).1,
        (z.recv flags s).1,
        ground (arith, got, more, stage),
        ap (λ n. view (n, (absorb m st).1)) (sym stage) ∙ seen,
        left,
      )
  recv_loop_lem (c ∷ bs) b (suc fuel) st flags s rest p f =
      let (m, got, same, more, left) = received flags s b true (flagged (c ∷ bs) ++ rest) p in
      let seen : view (absorb m st) ≡ take_part b (view st) =
        view-absorb m st.0 st.1 ∙ ap (λ x. take_part x (view st)) same in
      let (r', s', e, v, out) =
        recv_loop_lem bs c fuel (absorb m st) flags (z.recv flags s).1 rest left (omega arith) in
      let goes_on = ap (take_parts (c ∷ bs)) seen in
      (
        r',
        s',
        ground (arith, got, more, e, goes_on),
        ap (λ v. view (v.0, r')) (sym goes_on) ∙ v ∙ goes_on,
        out,
      )

  -- The same for a list of parts that is given otherwise.
  pub recv_parts :
      (ps : List (List ℕ)) (fuel : ℕ) (st : ℕ × RoutePath z) (flags : ℕ) (s : z.Sock)
      (rest : List Frame)
      → 0 < length ps
      → z.pending s ≡ flagged ps ++ rest
      → length ps ≤ fuel
      → let v = take_parts ps (view st) in
        (r' : RoutePath z) × (s' : z.Sock) × (recv_loop fuel st flags s
          ≡ some (if v.0 == 2 then ok else not_support, r', s'))
        × (view (v.0, r') ≡ v)
        × (z.pending s' ≡ rest)
  recv_parts [] fuel st flags s rest pos p f = absurd (omega arith)
  recv_parts (b ∷ bs) fuel st flags s rest pos p f =
      recv_loop_lem bs b fuel st flags s rest p (omega arith)

  stack_loop :
      (bs : List (List ℕ)) (b : List ℕ) (fuel : ℕ) (ms : MsgStack z) (flags : ℕ) (s : z.Sock)
      (rest : List Frame)
      → z.pending s ≡ flagged (b ∷ bs) ++ rest
      → length bs < fuel
      → (ms' : MsgStack z) × (s' : z.Sock) × (recv_stack fuel ms flags s ≡ some (ok, ms', s'))
        × (map z.bytes ms'.msgs ≡ map z.bytes ms.msgs ++ (b ∷ bs))
        × (z.pending s' ≡ rest)
  unfolding recv_stack flagged push_ref
  stack_loop bs b zero ms flags s rest p f = absurd (omega arith)
  stack_loop [] b (suc fuel) ms flags s rest p f =
      let (m, got, same, more, left) = received flags s b false rest p in
      (
        (push_ref m ms).1,
        (z.recv flags s).1,
        ground (arith, got, more),
        map_snoc z.bytes ms.msgs m ∙ ap (λ c. map z.bytes ms.msgs ++ (c ∷ [])) same,
        left,
      )
  stack_loop (c ∷ bs) b (suc fuel) ms flags s rest p f =
      let (m, got, same, more, left) = received flags s b true (flagged (c ∷ bs) ++ rest) p in
      let (ms', s', e, v, out) =
        stack_loop bs c fuel (push_ref m ms).1 flags (z.recv flags s).1 rest left (omega arith) in
      (
        ms',
        s',
        ground (arith, got, more, e),
        v
            ∙ ap (λ x. x ++ (c ∷ bs))
                (map_snoc z.bytes ms.msgs m ∙ ap (λ c. map z.bytes ms.msgs ++ (c ∷ [])) same)
            ∙ append_assoc (map z.bytes ms.msgs) (b ∷ []) (c ∷ bs),
        out,
      )

  -- `Recv(MsgStack &)` takes exactly the frames of one message, with as many rounds as it has, and
  -- puts them behind what the stack holds.
  pub recv_stack_lem :
      (ps : List (List ℕ)) (fuel : ℕ) (ms : MsgStack z) (flags : ℕ) (s : z.Sock) (rest : List Frame)
      → 0 < length ps
      → z.pending s ≡ flagged ps ++ rest
      → length ps ≤ fuel
      → (ms' : MsgStack z) × (s' : z.Sock) × (recv_stack fuel ms flags s ≡ some (ok, ms', s'))
        × (map z.bytes ms'.msgs ≡ map z.bytes ms.msgs ++ ps)
        × (z.pending s' ≡ rest)
  recv_stack_lem [] fuel ms flags s rest pos p f = absurd (omega arith)
  recv_stack_lem (b ∷ bs) fuel ms flags s rest pos p f =
      stack_loop bs b fuel ms flags s rest p (omega arith)
