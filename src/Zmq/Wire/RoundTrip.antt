-- ===== src/Zmq/Wire/RoundTrip.antt =====
-- A routed message from Socket::Send to Socket::Recv, and which messages Recv refuses.
use zpp_adapter.Prelude.{
  ℕ, ◌≤◌, ◌<◌, ◌≡◌, ◌≢◌, refl, sym, ap, ◌∙◌, none, some, List, [], ◌∷◌, ◌++◌, map, append_assoc,
  append-nil, length, length-append, take, arith,
}
use zpp_adapter.Zsi.{ok}
use zpp_adapter.Zmq.{Libzmq, Frame}
use zpp_adapter.Zmq.Route.{RoutePath, empty_route}
use zpp_adapter.Zmq.Wire.{recv_route}
use zpp_adapter.Zmq.Wire.Frames.{flagged, parts}
use zpp_adapter.Zmq.Wire.Receiving.{View, take_part, take_parts, recv_parts}

-- No part is empty.
abbrev pub AllFull : List (List ℕ) → Type 0
AllFull [] = Unit {0}
AllFull (b ∷ bs) = (0 < length b) × AllFull bs

take_parts-append :
    (xs ys : List (List ℕ)) (v : View) → take_parts (xs ++ ys) v ≡ take_parts ys (take_parts xs v)
unfolding take_parts
take_parts-append [] ys v = refl
take_parts-append (x ∷ xs) ys v = take_parts-append xs ys (take_part x v)

src_parts :
    (xs s u d : List (List ℕ)) → AllFull xs → take_parts xs (0, s, u, d) ≡ (0, s ++ xs, u, d)
unfolding take_parts take_part
src_parts [] s u d h = ap (λ x. (0, x, u, d)) (sym (append-nil s))
src_parts (x ∷ xs) s u d h =
    ground (arith, src_parts xs (s ++ (x ∷ [])) u d h.1, append_assoc s (x ∷ []) xs)

user_parts :
    (xs s u d : List (List ℕ)) → AllFull xs → take_parts xs (1, s, u, d) ≡ (1, s, u ++ xs, d)
unfolding take_parts take_part
user_parts [] s u d h = ap (λ x. (1, s, x, d)) (sym (append-nil u))
user_parts (x ∷ xs) s u d h =
    ground (arith, user_parts xs s (u ++ (x ∷ [])) d h.1, append_assoc u (x ∷ []) xs)

dest_parts :
    (xs s u d : List (List ℕ)) → AllFull xs → take_parts xs (2, s, u, d) ≡ (2, s, u, d ++ xs)
unfolding take_parts take_part
dest_parts [] s u d h = ap (λ x. (2, s, u, x)) (sym (append-nil d))
dest_parts (x ∷ xs) s u d h =
    ground (arith, dest_parts xs s u (d ++ (x ∷ [])) h.1, append_assoc d (x ∷ []) xs)

all_parts :
    (a u d : List (List ℕ))
    → AllFull a
    → AllFull u
    → AllFull d
    → take_parts (a ++ ([] ∷ (u ++ ([] ∷ d)))) (0, [], [], []) ≡ (2, a, u, d)
unfolding take_parts take_part
all_parts a u d ha hu hd =
    take_parts-append a ([] ∷ (u ++ ([] ∷ d))) (0, [], [], [])
    ∙ ap (take_parts ([] ∷ (u ++ ([] ∷ d)))) (src_parts a [] [] [] ha)
    ∙ take_parts-append u ([] ∷ d) (1, a, [], [])
    ∙ ap (take_parts ([] ∷ d)) (user_parts u a [] [] hu)
    ∙ dest_parts d a u [] hd

module _ (z : Libzmq)
    (deliver : (flags : ℕ) (s : z.Sock) → z.pending s ≢ [] → (z.recv flags s).0 ≢ none) where
  -- A routed message none of whose parts is empty arrives as it was sent: `Recv` into a new route
  -- succeeds, with as many rounds as there are parts, and gives the first source, the user data and
  -- the addresses; the frames behind the message stay.
  pub round_trip :
      (r : RoutePath z) (fuel flags : ℕ) (s : z.Sock) (rest : List Frame)
      → AllFull (map z.bytes (take 1 r.src))
      → AllFull (map z.bytes r.user)
      → AllFull (map z.bytes r.dest)
      → z.pending s ≡ flagged (parts z r) ++ rest
      → length (parts z r) ≤ fuel
      → (r' : RoutePath z) × (s' : z.Sock) × (recv_route fuel empty_route flags s
          ≡ some (ok, r', s'))
        × (map z.bytes r'.src ≡ map z.bytes (take 1 r.src))
        × (map z.bytes r'.user ≡ map z.bytes r.user)
        × (map z.bytes r'.dest ≡ map z.bytes r.dest)
        × (z.pending s' ≡ rest)
  unfolding recv_route parts
  round_trip r fuel flags s rest ha hu hd p f =
      let a = map z.bytes (take 1 r.src) in
      let v = all_parts a (map z.bytes r.user) (map z.bytes r.dest) ha hu hd in
      let pos : 0 < length (parts z r) =
        omega (arith, length-append a ([] ∷ (map z.bytes r.user ++ ([] ∷ map z.bytes r.dest)))) in
      let (r', s', e, seen, left) =
        recv_parts z deliver (parts z r) fuel (0, empty_route) flags s rest pos p f in
      let got = seen ∙ v in
      (
        r',
        s',
        ground (arith, e, ap (λ x. x.0) v),
        ap (λ x. x.1) got,
        ap (λ x. x.2) got,
        ap (λ x. x.3) got,
        left,
      )
