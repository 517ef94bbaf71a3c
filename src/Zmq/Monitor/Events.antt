-- ===== src/Zmq/Monitor/Events.antt =====
-- MonitorEvent: the events arrive as they are sent, and what is lost where one cannot be reported.
use zpp_adapter.Prelude.{
  ℕ, ◌+◌, ◌≤◌, ◌<◌, ◌≡◌, ◌≢◌, refl, ap, sym, ◌∙◌, Str, Bool, true, false, ltb, Option, none, some,
  Option-cases, Bool-cases, ◌⊎◌, inl, inr, List, [], ◌∷◌, ◌++◌, map, length, ℤ, pos, arith,
}
use zpp_adapter.Zsi.{ok, param_invalid}
use zpp_adapter.Zmq.{Libzmq, Frame}
use zpp_adapter.Zmq.Monitor.{Report, event_of, second_frame, monitor_event, monitor_events}

-- The two frames of each event, its data and its address.
abbrev pub frames : List (Str × Str) → List Frame
frames [] = []
frames ((data', addr) ∷ es) = (data', true) ∷ ((addr, false) ∷ frames es)

-- Each has an event in it, and an address that fits with its zero byte.
abbrev pub Fit : ℕ → List (Str × Str) → Type 0
Fit room [] = Unit {0}
Fit room ((data', addr) ∷ es) = (6 ≤ length data') × (length addr < room) × Fit room es

-- With no buffer only the event is given; a buffer that has room gets the address and a zero byte, and
-- one that has not is reported.
abbrev pub Outcome : {z : Libzmq} → Option ℕ → Str → Report z → Type 0
Outcome none addr r = (r.ret ≡ ok) × (r.addr ≡ none) × (r.lost ≡ [])
Outcome (some n) addr r =
    ((length addr < n) × (r.ret ≡ ok) × (r.addr ≡ some (addr ++ (0 ∷ []))) × (r.lost ≡ []))
    ⊎ ((n ≤ length addr) × (r.ret ≡ param_invalid) × (r.addr ≡ none) × (length r.lost ≡ 1))

abbrev pub len_of : Option ℕ → ℤ
len_of none = pos 0
len_of (some n) = pos n

module _ (z : Libzmq) (native : List ℕ → ℕ)
    (delivers : (s : z.Sock) → z.pending s ≢ [] → (z.recv 0 s).0 ≢ none) where
  received :
      (s : z.Sock) (b : Str) (more : Bool) (fs : List Frame)
      → z.pending s ≡ (b, more) ∷ fs
      → (m : z.Msg) × ((z.recv 0 s).0 ≡ some m)
        × (z.bytes m ≡ b)
        × (z.more m ≡ more)
        × (z.pending (z.recv 0 s).1 ≡ fs)
  received s b more fs e = elim (Option-cases (z.recv 0 s).0) [
    | inl n ↦ absurd (delivers s (λ e'. cc) n)
    | inr (m, h) ↦
        (let law = z.pending-recv 0 m s h in
          let both : (z.bytes m, z.more m) ∷ z.pending (z.recv 0 s).1 ≡ (b, more) ∷ fs =
            sym law ∙ e in
          (m, h, cc, cc, cc))
  ]

  second_lem :
      (room : Option ℕ) (event : ℕ × ℕ) (m : z.Msg) (addr : Str)
      → z.bytes m ≡ addr
      → (r : Report z) × (second_frame z native room (len_of room) event m ≡ some r)
        × (r.event ≡ some event)
        × Outcome room addr r
  unfolding second_frame
  second_lem none event m addr e = (
    record { ret = ok; event = some event; addr = none; lost = [] },
    refl,
    refl,
    (refl, refl, refl),
  )
  second_lem (some n) event m addr e = elim (Bool-cases (ltb n (length addr + 1))) [
    | inl t ↦ (
      record { ret = param_invalid; event = some event; addr = none; lost = m ∷ [] },
      ground (arith, e, t),
      refl,
      inr (ground (arith, t), refl, refl, refl),
    )
    | inr t ↦ (
      record { ret = ok; event = some event; addr = some (addr ++ (0 ∷ [])); lost = [] },
      ground (arith, e, t),
      refl,
      inl (ground (arith, t), refl, refl, refl),
    )
  ]

  -- An event whose two frames wait, with a buffer of as many bytes as `len` says, or none: the event
  -- is given whatever becomes of the address, both frames are taken, and where the address does not fit
  -- the call reports it and never closes the message.
  pub monitor_event_lem :
      (data' addr : Str) (room : Option ℕ) (rest : List Frame) (s : z.Sock)
      → 6 ≤ length data'
      → z.pending s ≡ (data', true) ∷ ((addr, false) ∷ rest)
      → (r : Report z) × (s' : z.Sock) × (monitor_event z native room (len_of room) s
          ≡ some (r, s'))
        × (z.pending s' ≡ rest)
        × (r.event ≡ some (event_of native data'))
        × Outcome room addr r
  unfolding monitor_event
  monitor_event_lem data' addr room rest s long e =
      let (m, h, b, more, e1) = received s data' true ((addr, false) ∷ rest) e in
      let s1 = (z.recv 0 s).1 in
      let (m2, h2, b2, _, e2) = received s1 addr false rest e1 in
      let (r, run, event, outcome) = second_lem room (event_of native (z.bytes m)) m2 addr b2 in
      (
        r,
        (z.recv 0 s1).1,
        ground (arith, h, h2, more, b, long, run),
        e2,
        event ∙ ap (λ b. some (event_of native b)) b,
        outcome,
      )

  -- Events that wait one behind the other, each with its two frames, are read in the order in which they
  -- were sent, each with its own address, and what waits behind them is left.
  pub monitor_events_lem :
      (es : List (Str × Str)) (room : ℕ) (rest : List Frame) (s : z.Sock)
      → Fit room es
      → z.pending s ≡ frames es ++ rest
      → (s' : z.Sock) × (monitor_events z native (length es) room s
          ≡ some (map (λ e. (some (event_of native e.0), some (e.1 ++ (0 ∷ [])))) es, s'))
        × (z.pending s' ≡ rest)
  unfolding monitor_events
  monitor_events_lem [] room rest s fit e = (s, refl, e)
  monitor_events_lem ((data', addr) ∷ es) room rest s (long, short, fit) e =
      let (r, s1, run, e1, event, outcome) =
        monitor_event_lem data' addr (some room) (frames es ++ rest) s long e in
      let (s', runs, e') = monitor_events_lem es room rest s1 fit e1 in
      elim outcome [
        | inl (_, good, text, _) ↦ (s', ground (arith, run, runs, good, text, event), e')
        | inr (over, _, _, _) ↦ absurd (omega (arith, over, short))
      ]
