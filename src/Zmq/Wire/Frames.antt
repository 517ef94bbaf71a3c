-- ===== src/Zmq/Wire/Frames.antt =====
-- The frames of a message, and calls that send a part of them.
use zpp_adapter.Prelude.{
  ℕ, ◌≡◌, ◌≢◌, refl, sym, ap, subst, take, ◌∙◌, ◌⊎◌, inl, inr, Bool, Bool-cases, true, false,
  Option-cases, List, [], ◌∷◌, ◌++◌, map, append_assoc, append-nil,
}
use zpp_adapter.Zmq.{Libzmq, Frame}
use zpp_adapter.Zmq.Stack.{unsnoc}
use zpp_adapter.Zmq.Stack.Last.{unsnoc-none, unsnoc-some}
use zpp_adapter.Zmq.Route.{RoutePath}
use zpp_adapter.Zmq.Wire.{and_then, send_more, send_dest, send_src}

-- The frames of one message: all but the last say that more follow.
unfoldable pub flagged : List (List ℕ) → List Frame
flagged [] = []
flagged (b ∷ []) = (b, false) ∷ []
flagged (b ∷ c ∷ bs) = (b, true) ∷ flagged (c ∷ bs)

-- The parts of a routed message: the first source, an empty part, the user data, an empty part, and
-- the addresses.
unfoldable pub parts : (z : Libzmq) → RoutePath z → List (List ℕ)
parts z r = map z.bytes (take 1 r.src) ++ ([] ∷ (map z.bytes r.user ++ ([] ∷ map z.bytes r.dest)))

cons≢nil : {A : Type 0} {x : A} {xs : List A} → x ∷ xs ≢ []
cons≢nil e = cc

longer : {A : Type 0} (q gs : List A) → q ≢ [] → q ++ gs ≢ []
longer [] gs ne = absurd (ne refl)
longer (x ∷ q) gs ne = cons≢nil

module _ (z : Libzmq) where
  abbrev pub more_frames : List z.Msg → List Frame
  more_frames [] = []
  more_frames (m ∷ ms) = (z.bytes m, true) ∷ more_frames ms

  -- All of `fs` went out, or a call failed after the part `p` of it.
  abbrev pub Sends : Bool × z.Sock → z.Sock → List Frame → Type 0
  Sends x s fs =
      ((x.0 ≡ true) × (z.sent x.1 ≡ z.sent s ++ fs))
      ⊎ ((x.0 ≡ false)
          × ((p : List Frame) × (q : List Frame) × (fs ≡ p ++ q)
              × (q ≢ [])
              × (z.sent x.1 ≡ z.sent s ++ p)))

  send_one :
      (m : z.Msg) (flags : ℕ) (sndmore : Bool) (s : z.Sock)
      → Sends (z.send m flags sndmore s) s ((z.bytes m, sndmore) ∷ [])
  send_one m flags sndmore s = elim (Bool-cases (z.send m flags sndmore s).0) [
    | inl e ↦ inl (e, z.sent-send m flags sndmore s e)
    | inr e ↦ inr (
      e,
      (
        [],
        (z.bytes m, sndmore) ∷ [],
        refl,
        cons≢nil,
        z.sent_failed m flags sndmore s e ∙ sym (append-nil (z.sent s)),
      ),
    )
  ]

  send_empty :
      (flags : ℕ) (sndmore : Bool) (s : z.Sock)
      → Sends (z.send z.init flags sndmore s) s (([], sndmore) ∷ [])
  send_empty flags sndmore s =
      subst (λ b. Sends (z.send z.init flags sndmore s) s ((b, sndmore) ∷ [])) z.bytes-init
        (send_one z.init flags sndmore s)

  chain :
      (x : Bool × z.Sock) (k : z.Sock → Bool × z.Sock) (s : z.Sock) (fs gs : List Frame)
      → Sends x s fs
      → ((s' : z.Sock) → Sends (k s') s' gs)
      → Sends (and_then x k) s (fs ++ gs)
  chain (true, s') k s fs gs (inl (_, e)) rest = elim (rest s') [
    | inl (b, e') ↦ inl (b, e' ∙ ap (λ o. o ++ gs) e ∙ append_assoc (z.sent s) fs gs)
    | inr (b, (p, q, split, ne, e')) ↦ inr (
      b,
      (
        fs ++ p,
        q,
        ap (λ g. fs ++ g) split ∙ sym (append_assoc fs p q),
        ne,
        e' ∙ ap (λ o. o ++ p) e ∙ append_assoc (z.sent s) fs p,
      ),
    )
  ]
  chain (false, s') k s fs gs (inl (b, _)) rest = cc
  chain (true, s') k s fs gs (inr (b, _)) rest = cc
  chain (false, s') k s fs gs (inr (_, (p, q, e, ne, out))) rest =
      inr (refl, (p, q ++ gs, ap (λ f. f ++ gs) e ∙ append_assoc p q gs, longer q gs ne, out))

  send_more_lem :
      (flags : ℕ) (ms : List z.Msg) (s : z.Sock) → Sends (send_more z flags ms s) s (more_frames ms)
  unfolding send_more
  send_more_lem flags [] s = inl (refl, sym (append-nil (z.sent s)))
  send_more_lem flags (m ∷ ms) s =
      chain (z.send m flags true s) (send_more z flags ms) s ((z.bytes m, true) ∷ [])
        (more_frames ms) (send_one m flags true s) (send_more_lem flags ms)

  flagged_before :
      (b : List ℕ) (f : List z.Msg) (l : z.Msg)
      → flagged (b ∷ map z.bytes (f ++ (l ∷ [])))
        ≡ (b, true) ∷ flagged (map z.bytes (f ++ (l ∷ [])))
  unfolding flagged
  flagged_before b [] l = refl
  flagged_before b (m ∷ f) l = refl

  flagged_snoc :
      (f : List z.Msg) (l : z.Msg)
      → flagged (map z.bytes (f ++ (l ∷ []))) ≡ more_frames f ++ ((z.bytes l, false) ∷ [])
  unfolding flagged
  flagged_snoc [] l = refl
  flagged_snoc (m ∷ f) l =
      flagged_before (z.bytes m) f l ∙ ap (λ r. (z.bytes m, true) ∷ r) (flagged_snoc f l)

  flagged_after :
      (ms : List z.Msg) (b : List ℕ) (bs : List (List ℕ))
      → flagged (map z.bytes ms ++ (b ∷ bs)) ≡ more_frames ms ++ flagged (b ∷ bs)
  unfolding flagged
  flagged_after [] b bs = refl
  flagged_after (m ∷ []) b bs = refl
  flagged_after (m ∷ n ∷ ms) b bs = ap (λ r. (z.bytes m, true) ∷ r) (flagged_after (n ∷ ms) b bs)

  pub send_last_lem :
      (flags : ℕ) (f : List z.Msg) (l : z.Msg) (s : z.Sock)
      → Sends
          (and_then (send_more z flags f s) (z.send l flags false))
          s
          (flagged (map z.bytes (f ++ (l ∷ []))))
  send_last_lem flags f l s = rw (flagged_snoc f l) (
      chain (send_more z flags f s) (z.send l flags false) s (more_frames f)
        ((z.bytes l, false) ∷ []) (send_more_lem flags f s) (send_one l flags false))

  send_dest_lem :
      (flags : ℕ) (dest : List z.Msg) (s : z.Sock)
      → Sends (send_dest z flags dest s) s (flagged ([] ∷ map z.bytes dest))
  unfolding send_dest flagged
  send_dest_lem flags dest s = elim (Option-cases (unsnoc dest)) [
    | inl e ↦ rw (send_dest, e, unsnoc-none dest e) (send_empty flags false s)
    | inr (p, e) ↦
        let open_frames =
          chain (z.send z.init flags true s) (send_more z flags p.0) s (([], true) ∷ [])
            (more_frames p.0) (send_empty flags true s) (send_more_lem flags p.0) in
        let all =
          chain (and_then (z.send z.init flags true s) (send_more z flags p.0))
            (z.send p.1 flags false) s (([], true) ∷ more_frames p.0) ((z.bytes p.1, false) ∷ [])
            open_frames (send_one p.1 flags false) in
        let frames : ([], true) ∷ (more_frames p.0 ++ ((z.bytes p.1, false) ∷ []))
            ≡ flagged ([] ∷ map z.bytes dest) =
          ap (λ r. ([], true) ∷ r) (sym (flagged_snoc p.0 p.1))
          ∙ sym (flagged_before [] p.0 p.1)
          ∙ ap (λ d. flagged ([] ∷ map z.bytes d)) (sym (unsnoc-some dest p.0 p.1 e)) in
        rw (send_dest, e) (subst (Sends _ s) frames all)
  ]

  send_src_lem :
      (flags : ℕ) (src : List z.Msg) (s : z.Sock)
      → Sends (send_src z flags src s) s (more_frames (take 1 src))
  unfolding send_src
  send_src_lem flags [] s = inl (refl, sym (append-nil (z.sent s)))
  send_src_lem flags (m ∷ src) s = send_one m flags true s

  flagged_sep :
      (ms : List z.Msg) (b : List ℕ) (bs : List (List ℕ))
      → flagged ([] ∷ (map z.bytes ms ++ (b ∷ bs)))
        ≡ ([], true) ∷ flagged (map z.bytes ms ++ (b ∷ bs))
  unfolding flagged
  flagged_sep [] b bs = refl
  flagged_sep (m ∷ ms) b bs = refl

  route_frames :
      (r : RoutePath z)
      → ((more_frames (take 1 r.src) ++ (([], true) ∷ [])) ++ more_frames r.user)
          ++ flagged ([] ∷ map z.bytes r.dest)
        ≡ flagged (parts z r)
  unfolding parts
  route_frames r =
      let h = more_frames (take 1 r.src) in
      let u = more_frames r.user in
      let d = map z.bytes r.dest in
      ap (λ x. x ++ flagged ([] ∷ d)) (append_assoc h (([], true) ∷ []) u)
      ∙ append_assoc h (([], true) ∷ u) (flagged ([] ∷ d))
      ∙ ap (λ x. h ++ (([], true) ∷ x)) (sym (flagged_after r.user [] d))
      ∙ ap (λ x. h ++ x) (sym (flagged_sep r.user [] d))
      ∙ sym (flagged_after (take 1 r.src) [] (map z.bytes r.user ++ ([] ∷ d)))

  pub send_all :
      (r : RoutePath z) (flags : ℕ) (s : z.Sock)
      → Sends
          (and_then
            (and_then
              (and_then (send_src z flags r.src s) (z.send z.init flags true))
              (send_more z flags r.user))
            (send_dest z flags r.dest))
          s
          (flagged (parts z r))
  send_all r flags s = subst (Sends _ s) (route_frames r) (
      chain _ _ s _ _
        (chain _ _ s _ _ (chain _ _ s _ _ (send_src_lem flags r.src s) (send_empty flags true))
          (send_more_lem flags r.user))
        (send_dest_lem flags r.dest))
