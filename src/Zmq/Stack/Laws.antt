-- ===== src/Zmq/Stack/Laws.antt =====
-- The operations of MsgStack: what a push puts on the stack, what a pop takes off it, and which
-- messages are closed.
use zpp_adapter.Prelude.{
  ℕ, ◌/◌, ◌≡◌, ◌≢◌, refl, sym, ap, ap₂, ◌∙◌, ◌⊎◌, inl, inr, Bool, true, false, ◌==◌, if◌then◌else◌,
  Option, none, some, Option-cases, List, [], ◌∷◌, ◌++◌, map, reverse, append_assoc, append-nil,
  length, take, arith,
}
use zpp_adapter.Zsi.{Err, ok}
use zpp_adapter.Zmq.{Libzmq, copied, filled}
use zpp_adapter.Zmq.Stack.Last.{unsnoc-snoc}
use zpp_adapter.Zmq.Stack.{
  MsgStack, unsnoc, made, push_data, push_stack, copy_all, replace_back, pop, set_close, set_online,
  is_online, fini,
}

module _ (z : Libzmq) where
  filled_bytes : (b : List ℕ) (m : z.Msg) → filled z b ≡ some m → z.bytes m ≡ b
  filled_bytes b m h = elim (Option-cases (z.init_size (length b))) [
    | inl e ↦ ground (arith, e)
    | inr (r, e) ↦ ground (arith, e, z.bytes-write b r (z.bytes-init_size (length b) r e))
  ]

  copy_all_lem : (xs ms : List z.Msg) → copy_all z xs ms ≡ xs ++ map (copied z) ms
  unfolding copy_all
  copy_all_lem xs [] = sym (append-nil xs)
  copy_all_lem xs (m ∷ ms) =
      copy_all_lem (xs ++ (copied z m ∷ [])) ms
      ∙ append_assoc xs (copied z m ∷ []) (map (copied z) ms)

  map-copied :
      ((m : z.Msg) → z.copy m ≢ none)
      → (xs ms : List z.Msg)
      → map z.bytes (xs ++ map (copied z) ms) ≡ map z.bytes xs ++ map z.bytes ms
  map-copied can (x ∷ xs) ms = ap (λ r. z.bytes x ∷ r) (map-copied can xs ms)
  map-copied can [] [] = refl
  map-copied can [] (m ∷ ms) = ap₂ (λ a b. a ∷ b) same (map-copied can [] ms)
    where
      same : z.bytes (copied z m) ≡ z.bytes m
      same = elim (Option-cases (z.copy m)) [
        | inl e ↦ absurd (can m e)
        | inr (c, e) ↦ ground (arith, e, z.bytes-copy m c e)
      ]

  pub copy_all_bytes :
      ((m : z.Msg) → z.copy m ≢ none)
      → (xs ms : List z.Msg) → map z.bytes (copy_all z xs ms) ≡ map z.bytes xs ++ map z.bytes ms
  copy_all_bytes can xs ms = ap (map z.bytes) (copy_all_lem xs ms) ∙ map-copied can xs ms

  -- What the message carries that `Push` makes: the first `len` bytes of `data`; `len` unset bytes
  -- where `data` is NULL.
  abbrev pub Carries : Option (List ℕ) → ℕ → z.Msg → Type 0
  Carries (some b) len m = z.bytes m ≡ take len b
  Carries none len m = length (z.bytes m) ≡ len

  made_lem :
      (buf : Option (List ℕ)) (len : ℕ) (fn : Bool)
      → ((m : z.Msg) × (made z buf len fn ≡ (ok, some m)) × Carries buf len m)
        ⊎ (((made z buf len fn).0 ≢ ok) × ((made z buf len fn).1 ≡ none))
  unfolding made
  made_lem (some b) len true = elim (Option-cases (z.init_data (take len b))) [
    | inl e ↦ inr (ground (arith, e))
    | inr (m, e) ↦ inl (m, ground (arith, e), z.bytes-init_data (take len b) m e)
  ]
  made_lem (some b) len false = elim (Option-cases (filled z (take len b))) [
    | inl e ↦ inr (ground (arith, e))
    | inr (m, e) ↦ inl (m, ground (arith, e), filled_bytes (take len b) m e)
  ]
  made_lem none len true = inr (ground arith)
  made_lem none len false =
      let r = if len == 0 then some z.init else z.init_size len in
      elim (Option-cases r) [
        | inl e ↦ inr (ground (arith, e))
        | inr (m, e) ↦ inl (
          m,
          ground (arith, e),
          ground (arith, e, ap length z.bytes-init, z.bytes-init_size len m),
        )
      ]

module _ {z : Libzmq} where
  -- `Push(data, len, fn, hint)` and then `Pop`: where the push succeeds the pop succeeds, its message
  -- carries what was pushed, and the stack is as before; where the push fails the stack is unchanged.
  pub pop-push_data :
      (buf : Option (List ℕ)) (len : ℕ) (fn : Bool) (s : MsgStack z)
      → let (ret, t) = push_data buf len fn s in
        ((ret ≡ ok) × ((m : z.Msg) × (pop t ≡ (ok, some m, s)) × Carries z buf len m))
        ⊎ ((ret ≢ ok) × (t ≡ s))
  unfolding push_data pop
  pop-push_data buf len fn s = elim (made_lem z buf len fn) [
    | inl (m, e, c) ↦ inl (ground (arith, e), (m, ground (arith, e, unsnoc-snoc s.msgs m), c))
    | inr (e, n) ↦ inr (ground (arith, e, n))
  ]

  -- `ReplaceBack` on a stack with a last message: where it succeeds, the new message carries what was
  -- given, the others stay, and exactly the old last one is closed; where it fails nothing changes
  -- and nothing is closed.
  pub replace_back_lem :
      (buf : Option (List ℕ)) (len : ℕ) (fn : Bool) (s : MsgStack z) (front : List z.Msg)
      (last : z.Msg)
      → s.msgs ≡ front ++ (last ∷ [])
      → ((m : z.Msg) × (replace_back buf len fn s
            ≡ some (ok, record s { msgs = front ++ (m ∷ []) }, last ∷ []))
          × Carries z buf len m)
        ⊎ ((ret : Err) × (ret ≢ ok) × (replace_back buf len fn s ≡ some (ret, s, [])))
  unfolding replace_back
  replace_back_lem buf len fn s front last h =
      let split = ap unsnoc h ∙ unsnoc-snoc front last in
      elim (made_lem z buf len fn) [
        | inl (m, e, c) ↦ inl (m, ground (arith, e, split), c)
        | inr (e, n) ↦ inr ((made z buf len fn).0, e, ground (arith, n))
      ]

  -- `Push(MsgStack &)` puts copies of the other stack's messages behind, in order; where libzmq can
  -- copy every message of it they carry the same bytes.
  pub push_stack_bytes :
      (t s : MsgStack z)
      → ((m : z.Msg) → z.copy m ≢ none)
      → ((push_stack t s).0 ≡ ok)
        × (map z.bytes (push_stack t s).1.msgs ≡ map z.bytes s.msgs ++ map z.bytes t.msgs)
  unfolding push_stack
  push_stack_bytes t s can = (refl, copy_all_bytes z can s.msgs t.msgs)

  -- The status bits are independent: each setter fixes its own bit and leaves the other and the higher
  -- ones; and the destructor closes every message, unless `SetClose(false)` was the last word.
  pub status_bits :
      (need online : Bool) (s : MsgStack z)
      → (is_online (set_online online (set_close need s)) ≡ online)
        × (is_online (set_close need s) ≡ is_online s)
        × (fini (set_online online (set_close need s)) ≡ (if need then reverse s.msgs else []))
        × ((set_online online (set_close need s)).status / 4 ≡ s.status / 4)
        × (fini (set_online online s) ≡ fini s)
  unfolding is_online set_online set_close fini
  status_bits true true s = ground arith
  status_bits true false s = ground arith
  status_bits false true s = ground arith
  status_bits false false s = ground arith
