-- ===== src/Zmq/Route/Laws.antt =====
-- RoutePath: bounds, copies, and which messages are closed.
use mathlib.Core.List.{Perm, reverse_perm, perm_append_comm}
use mathlib.Core.List.Perm
use native.Mathlib.Decide.{dec_lt}
use zpp_adapter.Prelude.{
  get_some, get_none, drop_get, Bool-cases, leb, subst, ◌⊎◌, inl, inr, ℕ, zero, suc, ◌+◌, ◌-◌, ◌≤◌,
  ◌≡◌, ◌≢◌, ◌↔◌, refl, sym, ap, ◌∙◌, Bool, true, false, ltb, ◌==◌, ◌&&◌, if◌then◌else◌, none, some,
  List, [], ◌∷◌, ◌++◌, map, reverse, append_assoc, append-nil, length, take, drop, ℤ, pos, negsuc,
  arith,
}
use zpp_adapter.Zsi.{ok, param_invalid}
use zpp_adapter.Zmq.{Libzmq, copied}
use zpp_adapter.Zmq.Stack.{MsgStack, push_ref}
use zpp_adapter.Zmq.Stack.Laws.{copy_all_bytes}
use zpp_adapter.Zmq.Route.{
  RoutePath, vector, get_msg, close_msg, empty_route, copy, copy_range, copy_to_stack,
}

module _ {A : Type 0} where
  merge :
      (c k s cs ks ss : List A)
      → Perm (c ++ k) s
      → Perm (cs ++ ks) ss
      → Perm ((c ++ cs) ++ (k ++ ks)) (s ++ ss)
  merge c k s cs ks ss p q =
      let middle : Perm (cs ++ (k ++ ks)) (k ++ (cs ++ ks)) =
        subst (λ x. Perm x (k ++ (cs ++ ks))) (append_assoc cs k ks)
          (subst (Perm ((cs ++ k) ++ ks)) (append_assoc k cs ks)
            (Perm.append_right ks (perm_append_comm cs k))) in
      let apart : Perm (c ++ (cs ++ (k ++ ks))) ((c ++ k) ++ (cs ++ ks)) =
        subst (Perm (c ++ (cs ++ (k ++ ks)))) (sym (append_assoc c k (cs ++ ks)))
          (Perm.append_left c middle) in
      Perm.trans
        (subst (λ x. Perm x ((c ++ k) ++ (cs ++ ks))) (sym (append_assoc c cs (k ++ ks))) apart)
        (Perm.append p q)

  abbrev gone : Bool → List A → List A
  gone b xs = if b then reverse xs else []

  abbrev left : Bool → List A → List A
  left b xs = if b then [] else xs

  one_vector : (b : Bool) (xs : List A) → Perm (gone b xs ++ left b xs) xs
  one_vector true xs = rw (append-nil (reverse xs)) (reverse_perm xs)
  one_vector false xs = Perm.refl xs

module _ {z : Libzmq} where
  -- The indices of a message that is there.
  pub in_range : ℤ → ℤ → RoutePath z → Bool
  in_range (pos v) (pos i) r = leb v 2 && ltb i (length (vector v r))
  in_range _ _ r = false

  -- `GetMsg` succeeds exactly for two pointers that are not NULL, a vector 0, 1 or 2 and an index in
  -- it, and reports a wrong parameter otherwise; it gives bytes and their number exactly where it
  -- succeeds.
  pub get_msg_lem :
      (i0 i1 : ℤ) (has_data has_len : Bool) (r : RoutePath z)
      → let good = has_data && (has_len && in_range i0 i1 r) in
        let (ret, out) = get_msg i0 i1 has_data has_len r in
        (ret ≡ (if good then ok else param_invalid)) × ((out ≢ none) ↔ (good ≡ true))
  unfolding get_msg in_range
  get_msg_lem (negsuc n) i1 has_data has_len r = ground arith
  get_msg_lem (pos v) (negsuc n) has_data has_len r = ground arith
  get_msg_lem (pos v) (pos i) has_data has_len r = elim (dec_lt i (length (vector v r))) [
    | yes inside ↦ let (m, e) = get_some (vector v r) i inside in ground (arith, e, inside)
    | no outside ↦ let e = get_none (vector v r) i (omega arith) in ground (arith, e)
  ]

  -- `CloseMsg` with `need_close`: every message is closed or still there, once. Without it all three
  -- vectors are emptied, and nothing is closed.
  pub close_msg_lem :
      (src msg dest : Bool) (r : RoutePath z)
      → let (ret, r', closed) = close_msg src msg dest r in
        (ret ≡ ok)
        × (((r.need_close ≡ true)
              × Perm (closed ++ (r'.src ++ (r'.user ++ r'.dest))) (r.src ++ (r.user ++ r.dest)))
            ⊎ ((r.need_close ≡ false)
                × (closed ≡ [])
                × (r' ≡ record empty_route { need_close = false; flag = r.flag })))
  unfolding close_msg
  close_msg_lem src msg dest r = elim (Bool-cases r.need_close) [
    | inl e ↦
        let kept =
          merge (gone src r.src) (left src r.src) r.src (gone msg r.user ++ gone dest r.dest)
            (left msg r.user ++ left dest r.dest) (r.user ++ r.dest) (one_vector src r.src)
            (merge (gone msg r.user) (left msg r.user) r.user (gone dest r.dest) (left dest r.dest)
              r.dest (one_vector msg r.user) (one_vector dest r.dest)) in
        ground (arith, e, kept)
    | inr e ↦ ground (arith, e)
  ]

  copy_range_lem :
      (n i : ℕ) (ms : List z.Msg) (s : MsgStack z)
      → i + n ≤ length ms
      → copy_range n i ms s
        ≡ some (record s { msgs = s.msgs ++ map (copied z) (take n (drop i ms)) })
  unfolding copy_range push_ref
  copy_range_lem zero i ms s h = ap (λ m. some (record s { msgs = m })) (sym (append-nil s.msgs))
  copy_range_lem (suc n) i ms s h =
      let (m, e) = get_some ms i (omega arith) in
      let tail : drop (i + 1) ms ≡ drop (suc i) ms =
        let next : i + 1 ≡ suc i = omega arith in ap (λ k. drop k ms) next in
      let ih = copy_range_lem n (i + 1) ms (push_ref (copied z m) s).1 (omega arith) in
      let front : s.msgs ++ map (copied z) (take (suc n) (drop i ms))
          ≡ (s.msgs ++ (copied z m ∷ [])) ++ map (copied z) (take n (drop (i + 1) ms)) =
        ap (λ d. s.msgs ++ map (copied z) (take (suc n) d))
          (drop_get ms i m e ∙ ap (λ d. m ∷ d) (sym tail))
        ∙ sym (append_assoc s.msgs (copied z m ∷ []) _) in
      ground (arith, e, ih, front)

  -- `Copy(MsgStack &, index, begin, end)` inside the vector appends copies of the messages from
  -- `begin` up to `end`, where 0 for `end` is the vector's size.
  pub copy_to_stack_lem :
      (s : MsgStack z) (index begin_pos end_pos : ℕ) (r : RoutePath z)
      → let ms = vector index r in
        let last = if end_pos == 0 then length ms else end_pos in
        begin_pos ≤ last
        → last ≤ length ms
        → copy_to_stack s index begin_pos end_pos r
          ≡ some (
            ok,
            record s {
              msgs = s.msgs ++ map (copied z) (take (last - begin_pos) (drop begin_pos ms));
            },
          )
  unfolding copy_to_stack
  copy_to_stack_lem s index begin_pos end_pos r lo hi =
      let last = if end_pos == 0 then length (vector index r) else end_pos in
      let all = copy_range_lem (last - begin_pos) begin_pos (vector index r) s (omega arith) in
      ground (arith, all)

  -- A copied route carries the same bytes in each vector, behind what was there.
  pub copy_bytes :
      (from r : RoutePath z)
      → ((m : z.Msg) → z.copy m ≢ none)
      → let (ret, r') = copy from r in
        (ret ≡ ok)
        × (map z.bytes r'.src ≡ map z.bytes r.src ++ map z.bytes from.src)
        × (map z.bytes r'.user ≡ map z.bytes r.user ++ map z.bytes from.user)
        × (map z.bytes r'.dest ≡ map z.bytes r.dest ++ map z.bytes from.dest)
  unfolding copy
  copy_bytes from r can = (
    refl,
    copy_all_bytes z can r.src from.src,
    copy_all_bytes z can r.user from.user,
    copy_all_bytes z can r.dest from.dest,
  )
