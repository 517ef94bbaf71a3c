-- ===== src/Zmq/Stack/Rotate.antt =====
-- MsgStack::Rotate, and the loop that it shares with RoutePath::RotateRoute: the vector turned round.
use mathlib.Core.List.{reverse-append, reverse-cons}
use zpp_adapter.Prelude.{
  get_at, set_at, ℕ, zero, suc, ◌+◌, ◌-◌, ◌≤◌, ◌<◌, ◌≡◌, refl, sym, ap, subst, ◌∙◌, ltb, ◌⊎◌, inl,
  inr, some, List, [], ◌∷◌, ◌++◌, reverse, append_assoc, append-nil, length, get_elem?, set,
  length-append, false, arith,
}
use zpp_adapter.Zmq.{Libzmq}
use zpp_adapter.Zmq.Stack.{MsgStack, swap, rotate_loop, rotate}

module _ {A : Type 0} where
  -- The exchange of two elements with the list `m` between them.
  pub swap_ends :
      (p : List A) (a : A) (m : List A) (b : A) (q : List A) (i j : ℕ)
      → i ≡ length p
      → j ≡ length p + 1 + length m
      → swap i j (p ++ (a ∷ (m ++ (b ∷ q)))) ≡ p ++ (b ∷ (m ++ (a ∷ q)))
  unfolding swap
  swap_ends p a m b q i j hi hj =
      let far : j ≡ length (p ++ (b ∷ m)) = omega (arith, length-append p (b ∷ m)) in
      let near_b : get_elem? (p ++ (a ∷ (m ++ (b ∷ q)))) j ≡ some b =
        subst (λ xs. get_elem? xs j ≡ some b) (append_assoc p (a ∷ m) (b ∷ q))
          (get_at (p ++ (a ∷ m)) b q j (omega (arith, length-append p (a ∷ m)))) in
      let put_a : set (p ++ (b ∷ (m ++ (b ∷ q)))) j a ≡ p ++ (b ∷ (m ++ (a ∷ q))) =
        ap (λ xs. set xs j a) (sym (append_assoc p (b ∷ m) (b ∷ q)))
        ∙ set_at (p ++ (b ∷ m)) b q a j far
        ∙ append_assoc p (b ∷ m) (a ∷ q) in
      rw (swap, get_at p a (m ++ (b ∷ q)) i hi, near_b, set_at p a (m ++ (b ∷ q)) b i hi) put_a

  last_view : (m : List A) → (m ≡ []) ⊎ ((n : List A) × (b : A) × (m ≡ n ++ (b ∷ [])))
  last_view [] = inl refl
  last_view (a ∷ m) = elim (last_view m) [
    | inl e ↦ inr ([], a, ap (λ r. a ∷ r) e)
    | inr (n, b, e) ↦ inr (a ∷ n, b, ap (λ r. a ∷ r) e)
  ]

  -- An empty list, one element, or both ends.
  ends :
      (m : List A)
      → (m ≡ [])
        ⊎ ((a : A) × (m ≡ a ∷ []))
        ⊎ ((a : A) × (n : List A) × (b : A) × (m ≡ a ∷ (n ++ (b ∷ []))))
  ends [] = inl refl
  ends (a ∷ m) = elim (last_view m) [
    | inl e ↦ inr (inl (a, ap (λ r. a ∷ r) e))
    | inr (n, b, e) ↦ inr (inr (a, n, b, ap (λ r. a ∷ r) e))
  ]

  stop : (fuel i j : ℕ) (xs : List A) → ltb i j ≡ false → rotate_loop fuel i j xs ≡ xs
  unfolding rotate_loop
  stop zero i j xs h = refl
  stop (suc fuel) i j xs h = ground (arith, h)

  step :
      (fuel i j : ℕ) (xs : List A)
      → i < j
      → rotate_loop (suc fuel) i j xs ≡ rotate_loop fuel (i + 1) (j - 1) (swap i j xs)
  unfolding rotate_loop
  step fuel i j xs h = ground arith

  reverse_ends :
      (a : A) (n : List A) (b : A) → reverse (a ∷ (n ++ (b ∷ []))) ≡ b ∷ (reverse n ++ (a ∷ []))
  reverse_ends a n b =
      reverse-cons a (n ++ (b ∷ [])) ∙ ap (λ r. r ++ (a ∷ [])) (reverse-append n (b ∷ []))

  inner :
      (fuel : ℕ) (p : List A) (a : A) (n : List A) (b : A) (q : List A) (i j : ℕ)
      → i ≡ length p
      → j ≡ length p + 1 + length n
      → rotate_loop fuel (i + 1) (j - 1) ((p ++ (b ∷ [])) ++ (n ++ (a ∷ q)))
        ≡ (p ++ (b ∷ [])) ++ (reverse n ++ (a ∷ q))
      → rotate_loop (suc fuel) i j (p ++ ((a ∷ (n ++ (b ∷ []))) ++ q))
        ≡ p ++ (reverse (a ∷ (n ++ (b ∷ []))) ++ q)
  inner fuel p a n b q i j hi hj ih =
      let rest = rotate_loop fuel (i + 1) (j - 1) in
      step fuel i j _ (omega arith)
      ∙ ap (λ xs. rest (swap i j (p ++ (a ∷ xs)))) (append_assoc n (b ∷ []) q)
      ∙ ap rest (swap_ends p a n b q i j hi hj)
      ∙ ap rest (sym (append_assoc p (b ∷ []) (n ++ (a ∷ q))))
      ∙ ih
      ∙ append_assoc p (b ∷ []) (reverse n ++ (a ∷ q))
      ∙ ap (λ r. p ++ (b ∷ r)) (sym (append_assoc (reverse n) (a ∷ []) q))
      ∙ ap (λ r. p ++ (r ++ q)) (sym (reverse_ends a n b))

  -- The loop from `i` to `j` turns round what lies between, both ends included.
  pub rotate_segment :
      (fuel : ℕ) (p m q : List A) (i j : ℕ)
      → i ≡ length p
      → j + 1 ≡ length p + length m
      → length m ≤ fuel
      → rotate_loop fuel i j (p ++ (m ++ q)) ≡ p ++ (reverse m ++ q)
  unfolding rotate_loop
  rotate_segment zero p [] q i j hi hj hf = refl
  rotate_segment zero p (x ∷ m) q i j hi hj hf = absurd (omega arith)
  rotate_segment (suc fuel) p m q i j hi hj hf = elim (ends m) [
    | inl e ↦ rw e (stop (suc fuel) i j (p ++ q) (ground (arith, ap length e)))
    | inr (inl (a, e)) ↦ rw e (stop (suc fuel) i j (p ++ (a ∷ q)) (ground (arith, ap length e)))
    | inr (inr (a, n, b, e)) ↦
        let len : length m ≡ suc (length n + 1) = ap length e ∙ ap suc (length-append n (b ∷ [])) in
        let first = length-append p (b ∷ []) in
        rw e (
          inner fuel p a n b q i j hi (omega arith) (
            rotate_segment fuel (p ++ (b ∷ [])) n (a ∷ q) (i + 1) (j - 1) (omega (arith, first))
              (omega (arith, first)) (omega arith)))
  ]

-- `Rotate` reverses the vector, whatever its length.
pub rotate_lem : {z : Libzmq} (s : MsgStack z) → rotate s ≡ record s { msgs = reverse s.msgs }
unfolding rotate rotate_loop
rotate_lem s = ap (λ r. record s { msgs = r }) (turned s.msgs)
  where
    turned : {A : Type 0} (xs : List A) → rotate_loop (length xs) 0 (length xs - 1) xs ≡ reverse xs
    turned [] = refl
    turned (x ∷ xs) =
        let whole = append-nil (x ∷ xs) in
        ap (rotate_loop (length (x ∷ xs)) 0 (length (x ∷ xs) - 1)) (sym whole)
        ∙ rotate_segment (length (x ∷ xs)) [] (x ∷ xs) [] 0 (length (x ∷ xs) - 1) refl (omega arith)
            (omega arith)
        ∙ append-nil (reverse (x ∷ xs))
