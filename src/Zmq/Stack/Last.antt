-- ===== src/Zmq/Stack/Last.antt =====
-- The last element of a vector, as the pops of MsgStack and RoutePath take it.
use zpp_adapter.Prelude.{◌≡◌, refl, inl, inr, none, some, Option-cases, List, [], ◌∷◌, ◌++◌, arith}
use zpp_adapter.Zmq.Stack.{unsnoc}

pub unsnoc-snoc : {A : Type 0} (xs : List A) (x : A) → unsnoc (xs ++ (x ∷ [])) ≡ some (xs, x)
unfolding unsnoc
unsnoc-snoc [] x = refl
unsnoc-snoc (y ∷ xs) x = ground (arith, unsnoc-snoc xs x)

module _ {A : Type 0} where
  pub unsnoc-none : (ms : List A) → unsnoc ms ≡ none → ms ≡ []
  unfolding unsnoc
  unsnoc-none [] h = refl
  unsnoc-none (m ∷ ms) h = ground (arith, h)

  pub unsnoc-some : (ms f : List A) (l : A) → unsnoc ms ≡ some (f, l) → ms ≡ f ++ (l ∷ [])
  unfolding unsnoc
  unsnoc-some [] f l h = cc
  unsnoc-some (m ∷ ms) f l h = elim (Option-cases (unsnoc ms)) [
    | inl e ↦ ground (arith, h, e, unsnoc-none ms e)
    | inr (p, e) ↦ ground (arith, h, e, unsnoc-some ms p.0 p.1 e)
  ]
