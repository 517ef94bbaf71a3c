-- ===== src/Std/Set.antt =====
-- `std::set` as the list of its elements in order: `insert`.
use zpp_adapter.Prelude.{◌≡◌, true, if◌then◌else◌, List, [], ◌∷◌, arith}
use zpp_adapter.Std.Order.{KeyOrder}

module _ {K : Type 0} (o : KeyOrder K) where
  -- An element that is there already is not inserted again.
  unfoldable pub insert : K → List K → List K
  insert k [] = k ∷ []
  insert k (j ∷ s) = if o.lt j k then j ∷ insert k s else if o.lt k j then k ∷ j ∷ s else j ∷ s

  abbrev pub Above : K → List K → Type 0
  Above k [] = Unit {0}
  Above k (j ∷ s) = (o.lt k j ≡ true) × Above k s

  abbrev pub IsSorted : List K → Type 0
  IsSorted [] = Unit {0}
  IsSorted (j ∷ s) = Above j s × IsSorted s

  pub Above-trans : (a b : K) (s : List K) → o.lt a b ≡ true → Above b s → Above a s
  Above-trans a b [] h u = tt
  Above-trans a b (j ∷ s) h u = (o.trans a b j h u.0, Above-trans a b s h u.1)

  Above-insert : (a k : K) (s : List K) → o.lt a k ≡ true → Above a s → Above a (insert k s)
  unfolding insert
  Above-insert a k [] h u = (h, tt)
  Above-insert a k (j ∷ s) h u = ground (arith, Above-insert a k s h u.1)

  pub insert-IsSorted : (k : K) (s : List K) → IsSorted s → IsSorted (insert k s)
  unfolding insert
  insert-IsSorted k [] h = (tt, tt)
  insert-IsSorted k (j ∷ s) h =
      ground (arith, insert-IsSorted k s h.1, Above-insert j k s, Above-trans k j s)
