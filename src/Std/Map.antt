-- ===== src/Std/Map.antt =====
-- `std::map` as the list of its nodes in key order: `find`, `operator[]` with an assignment, `erase`.
use zpp_adapter.Prelude.{◌≡◌, refl, true, if◌then◌else◌, Option, none, some, List, [], ◌∷◌, arith}
use zpp_adapter.Std.Order.{KeyOrder}

abbrev pub Map : Type 0 → Type 0 → Type 0
Map K V = List (K × V)

module _ {K V : Type 0} (o : KeyOrder K) where
  -- `it = t.find(k)`; `none` is `t.end()`.
  unfoldable pub find : K → Map K V → Option V
  find k [] = none
  find k ((j, v) ∷ m) = if o.eq j k then some v else find k m

  -- `t[k] = v`.
  unfoldable pub assign : K → V → Map K V → Map K V
  assign k v [] = (k, v) ∷ []
  assign k v ((j, w) ∷ m) =
      if o.lt j k
      then (j, w) ∷ assign k v m
      else if o.eq j k
      then (k, v) ∷ m
      else (k, v) ∷ (j, w) ∷ m

  unfoldable pub erase : K → Map K V → Map K V
  erase k [] = []
  erase k ((j, w) ∷ m) = if o.eq j k then m else (j, w) ∷ erase k m

  -- Every key of the map lies above `k`.
  abbrev pub Above : K → Map K V → Type 0
  Above k [] = Unit {0}
  Above k ((j, w) ∷ m) = (o.lt k j ≡ true) × Above k m

  -- The keys rise strictly, so each occurs once.
  abbrev pub IsSorted : Map K V → Type 0
  IsSorted [] = Unit {0}
  IsSorted ((j, w) ∷ m) = Above j m × IsSorted m

  pub find-assign :
      (i k : K) (v : V) (m : Map K V)
      → find i (assign k v m) ≡ (if o.eq k i then some v else find i m)
  unfolding find assign
  find-assign i k v [] = refl
  find-assign i k v ((j, w) ∷ m) =
      ground (arith, find-assign i k v m, o.eq_iff j k, o.eq_iff j i, o.eq_iff k i, o.irrefl k)

  pub Above-trans : (a b : K) (m : Map K V) → o.lt a b ≡ true → Above b m → Above a m
  Above-trans a b [] h u = tt
  Above-trans a b ((j, w) ∷ m) h u = (o.trans a b j h u.0, Above-trans a b m h u.1)

  pub find-Above : (a : K) (m : Map K V) → Above a m → find a m ≡ none
  unfolding find
  find-Above a [] u = refl
  find-Above a ((j, w) ∷ m) u = ground (arith, o.eq_iff j a, o.irrefl a, find-Above a m u.1)

  Above-assign :
      (a k : K) (v : V) (m : Map K V) → o.lt a k ≡ true → Above a m → Above a (assign k v m)
  unfolding assign
  Above-assign a k v [] h u = (h, tt)
  Above-assign a k v ((j, w) ∷ m) h u = ground (arith, Above-assign a k v m h u.1)

  pub assign-IsSorted : (k : K) (v : V) (m : Map K V) → IsSorted m → IsSorted (assign k v m)
  unfolding assign
  assign-IsSorted k v [] s = (tt, tt)
  assign-IsSorted k v ((j, w) ∷ m) s = ground (
    arith,
    assign-IsSorted k v m s.1,
    Above-assign j k v m,
    o.eq_iff j k,
    o.connex j k,
    Above-trans k j m,
  )

  Above-erase : (a k : K) (m : Map K V) → Above a m → Above a (erase k m)
  unfolding erase
  Above-erase a k [] u = tt
  Above-erase a k ((j, w) ∷ m) u = ground (arith, Above-erase a k m u.1)

  pub erase-IsSorted : (k : K) (m : Map K V) → IsSorted m → IsSorted (erase k m)
  unfolding erase
  erase-IsSorted k [] s = tt
  erase-IsSorted k ((j, w) ∷ m) s = ground (arith, erase-IsSorted k m s.1, Above-erase j k m s.0)

  pub find-erase :
      (i k : K) (m : Map K V)
      → IsSorted m
      → find i (erase k m) ≡ (if o.eq k i then none else find i m)
  unfolding find erase
  find-erase i k [] s = ground arith
  find-erase i k ((j, w) ∷ m) s =
      ground
        (arith, find-erase i k m s.1, find-Above j m s.0, o.eq_iff j k, o.eq_iff j i, o.eq_iff k i)

  -- A new key goes in and out without a trace.
  pub erase-assign : (k : K) (v : V) (m : Map K V) → find k m ≡ none → erase k (assign k v m) ≡ m
  unfolding find assign erase
  erase-assign k v [] h = ground (arith, o.eq_iff k k)
  erase-assign k v ((j, w) ∷ m) h = ground (arith, erase-assign k v m, o.eq_iff k k, o.eq_iff j k)
