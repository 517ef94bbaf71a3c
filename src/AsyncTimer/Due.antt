-- ===== src/AsyncTimer/Due.antt =====
-- AsyncTimer::Timer: which keys time out.
use zpp_adapter.Prelude.{ℕ, ◌<◌, ◌≡◌, refl, leb, if◌then◌else◌, List, [], ◌∷◌, arith}
use zpp_adapter.Zsi.{ok}
use zpp_adapter.Std.Order.{KeyOrder, pair_order}
use zpp_adapter.Std.Set.{Above, IsSorted}
use zpp_adapter.AsyncTimer.{Timers, expire, timer}

module _ {K : Type 0} where
  -- The keys whose deadline has come, wherever they stand.
  pub due : ℕ → Timers K → List K
  due now [] = []
  due now ((d, k) ∷ s) = let rest = due now s in if leb d now then k ∷ rest else rest

  -- The entries whose deadline is still to come.
  pub pending : ℕ → Timers K → Timers K
  pending now [] = []
  pending now ((d, k) ∷ s) = let rest = pending now s in if leb d now then rest else (d, k) ∷ rest

module _ {K : Type 0} (o : KeyOrder K) where
  -- Behind an entry that is not due none is.
  none_due :
      (now d : ℕ) (k : K) (s : Timers K)
      → now < d
      → Above (pair_order o) (d, k) s
      → (due now s ≡ []) × (pending now s ≡ s)
  unfolding due pending
  none_due now d k [] h u = (refl, refl)
  none_due now d k ((e, j) ∷ s) h u = ground (arith, none_due now d k s h u.1)

  Above-pending :
      (now : ℕ) (a : ℕ × K) (s : Timers K)
      → Above (pair_order o) a s
      → Above (pair_order o) a (pending now s)
  unfolding pending
  Above-pending now a [] u = tt
  Above-pending now a ((d, k) ∷ s) u = ground (arith, Above-pending now a s u.1)

  pub pending-IsSorted :
      (now : ℕ) (s : Timers K) → IsSorted (pair_order o) s → IsSorted (pair_order o) (pending now s)
  unfolding pending
  pending-IsSorted now [] h = tt
  pending-IsSorted now ((d, k) ∷ s) h =
      ground (arith, pending-IsSorted now s h.1, Above-pending now (d, k) s h.0)

  expire_exact :
      (now : ℕ) (s : Timers K)
      → IsSorted (pair_order o) s
      → expire now s ≡ (due now s, pending now s)
  unfolding expire due pending
  expire_exact now [] h = refl
  expire_exact now ((d, k) ∷ s) h = ground (arith, expire_exact now s h.1, none_due now d k s)

  -- `Timer` hands over exactly the keys that are due, by deadline, although it stops at the first
  -- entry that is not, and keeps exactly the others.
  pub timer_exact :
      (now : ℕ) (s : Timers K)
      → IsSorted (pair_order o) s
      → (timer now s ≡ (ok, due now s, pending now s)) × IsSorted (pair_order o) (pending now s)
  unfolding timer
  timer_exact now s h = (ground (arith, expire_exact now s h), pending-IsSorted now s h)
