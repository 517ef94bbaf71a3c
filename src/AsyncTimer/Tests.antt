-- ===== src/AsyncTimer/Tests.antt =====
-- AsyncTimer at concrete inputs.
use zpp_adapter.Prelude.{ℕ, ◌≡◌, refl, [], ◌∷◌}
use zpp_adapter.Zsi.{ok}
use zpp_adapter.Std.Order.{nat_order, pair_order}
use zpp_adapter.Std.Set.{IsSorted}
use zpp_adapter.AsyncTimer.{Timers, timer}
use zpp_adapter.AsyncTimer.Due.{due, pending, timer_exact}

-- Key 1 at time 10, and key 2 at time 20.
abbrev two : Timers ℕ
two = (10, 1) ∷ (20, 2) ∷ []

two-IsSorted : IsSorted (pair_order nat_order) two
two-IsSorted = ((refl, tt), (tt, tt))

timer_exact_example :
    (timer 15 two ≡ (ok, due 15 two, pending 15 two))
    × IsSorted (pair_order nat_order) (pending 15 two)
timer_exact_example = timer_exact nat_order 15 two two-IsSorted
