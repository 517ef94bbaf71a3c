-- ===== src/AsyncTimer.antt =====
-- zpp/base/timer.hpp, class AsyncTimer: keys with their deadlines in a `std::set`, ordered by the
-- deadline and then by the key. Each call runs under the spin lock, so calls are atomic; the clock
-- (`ztimestamp_ms`) is an argument.
pub mod Due
pub mod Acks
mod Tests
use zpp_adapter.Prelude.{ℕ, ◌+◌, Bool, true, false, leb, if◌then◌else◌, List, [], ◌∷◌}
use zpp_adapter.Zsi.{Err, ok, not_exist}
use zpp_adapter.Std.Order.{KeyOrder, pair_order}
use zpp_adapter.Std.Set.{insert}

-- `ts_set`, a set of `ptk_t`.
abbrev pub Timers : Type 0 → Type 0
Timers K = List (ℕ × K)

module _ {K : Type 0} (o : KeyOrder K) where
  pub push : K → ℕ → ℕ → Timers K → Err × Timers K
  push key timeout_ms now s = (ok, insert (pair_order o) (now + timeout_ms, key) s)

  -- The loop of `Pop`: it stops at the first entry of the key and erases it.
  pub pop : K → Timers K → Err × Timers K
  pop key [] = (not_exist, [])
  pop key ((d, k) ∷ s) =
      let (ret, rest) = pop key s in if o.eq k key then (ok, s) else (ret, (d, k) ∷ rest)

-- The loop of `Timer`: the keys handed to `fn_timeout`, in order, and the entries that stay. It
-- stops at the first entry that is not due.
pub expire : {K : Type 0} → ℕ → Timers K → List K × Timers K
expire now [] = ([], [])
expire now ((d, k) ∷ s) =
    let (fired, rest) = expire now s in if leb d now then (k ∷ fired, rest) else ([], (d, k) ∷ s)

pub timer : {K : Type 0} → ℕ → Timers K → Err × List K × Timers K
unfolding expire
timer now s = let (fired, rest) = expire now s in (ok, fired, rest)
