-- ===== src/SyncTimer/Tests.antt =====
-- SyncTimer at concrete inputs.
use zpp_adapter.Prelude.{ℕ, ◌≡◌, refl, none, some, []}
use zpp_adapter.Zsi.{ok}
use zpp_adapter.Zsi.Counting.{counting}
use zpp_adapter.Std.Order.{nat_order}
use zpp_adapter.Std.Map.{find}
use zpp_adapter.SyncTimer.{SyncTimer, push, wait, pop}
use zpp_adapter.SyncTimer.Answers.{answered}

abbrev idle : SyncTimer counting ℕ ℕ
idle = record { sem_map = []; outs = λ a. record { sem = 0; value = none } }

answered_example :
    let (pushed, t1) = push nat_order 1 100 idle in
    let (popped, t2) = pop nat_order 1 7 t1 in
    let (waited, t3) = wait nat_order 1 100 50 t2 in
    (pushed ≡ ok)
    × (popped ≡ ok)
    × (waited ≡ ok)
    × ((t3.outs 100).value ≡ some 7)
    × (t3.sem_map ≡ idle.sem_map)
unfolding find
answered_example = answered nat_order 1 100 7 50 idle refl
