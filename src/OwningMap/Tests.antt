-- ===== src/OwningMap/Tests.antt =====
-- The map helpers at concrete inputs.
use mathlib.Core.List.{Perm}
use zpp_adapter.Prelude.{ℕ, ◌≡◌, refl, List, [], ◌∷◌, ◌++◌}
use zpp_adapter.Std.Order.{nat_order}
use zpp_adapter.Std.Map.{Map, IsSorted, find, assign, erase}
use zpp_adapter.OwningMap.{Call, inserts, dels, run, map_insert_del_old, map_del}
use zpp_adapter.OwningMap.Ownership.{all, inserted, run_keeps}

abbrev calls : List (Call ℕ ℕ)
calls = inserts 1 10 ∷ inserts 2 20 ∷ inserts 1 11 ∷ dels 2 ∷ dels 3 ∷ []

run_works : run nat_order [] [] calls ≡ ((1, 11) ∷ [], 20 ∷ 10 ∷ [])
unfolding run map_insert_del_old map_del find assign erase
run_works = refl

run_keeps_example :
    let (t', gone') = run nat_order [] [] calls in
    IsSorted nat_order t'
    × Perm (all nat_order gone' t') (inserted nat_order calls ++ all nat_order [] [])
run_keeps_example = run_keeps nat_order calls [] [] tt

abbrev one : Map ℕ ℕ
one = (1, 10) ∷ []
