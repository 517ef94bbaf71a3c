-- ===== src/PoolRing/Tests.antt =====
-- MsgPoolRing at concrete inputs.
use zpp_adapter.Prelude.{ℕ, ◌*◌, ◌^◌, ◌≤◌, ◌<◌, ◌≡◌, some, List, [], ◌∷◌, arith}
use zpp_adapter.PoolRing.{Ring, fresh, init}
use zpp_adapter.PoolRing.Spare.{IsValid, spares}
use zpp_adapter.PoolRing.Calls.{
  Call, allocs, frees, run, run_spare, run_refines, fresh-IsValid, init_lem,
}

abbrev calls : List (Call ℕ)
calls = allocs (some 1) ∷ frees 1 ∷ frees 2 ∷ allocs (some 3) ∷ []

abbrev four : Ring ℕ
four = fresh (2 ^ 2)

run_refines_example : run four calls ≡ run_spare four.capacity (spares four) calls
run_refines_example = run_refines calls (fresh-IsValid 2 (omega arith))

init_lem_example :
    (r : Ring ℕ) × (init 5 ≡ some r)
    × IsValid r
    × (spares r ≡ [])
    × (5 < r.capacity)
    × (r.capacity ≤ 2 * 5)
init_lem_example = init_lem 5 (omega arith) (omega arith)
