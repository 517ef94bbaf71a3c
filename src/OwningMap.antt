-- ===== src/OwningMap.antt =====
-- zpp/base/map.hpp: helpers for a `std::map` whose values are owned pointers. What a helper deletes
-- comes back beside the map.
pub mod Ownership
mod Tests
use zpp_adapter.Prelude.{Bool, true, false, Option, none, some, List, [], ◌∷◌, ◌++◌, map}
use zpp_adapter.Zsi.{Err, ok, not_exist}
use zpp_adapter.Std.Order.{KeyOrder}
use zpp_adapter.Std.Map.{Map, find, assign, erase}

module _ {K P : Type 0} (o : KeyOrder K) where
  -- The flag, and what is then in `v`.
  unfoldable pub map_find : Map K P → K → P → Bool × P
  map_find t k v = elim (find o k t) [ none ↦ (false, v) | some w ↦ (true, w) ]

  pub map_insert_del_old : Map K P → K → P → Err × Map K P × List P
  map_insert_del_old t k v = elim (find o k t) [
    | none ↦ (ok, assign o k v t, [])
    | some old ↦ (ok, assign o k v t, old ∷ [])
  ]

  pub map_del : Map K P → K → Err × Map K P × List P
  map_del t k = elim (find o k t) [
    | none ↦ (not_exist, t, [])
    | some old ↦ (ok, erase o k t, old ∷ [])
  ]

pub values : {K P : Type 0} → Map K P → List P
values = map (λ e. e.1)

-- The loop from `begin()` to `end()`, and then `clear()`.
pub map_del_clear : {K P : Type 0} → Map K P → Map K P × List P
unfolding values
map_del_clear t = ([], values t)

pub data Call (K P : Type 0) : Type 0 where
  inserts : K → P → Call K P
  dels : K → Call K P
  clears : Call K P

-- The map after a sequence of calls, and all that was deleted.
pub run : {K P : Type 0} → KeyOrder K → Map K P → List P → List (Call K P) → Map K P × List P
run o t gone [] = (t, gone)
run o t gone (inserts k v ∷ cs) =
    let (_, t', d) = map_insert_del_old o t k v in run o t' (d ++ gone) cs
run o t gone (dels k ∷ cs) = let (_, t', d) = map_del o t k in run o t' (d ++ gone) cs
run o t gone (clears ∷ cs) = let (t', d) = map_del_clear t in run o t' (d ++ gone) cs
