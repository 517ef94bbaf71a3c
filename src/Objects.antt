-- ===== src/Objects.antt =====
-- zpp/obj.hpp and zpp/object.hpp, the counts of references of an object; zpp/base/object.h and
-- zpp/src/object.cpp, the creators of objects by type.
pub mod Counts
pub mod Creators
mod Tests
use zpp_adapter.Prelude.{
  ℕ, ◌+◌, ◌-◌, ◌%◌, ◌^◌, ◌≡◌, Bool, true, false, ◌==◌, ltb, if◌then◌else◌, Option, none, some, List,
  [], ◌∷◌,
}
use zpp_adapter.Zsi.{Err, ok, fail, not_exist}
use zpp_adapter.Std.Order.{KeyOrder}
use zpp_adapter.Std.Map.{Map, assign}
use zpp_adapter.OwningMap.{map_find}

-- `zatm_inc` and `zatm_dec` of zsi as the code relies on them: what each gives for a value and leaves in its place.
-- Each gives the value that it leaves.
pub record Atomics : Type 0 where
  pub inc : ℕ → ℕ × ℕ
  pub dec : ℕ → ℕ × ℕ
  pub inc_new : (n : ℕ) → (inc n).1 ≡ (n + 1) % 2 ^ 32
  pub dec_new : (n : ℕ) → (dec n).1 ≡ (n + (2 ^ 32 - 1)) % 2 ^ 32
  pub inc_gives : (n : ℕ) → (inc n).0 ≡ (inc n).1
  pub dec_gives : (n : ℕ) → (dec n).0 ≡ (dec n).1

-- An object of any number of threads: `ref`, how many references there are that were not released, how
-- many threads have counted down to 0 and not deleted the object yet, and how often it was deleted.
pub record Counted : Type 0 where
  pub ref : ℕ
  pub holders : ℕ
  pub deleting : ℕ
  pub deleted : ℕ

-- The constructor: its caller has the first reference.
unfoldable pub new_obj : Counted
new_obj = record { ref = 1; holders = 1; deleting = 0; deleted = 0 }

-- `Clone`, the count of `Release`, and its `delete this`.
pub data Act : Type 0 where
  clones drops deletes : Act

module _ (a : Atomics) where
  -- `none` where nobody can do it: with no reference, or after no count that was 0.
  unfoldable pub act : Act → Counted → Option Counted
  act clones s =
      if s.holders == 0
      then none
      else some (record s { ref = (a.inc s.ref).1; holders = s.holders + 1 })
  act drops s =
      if s.holders == 0
      then none
      else some (record s {
        ref = (a.dec s.ref).1;
        holders = s.holders - 1;
        deleting = if (a.dec s.ref).0 == 0 then s.deleting + 1 else s.deleting;
      })
  act deletes s =
      if s.deleting == 0
      then none
      else some (record s { deleting = s.deleting - 1; deleted = s.deleted + 1 })

  unfoldable pub acts : List Act → Counted → Option Counted
  acts [] s = some s
  acts (c ∷ cs) s = elim (act c s) [ none ↦ none | some s' ↦ acts cs s' ]

  -- `CloneImp` of object.hpp: the result, and the count.
  pub clone_imp : ℕ → Err × ℕ
  clone_imp ref = let (given, new) = a.inc ref in (if ltb given 2 then ok else fail, new)

-- `pdyn_map`: `none` for NULL.
abbrev pub Creators : Type 0 → Type 0
Creators C = Option (Map ℕ C)

module _ {C : Type 0} (o : KeyOrder ℕ) where
  -- `RegCreater`; `none` is a creator that is NULL.
  pub reg_creater : ℕ → Option C → Creators C → Creators C
  reg_creater type none m = m
  reg_creater type (some c) m =
      if type == 0
      then m
      else elim m [ none ↦ some (assign o type c []) | some t ↦ some (assign o type c t) ]

  -- `CreateObj`: the result of the creator. `none` where there is no map yet. `null` is what `dc` is
  -- before it is found.
  pub create_obj : (null : C) → (C → Err) → ℕ → Creators C → Option Err
  create_obj null call type none = none
  create_obj null call type (some t) =
      let (found, c) = map_find o t type null in some (if found then call c else not_exist)
