-- ===== src/Objects/Tests.antt =====
-- Counts and creators at concrete inputs.
use zpp_adapter.Prelude.{
  ℕ, ◌+◌, ◌-◌, ◌%◌, ◌^◌, ◌≤◌, ◌≡◌, refl, ◌==◌, if◌then◌else◌, none, some, [], ◌∷◌, ◌++◌, replicate,
  arith,
}
use zpp_adapter.Objects.{Atomics, Counted, new_obj, clones, drops, deletes, act, acts}
use zpp_adapter.Objects.Counts.{acts_lem, released_lem}

abbrev atomics : Atomics
atomics = record {
  inc = λ n. ((n + 1) % 2 ^ 32, (n + 1) % 2 ^ 32);
  dec = λ n. ((n + (2 ^ 32 - 1)) % 2 ^ 32, (n + (2 ^ 32 - 1)) % 2 ^ 32);
  inc_new = λ n. refl;
  dec_new = λ n. refl;
  inc_gives = λ n. refl;
  dec_gives = λ n. refl;
}

abbrev gone : Counted
gone = record { ref = 0; holders = 0; deleting = 0; deleted = 1 }

acts_lem_example :
    (gone.ref ≡ gone.holders)
    × (gone.deleting + gone.deleted ≡ (if gone.holders == 0 then 1 else 0))
unfolding acts act new_obj
acts_lem_example =
    acts_lem atomics (clones ∷ (drops ∷ (drops ∷ (deletes ∷ [])))) gone (omega arith) refl

released_lem_example :
    (acts atomics (replicate 2 clones ++ (replicate 2 drops ++ (drops ∷ (deletes ∷ [])))) new_obj
      ≡ some gone)
    × ((m : ℕ)
        → m ≤ 2
        → acts atomics (replicate 2 clones ++ (replicate m drops ++ (deletes ∷ []))) new_obj ≡ none)
released_lem_example = released_lem atomics 2 (omega arith)
