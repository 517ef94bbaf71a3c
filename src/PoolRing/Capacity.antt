-- ===== src/PoolRing/Capacity.antt =====
-- The constructor of MsgPoolRing: how `capacity` comes out of the size that is asked for.
use Prim.Native.Nat.{bit_and}
use zpp_adapter.Prelude.{
  ℕ, zero, suc, ◌-◌, ◌*◌, ◌%◌, ◌^◌, ◌≤◌, ◌<◌, ◌≡◌, refl, ◌∙◌, inl, inr, Option, none, some, arith,
}
use zpp_adapter.Prelude.Bits.{clear_lowest, bracket, two_pow_pos}
use zpp_adapter.PoolRing.{capacity_loop, capacity_of}

capacity_loop_done : (fuel : ℕ) (c : Option ℕ) → capacity_loop fuel 0 c ≡ c
unfolding capacity_loop
capacity_loop_done zero c = refl
capacity_loop_done (suc fuel) c = refl

-- The loop leaves the highest power of two in its argument, and the fuel is enough.
capacity_loop_lem :
    (fuel k n : ℕ) (c : Option ℕ)
    → n ≤ fuel
    → 2 ^ k ≤ n
    → n < 2 * 2 ^ k
    → capacity_loop fuel n c ≡ some (2 ^ k)
unfolding capacity_loop
capacity_loop_lem zero k n c f lo hi = absurd (omega (arith, two_pow_pos k))
capacity_loop_lem (suc fuel) k n c f lo hi = elim (clear_lowest k n lo hi) [
  | inl (top, gone) ↦ ground (arith, two_pow_pos k, capacity_loop_done fuel (some n))
  | inr (still, less) ↦
      ground (arith, two_pow_pos k, capacity_loop_lem fuel k (bit_and n (n - 1)) (some n))
]

capacity_of-eq : (n : ℕ) → n < 2 ^ 30 → capacity_of n ≡ capacity_loop (n * 2) (n * 2) none
unfolding capacity_of
capacity_of-eq n small = let e : n * 2 % 2 ^ 32 ≡ n * 2 = omega arith in rw e

-- For any size that `_size <<= 1` does not overflow, the capacity is a power of two, above
-- the size and at most its double.
pub capacity_of_lem :
    (n : ℕ)
    → 0 < n
    → n < 2 ^ 30
    → (k : ℕ) × (capacity_of n ≡ some (2 ^ k)) × (n < 2 ^ k) × (2 ^ k ≤ 2 * n)
capacity_of_lem n h small =
    let (k, lo, hi) = bracket (n * 2) (omega arith) in
    (
      k,
      capacity_of-eq n small ∙ capacity_loop_lem (n * 2) k (n * 2) none (omega arith) lo hi,
      omega arith,
      omega arith,
    )
