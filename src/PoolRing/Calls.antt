-- ===== src/PoolRing/Calls.antt =====
-- MsgPoolRing from its constructor to its destructor, and what `PreAlloc` leaves behind.
use zpp_adapter.Prelude.{
  ℕ, zero, suc, ◌+◌, ◌-◌, ◌*◌, ◌^◌, ◌≤◌, ◌<◌, ◌≡◌, refl, ap, ap₂, ◌∙◌, Option, none, some, List, [],
  ◌∷◌, length-replicate, arith,
}
use native.Mathlib.Decide.{dec_lt}
use zpp_adapter.Prelude.Bits.{two_pow-suc}
use zpp_adapter.Zsi.{Err}
use zpp_adapter.PoolRing.{Ring, slot, fresh, init, alloc, Disposal, free, doomed, fini}
use zpp_adapter.PoolRing.Capacity.{capacity_of_lem}
use zpp_adapter.PoolRing.Window.{window}
use zpp_adapter.PoolRing.Spare.{
  IsValid, spares, take_spare, give_spare, index_lem, alloc_refines, free_refines,
}

pub data Call (P : Type 0) : Type 0 where
  allocs : Option P → Call P
  frees : P → Call P

pub data Reply (P : Type 0) : Type 0 where
  allocated : Err → Option P → Reply P
  freed : Disposal → Reply P

two_pow_mono : (j k : ℕ) → 2 ^ k ≤ 2 ^ (j + k)
two_pow_mono zero k = let e : k ≡ 0 + k = omega arith in omega (arith, ap (λ (n : ℕ). 2 ^ n) e)
two_pow_mono (suc j) k =
    let e : suc j + k ≡ suc (j + k) = omega arith in
    omega (arith, ap (λ (n : ℕ). 2 ^ n) e, two_pow-suc (j + k), two_pow_mono j k)

bits_bound : (k n : ℕ) → 2 ^ k ≤ 2 * n → n < 2 ^ 30 → k ≤ 31
bits_bound k n h small = elim (dec_lt 31 k) [
  | no fits ↦ omega arith
  | yes big ↦
      let e : k - 31 + 31 ≡ k = omega arith in
      absurd (omega (arith, two_pow_mono (k - 31) 31, ap (λ (m : ℕ). 2 ^ m) e))
]

module _ {P : Type 0} where
  pub run : Ring P → List (Call P) → List (Reply P) × List (Option P)
  run r [] = ([], fini r)
  run r (allocs new_t ∷ cs) =
      let (e, t, r') = alloc r new_t in
      let (replies, left) = run r' cs in (allocated e t ∷ replies, left)
  run r (frees t ∷ cs) =
      let (r', d) = free r t in let (replies, left) = run r' cs in (freed d ∷ replies, left)

  pub run_spare : ℕ → List (Option P) → List (Call P) → List (Reply P) × List (Option P)
  run_spare cap l [] = ([], l)
  run_spare cap l (allocs new_t ∷ cs) =
      let (e, t, l') = take_spare l new_t in
      let (replies, left) = run_spare cap l' cs in (allocated e t ∷ replies, left)
  run_spare cap l (frees t ∷ cs) =
      let (l', d) = give_spare cap l t in
      let (replies, left) = run_spare cap l' cs in (freed d ∷ replies, left)

  doomed_lem :
      {r : Ring P} (v : IsValid r) (n i : ℕ) → doomed r n i ≡ window r.buf r.capacity (r.pos + i) n
  unfolding doomed window
  doomed_lem v zero i = refl
  doomed_lem {r} v (suc n) i =
      ap₂ ◌∷◌ (ap (slot r.buf) (index_lem v i))
        (doomed_lem v n (i + 1) ∙ ap (λ p. window r.buf r.capacity p n) (omega arith))

  -- The destructor deletes the spare objects, each once, and nothing else.
  pub fini_lem : {r : Ring P} → IsValid r → fini r ≡ spares r
  unfolding fini spares
  fini_lem {r} v = doomed_lem v r.size 0 ∙ ap (λ p. window r.buf r.capacity p r.size) (omega arith)

  alloc_capacity : (r : Ring P) (new_t : Option P) → (alloc r new_t).2.capacity ≡ r.capacity
  unfolding alloc
  alloc_capacity r new_t = ground arith

  free_capacity : (r : Ring P) (t : P) → (free r t).0.capacity ≡ r.capacity
  unfolding free
  free_capacity r t = ground arith

  -- Over a whole life the ring answers as the bounded FIFO of its spares does, and deletes at the
  -- end what that one still holds.
  pub run_refines :
      (cs : List (Call P)) {r : Ring P} → IsValid r → run r cs ≡ run_spare r.capacity (spares r) cs
  unfolding run run_spare
  run_refines [] v = ap (λ l. ([], l)) (fini_lem v)
  run_refines (allocs new_t ∷ cs) {r} v =
      let (v', e) = alloc_refines new_t v in
      ground (arith, e, run_refines cs v', alloc_capacity r new_t)
  run_refines (frees t ∷ cs) {r} v =
      let (v', e) = free_refines t v in ground (arith, e, run_refines cs v', free_capacity r t)

  pub fresh-IsValid : (k : ℕ) → k ≤ 31 → IsValid {P = P} (fresh (2 ^ k))
  unfolding fresh
  fresh-IsValid k h = record {
    bits = k;
    bits_small = h;
    capacity_pow = refl;
    mask_ones = refl;
    buf_full = length-replicate (2 ^ k) none;
    size_fits = omega arith;
  }

  fresh_empty : (k : ℕ) → spares {P = P} (fresh (2 ^ k)) ≡ []
  unfolding spares fresh window
  fresh_empty k = refl

  -- The constructor succeeds for every positive size up to the overflow of `_size <<= 1`, with room
  -- for more than the size asked for, and no spare yet.
  pub init_lem :
      (n : ℕ)
      → 0 < n
      → n < 2 ^ 30
      → (r : Ring P) × (init n ≡ some r)
        × IsValid r
        × (spares r ≡ [])
        × (n < r.capacity)
        × (r.capacity ≤ 2 * n)
  unfolding init fresh
  init_lem n h small =
      let (k, e, lo, hi) = capacity_of_lem n h small in
      (
        fresh (2 ^ k),
        rw (e, init),
        fresh-IsValid k (bits_bound k n hi small),
        fresh_empty k,
        lo,
        hi,
      )
