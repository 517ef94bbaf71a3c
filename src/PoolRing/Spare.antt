-- ===== src/PoolRing/Spare.antt =====
-- MsgPoolRing against a bounded FIFO of spare objects.
use Prim.Native.Nat.{bit_and}
use zpp_adapter.Prelude.{
  ℕ, ◌+◌, ◌-◌, ◌%◌, ◌^◌, ◌≤◌, ◌≡◌, sym, ap, ◌∙◌, ltb, if◌then◌else◌, Option, some, List, [], ◌∷◌,
  ◌++◌, length, length-set, arith,
}
use zpp_adapter.Prelude.Bits.{bit_and_mask, mod-wrap}
use zpp_adapter.Zsi.{Err, ok}
use zpp_adapter.PoolRing.{Ring, add_int, from_new, alloc, Disposal, kept, deleted, free}
use zpp_adapter.PoolRing.Window.{
  window, length-window, window_none, window_some, window-mod, window-set,
}

module _ {P : Type 0} where
  pub record IsValid (r : Ring P) : Type 0 where
    pub bits : ℕ
    pub bits_small : bits ≤ 31
    pub capacity_pow : r.capacity ≡ 2 ^ bits
    pub mask_ones : r.mask ≡ 2 ^ bits - 1
    pub buf_full : length r.buf ≡ r.capacity
    pub size_fits : r.size ≤ r.capacity

  -- The spare objects, the next to be handed out first.
  unfoldable pub spares : Ring P → List (Option P)
  spares r = window r.buf r.capacity r.pos r.size

  -- A list of at most `cap` spares in front of `new` and `delete`.
  pub take_spare : List (Option P) → Option P → Err × Option P × List (Option P)
  take_spare [] new_t = (from_new new_t, new_t, [])
  take_spare (x ∷ rest) new_t = (ok, x, rest)

  pub give_spare : ℕ → List (Option P) → P → List (Option P) × Disposal
  give_spare cap l t = if ltb (length l) cap then (l ++ (some t ∷ []), kept) else (l, deleted)

  wrapped :
      {r : Ring P} (v : IsValid r) (i : ℕ) → add_int r.pos i % r.capacity ≡ (r.pos + i) % r.capacity
  wrapped {r} v i = rw v.capacity_pow (mod-wrap v.bits (r.pos + i) (omega (arith, v.bits_small)))

  -- `(pos + i) & mask` is the position modulo the capacity, wrapped or not.
  pub index_lem :
      {r : Ring P} (v : IsValid r) (i : ℕ)
      → bit_and (add_int r.pos i) r.mask ≡ (r.pos + i) % r.capacity
  index_lem {r} v i =
      ap (bit_and (add_int r.pos i)) v.mask_ones
      ∙ bit_and_mask v.bits (add_int r.pos i)
      ∙ ap (λ m. add_int r.pos i % m) (sym v.capacity_pow)
      ∙ wrapped v i

  front_lem : {r : Ring P} (v : IsValid r) → bit_and r.pos r.mask ≡ r.pos % r.capacity
  front_lem {r} v =
      ap (bit_and r.pos) v.mask_ones
      ∙ bit_and_mask v.bits r.pos
      ∙ ap (λ m. r.pos % m) (sym v.capacity_pow)

  -- `++pos` moves the window by one, also where `pos` wraps.
  window-next :
      {r : Ring P} (v : IsValid r) (n : ℕ)
      → window r.buf r.capacity (add_int r.pos 1) n ≡ window r.buf r.capacity (r.pos + 1) n
  window-next {r} v n = window-mod r.buf r.capacity _ _ n (wrapped v 1)

  alloc-IsValid : {r : Ring P} (new_t : Option P) → IsValid r → IsValid (alloc r new_t).2
  unfolding alloc
  alloc-IsValid new_t v = ground arith

  free-IsValid : {r : Ring P} (t : P) → IsValid r → IsValid (free r t).0
  unfolding free
  free-IsValid {r} t v =
      ground (arith, length-set r.buf (bit_and (add_int r.pos r.size) r.mask) (some t))

  -- `Alloc` hands out the spare that was given back first, and calls `new` when there is none.
  pub alloc_refines :
      {r : Ring P} (new_t : Option P)
      → IsValid r
      → IsValid (alloc r new_t).2
        × (((alloc r new_t).0, (alloc r new_t).1, spares (alloc r new_t).2)
            ≡ take_spare (spares r) new_t)
  unfolding alloc take_spare spares
  alloc_refines {r} new_t v = (
    alloc-IsValid new_t v,
    ground (
      arith,
      front_lem v,
      window_none r.buf r.capacity r.pos r.size,
      window_some r.buf r.capacity r.pos r.size,
      window-next v (r.size - 1),
    ),
  )

  -- `Free` keeps the object behind the other spares while there is room, and else deletes it.
  pub free_refines :
      {r : Ring P} (t : P)
      → IsValid r
      → IsValid (free r t).0
        × ((spares (free r t).0, (free r t).1) ≡ give_spare r.capacity (spares r) t)
  unfolding free give_spare spares
  free_refines {r} t v = (
    free-IsValid t v,
    ground (
      arith,
      length-window r.buf r.capacity r.pos r.size,
      index_lem v r.size,
      window-set r.buf r.capacity r.pos r.size (bit_and (add_int r.pos r.size) r.mask) (some t),
    ),
  )
