-- ===== src/PoolRing.antt =====
-- zpp/base/msg_queue.hpp, class MsgPoolRing: a ring of spare objects in front of `new` and `delete`.
-- An object is a pointer of any type `P`. Each call runs under the spin lock, so calls are atomic.
pub mod Capacity
pub mod Window
pub mod Spare
pub mod Calls
pub mod Prealloc
mod Tests
use Prim.Native.Nat.{bit_and}
use zpp_adapter.Prelude.{
  ℕ, zero, suc, ◌+◌, ◌-◌, ◌*◌, ◌%◌, ◌^◌, Bool, true, false, ◌&&◌, ltb, ◌==◌, if◌then◌else◌, Option,
  none, some, List, [], ◌∷◌, set, replicate,
}
use zpp_adapter.Zsi.{Err, ok, mem_insufficient}

-- The arithmetic of `int`, as its 32-bit pattern.
abbrev pub add_int : ℕ → ℕ → ℕ
add_int a b = (a + b) % 2 ^ 32

-- A slot of `buf` is a pointer or null.
pub record Ring (P : Type 0) : Type 0 where
  pub buf : List (Option P)
  pub capacity : ℕ
  pub mask : ℕ
  pub pos : ℕ
  pub size : ℕ

-- `while(_size){ capacity = _size; _size &= _size - 1; }` with fuel. `none`: never assigned.
pub capacity_loop : ℕ → ℕ → Option ℕ → Option ℕ
capacity_loop zero n c = c
capacity_loop (suc fuel) n c =
    let rest = capacity_loop fuel (bit_and n (n - 1)) (some n) in if n == 0 then c else rest

-- `_size <<= 1`, and then the loop, which ends within `_size` rounds.
pub capacity_of : ℕ → Option ℕ
unfolding capacity_loop
capacity_of n = let size = n * 2 % 2 ^ 32 in capacity_loop size size none

module _ {P : Type 0} where
  pub fresh : ℕ → Ring P
  fresh c = record { buf = replicate c none; capacity = c; mask = c - 1; pos = 0; size = 0 }

  -- The constructor. `calloc` gives null slots; `none` where `capacity` is left unset.
  pub init : ℕ → Option (Ring P)
  unfolding capacity_of fresh
  init n = elim (capacity_of n) [ none ↦ none | some c ↦ some (fresh c) ]

  -- `buf[i]`, null out of range.
  abbrev pub slot : List (Option P) → ℕ → Option P
  slot [] _ = none
  slot (x ∷ _) zero = x
  slot (_ ∷ xs) (suc i) = slot xs i

  -- The loop of `PreAlloc` from index `i`: the list is what each `new` returns.
  fill : List (Option P) → ℕ → Ring P → Ring P
  fill [] i r = r
  fill (none ∷ _) i r = record r { buf = set r.buf i none }
  fill (some p ∷ news) i r = fill news (i + 1) (record r { buf = set r.buf i (some p); size = i })

  -- `news` holds one answer of `new` for each index below `capacity`.
  pub pre_alloc : List (Option P) → Ring P → Ring P
  unfolding fill
  pre_alloc news r = if (0 == r.pos) && (r.size == 0) then fill news 0 r else r

  pub from_new : Option P → Err
  from_new none = mem_insufficient
  from_new (some _) = ok

  -- The code, the pointer in `t`, and the ring; the second argument is what `new` would return.
  pub alloc : Ring P → Option P → Err × Option P × Ring P
  unfolding from_new
  alloc r new_t =
      if ltb 0 r.size
      then (
        ok,
        slot r.buf (bit_and r.pos r.mask),
        record r { pos = add_int r.pos 1; size = r.size - 1 },
      )
      else (from_new new_t, new_t, r)

-- What `Free` did with the object: `t->Release(ZOPNULL)` and kept it, or `delete t`.
pub data Disposal : Type 0 where
  kept deleted : Disposal

pub free : {P : Type 0} → Ring P → P → Ring P × Disposal
free r t =
    if ltb r.size r.capacity
    then (
      record r {
        buf = set r.buf (bit_and (add_int r.pos r.size) r.mask) (some t);
        size = r.size + 1;
      },
      kept,
    )
    else (r, deleted)

-- What the destructor deletes, in its order: `buf[(pos + i) & mask]` for `i` from the first.
pub doomed : {P : Type 0} → Ring P → ℕ → ℕ → List (Option P)
doomed r zero i = []
doomed r (suc n) i = slot r.buf (bit_and (add_int r.pos i) r.mask) ∷ doomed r n (i + 1)

pub fini : {P : Type 0} → Ring P → List (Option P)
unfolding doomed
fini r = doomed r r.size 0
