-- ===== src/AsyncTimer/Acks.antt =====
-- AsyncTimer::Push and AsyncTimer::Pop: an answer that comes in time.
use mathlib.Core.List.{Perm}
use mathlib.Core.List.Perm
use zpp_adapter.Prelude.{ℕ, ◌+◌, ◌≤◌, ◌≡◌, ◌≢◌, refl, ◌⊎◌, inl, inr, Bool-cases, [], ◌∷◌, arith}
use zpp_adapter.Zsi.{ok, not_exist}
use zpp_adapter.Std.Order.{KeyOrder, pair_order, pair_connex}
use zpp_adapter.Std.Set.{Above, IsSorted, insert}
use zpp_adapter.AsyncTimer.{Timers, push, pop}

module _ {K : Type 0} (o : KeyOrder K) where
  -- No entry of the key.
  abbrev pub IsIdle : K → Timers K → Type 0
  IsIdle key [] = Unit {0}
  IsIdle key ((d, k) ∷ s) = (k ≢ key) × IsIdle key s

  -- No entry of the key before the deadline.
  abbrev pub NotBefore : ℕ → K → Timers K → Type 0
  NotBefore d key [] = Unit {0}
  NotBefore d key ((e, k) ∷ s) = (k ≡ key → d ≤ e) × NotBefore d key s

  Above-pop :
      (a : ℕ × K) (key : K) (s : Timers K)
      → Above (pair_order o) a s
      → Above (pair_order o) a (pop o key s).1
  unfolding pop
  Above-pop a key [] u = tt
  Above-pop a key ((d, k) ∷ s) u = ground (arith, Above-pop a key s u.1)

  pop-IsSorted :
      (key : K) (s : Timers K) → IsSorted (pair_order o) s → IsSorted (pair_order o) (pop o key s).1
  unfolding pop
  pop-IsSorted key [] h = tt
  pop-IsSorted key ((d, k) ∷ s) h =
      ground (arith, pop-IsSorted key s h.1, Above-pop (d, k) key s h.0)

  NotBefore-Above :
      (d : ℕ) (k key : K) (s : Timers K) → Above (pair_order o) (d, k) s → NotBefore d key s
  NotBefore-Above d k key [] u = tt
  NotBefore-Above d k key ((e, j) ∷ s) u = (λ same. ground arith, NotBefore-Above d k key s u.1)

  -- `Pop` answers `ZENOT_EXIST` and changes nothing where the key has no entry; otherwise it takes
  -- away one entry, that of the key's earliest deadline.
  pub pop_lem :
      (key : K) (s : Timers K)
      → IsSorted (pair_order o) s
      → IsIdle key s × (pop o key s ≡ (not_exist, s))
        ⊎ ((d : ℕ) × ((pop o key s).0 ≡ ok)
            × Perm s ((d, key) ∷ (pop o key s).1)
            × NotBefore d key s)
  unfolding pop
  pop_lem key [] h = inl (tt, refl)
  pop_lem key ((d, k) ∷ s) h = elim (Bool-cases (o.eq k key)) [
    | inl hit ↦
        let same : k ≡ key = (o.eq_iff k key).0 hit in
        rw hit (
          inr (d, refl, rw same (Perm.refl _), ((λ _. omega arith), NotBefore-Above d k key s h.0)))
    | inr miss ↦
        let other : k ≢ key = λ e. ground (arith, o.eq_iff k key) in
        rw miss (elim (pop_lem key s h.1) [
          | inl (idle, e) ↦ inl ((other, idle), ground (arith, e))
          | inr (x, found, p, first) ↦ inr (
            x,
            found,
            Perm.trans (Perm.cons (d, k) p) (Perm.swap (x, key) (d, k) _),
            ((λ e. absurd (other e)), first),
          )
        ])
  ]

  -- An answer before the deadline takes the key's entry back out: the timer is as before the push.
  pub pop-push :
      (key : K) (timeout_ms now : ℕ) (s : Timers K)
      → IsIdle key s
      → pop o key (push o key timeout_ms now s).1 ≡ (ok, s)
  unfolding push pop insert
  pop-push key timeout_ms now s idle = go (now + timeout_ms) s idle
    where
      go :
          (d : ℕ) (s : Timers K)
          → IsIdle key s
          → pop o key (insert (pair_order o) (d, key) s) ≡ (ok, s)
      go d [] idle = ground (arith, o.eq_iff key key)
      go d ((e, k) ∷ s) idle =
          ground
            (arith, go d s idle.1, o.eq_iff key key, o.eq_iff k key, pair_connex o (e, k) (d, key))
