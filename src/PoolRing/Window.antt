-- ===== src/PoolRing/Window.antt =====
-- The slots of MsgPoolRing from one position on, going round at the capacity.
use native.Mathlib.Nat.{mod-add-mod, mod-eq_of_lt, mod-eq-sub-mod, mod-lt}
use native.Mathlib.Decide.{dec_lt}
use zpp_adapter.Prelude.{
  ℕ, zero, suc, ◌+◌, ◌-◌, ◌%◌, ◌<◌, ◌≡◌, ◌≢◌, refl, sym, ap, ap₂, ◌∙◌, Option, List, [], ◌∷◌, ◌++◌,
  length, set, arith,
}
use zpp_adapter.PoolRing.{slot}

-- Fewer than `m` steps round a ring of `m` do not lead back.
mod-step_ne : (m p d : ℕ) → 0 < d → d < m → p % m ≢ (p + d) % m
mod-step_ne m p d pos lt e =
    let low : p % m < m = mod-lt p (omega arith) in
    let e' : p % m ≡ (p % m + d) % m = e ∙ sym (mod-add-mod p m d) in
    elim (dec_lt (p % m + d) m) [
      | yes inside ↦ omega (arith, mod-eq_of_lt inside)
      | no past ↦ omega (
        arith,
        mod-eq-sub-mod {n = p % m + d} {m = m} (omega arith),
        mod-eq_of_lt {n = p % m + d - m} {m = m} (omega arith),
      )
    ]

module _ {P : Type 0} where
  slot-set_self :
      (xs : List (Option P)) (i : ℕ) (v : Option P) → i < length xs → slot (set xs i v) i ≡ v
  slot-set_self [] i v h = absurd (omega arith)
  slot-set_self (x ∷ xs) zero v h = refl
  slot-set_self (x ∷ xs) (suc i) v h = slot-set_self xs i v (omega arith)

  slot-set_ne :
      (xs : List (Option P)) (i j : ℕ) (v : Option P) → i ≢ j → slot (set xs i v) j ≡ slot xs j
  slot-set_ne [] i j v h = refl
  slot-set_ne (x ∷ xs) zero zero v h = absurd (h refl)
  slot-set_ne (x ∷ xs) zero (suc j) v h = refl
  slot-set_ne (x ∷ xs) (suc i) zero v h = refl
  slot-set_ne (x ∷ xs) (suc i) (suc j) v h = slot-set_ne xs i j v (λ e. h (ap suc e))

  -- The `n` slots from position `p` on.
  unfoldable pub window : List (Option P) → ℕ → ℕ → ℕ → List (Option P)
  window buf cap p zero = []
  window buf cap p (suc n) = slot buf (p % cap) ∷ window buf cap (p + 1) n

  pub length-window : (buf : List (Option P)) (m p n : ℕ) → length (window buf m p n) ≡ n
  unfolding window
  length-window buf m p zero = refl
  length-window buf m p (suc n) = ap suc (length-window buf m (p + 1) n)

  pub window_none : (buf : List (Option P)) (m p n : ℕ) → n ≡ 0 → window buf m p n ≡ []
  unfolding window
  window_none buf m p zero e = refl
  window_none buf m p (suc n) e = absurd (omega arith)

  pub window_some :
      (buf : List (Option P)) (m p n : ℕ)
      → 0 < n
      → window buf m p n ≡ slot buf (p % m) ∷ window buf m (p + 1) (n - 1)
  unfolding window
  window_some buf m p zero h = absurd (omega arith)
  window_some buf m p (suc n) h = ap (λ k. slot buf (p % m) ∷ window buf m (p + 1) k) (omega arith)

  -- A window depends on its start modulo the capacity only.
  pub window-mod :
      (buf : List (Option P)) (cap p q n : ℕ)
      → p % cap ≡ q % cap
      → window buf cap p n ≡ window buf cap q n
  unfolding window
  window-mod buf cap p q zero e = refl
  window-mod buf cap p q (suc n) e = ap₂ ◌∷◌ (ap (slot buf) e) (
      window-mod buf cap (p + 1) (q + 1) n
        (sym (mod-add-mod p cap 1) ∙ ap (λ r. (r + 1) % cap) e ∙ mod-add-mod q cap 1))

  -- A write just behind a window that is not full makes it longer by that slot.
  pub window-set :
      (buf : List (Option P)) (cap p n i : ℕ) (v : Option P)
      → length buf ≡ cap
      → n < cap
      → i ≡ (p + n) % cap
      → window (set buf i v) cap p (suc n) ≡ window buf cap p n ++ (v ∷ [])
  unfolding window
  window-set buf m p zero i v len lt e =
      let here : p % m ≡ i = ap (λ q. q % m) (omega arith) ∙ sym e in
      ap (λ x. x ∷ [])
        (ap (slot (set buf i v)) here
          ∙ slot-set_self buf i v (omega (arith, mod-lt p {m = m} (omega arith))))
  window-set buf m p (suc n) i v len lt e =
      ap₂ ◌∷◌
        (slot-set_ne buf i (p % m) v
          (λ same. mod-step_ne m p (suc n) (omega arith) lt (sym same ∙ e)))
        (window-set buf m (p + 1) n i v len (omega arith) (e ∙ ap (λ q. q % m) (omega arith)))
