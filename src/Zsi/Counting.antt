-- ===== src/Zsi/Counting.antt =====
-- A semaphore that is its count.
use zpp_adapter.Prelude.{ℕ, zero, suc, ◌+◌, ◌<◌, ◌≡◌, ◌≢◌, refl, arith}
use zpp_adapter.Zsi.{Err, ok, timeout, Semaphore}

abbrev pub take_one : ℕ → ℕ → Err × ℕ
take_one zero ms = (timeout, zero)
take_one (suc n) ms = (ok, n)

pub ready : (s ms : ℕ) → 0 < s → (take_one s ms).0 ≡ ok
ready zero ms h = absurd (omega arith)
ready (suc s) ms h = refl

pub one_less : (s ms : ℕ) → 0 < s → (take_one s ms).1 + 1 ≡ s
one_less zero ms h = absurd (omega arith)
one_less (suc s) ms h = omega arith

pub refused : (s ms : ℕ) → s ≡ 0 → (take_one s ms).0 ≢ ok
refused zero ms h = λ e. cc
refused (suc s) ms h = absurd (omega arith)

pub still_none : (s ms : ℕ) → s ≡ 0 → (take_one s ms).1 ≡ 0
still_none zero ms h = refl
still_none (suc s) ms h = absurd (omega arith)

abbrev pub counting : Semaphore
counting = record {
  Sem = ℕ;
  init = λ n. n;
  post = λ n. n + 1;
  wait = take_one;
  count = λ n. n;
  count-init = λ n. refl;
  count-post = λ n. refl;
  wait_ready = ready;
  count-wait_ready = one_less;
  wait_empty = refused;
  count-wait_empty = still_none;
}
