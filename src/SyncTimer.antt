-- ===== src/SyncTimer.antt =====
-- zpp/base/timer.hpp, class SyncTimer: requests that wait for their answers by key. The map is guarded
-- by a spin lock; `Wait` waits outside it, so `Wait` has two atomic parts.
pub mod Answers
mod Tests
use zpp_adapter.Prelude.{ℕ, Bool, true, false, ◌==◌, if◌then◌else◌, Option, none, some}
use zpp_adapter.Zsi.{Err, ok, exist, not_exist, Semaphore}
use zpp_adapter.Std.Order.{KeyOrder}
use zpp_adapter.Std.Map.{Map, find, assign, erase}

-- `out_t`, with the value that its `out` points to; `none` where nothing was stored.
pub record Out (S : Semaphore) (V : Type 0) : Type 0 where
  pub sem : S.Sem
  pub value : Option V

-- The map holds addresses of the waiters' own `out_t` objects.
pub record SyncTimer (S : Semaphore) (K V : Type 0) : Type 0 where
  pub sem_map : Map K ℕ
  pub outs : ℕ → Out S V

abbrev pub update : {A : Type 0} → (ℕ → A) → ℕ → A → ℕ → A
update f p v q = if p == q then v else f q

module _ {S : Semaphore} {K V : Type 0} (o : KeyOrder K) where
  abbrev pub set_sem : SyncTimer S K V → ℕ → S.Sem → SyncTimer S K V
  set_sem t a s = record t { outs = update t.outs a (record (t.outs a) { sem = s }) }

  pub push : K → ℕ → SyncTimer S K V → Err × SyncTimer S K V
  push key a t = elim (find o key t.sem_map) [
    | none ↦ (ok, record (set_sem t a (S.init 0)) { sem_map = assign o key a t.sem_map })
    | some _ ↦ (exist, t)
  ]

  -- `ret = zsem_wait(&out->sem, timeout_ms)`.
  pub wait_sem : ℕ → ℕ → SyncTimer S K V → Err × SyncTimer S K V
  wait_sem a timeout_ms t = let (ret, s) = S.wait (t.outs a).sem timeout_ms in (ret, set_sem t a s)

  -- `sem_map.erase(key)` under the lock.
  pub leave : K → SyncTimer S K V → SyncTimer S K V
  leave key t = record t { sem_map = erase o key t.sem_map }

  pub wait : K → ℕ → ℕ → SyncTimer S K V → Err × SyncTimer S K V
  wait key a timeout_ms t = let (ret, t') = wait_sem a timeout_ms t in (ret, leave key t')

  pub pop : K → V → SyncTimer S K V → Err × SyncTimer S K V
  pop key v t = elim (find o key t.sem_map) [
    | none ↦ (not_exist, t)
    | some a ↦ (
      ok,
      record t { outs = update t.outs a (record { sem = S.post (t.outs a).sem; value = some v }) },
    )
  ]
