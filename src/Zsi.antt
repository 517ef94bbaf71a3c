-- ===== src/Zsi.antt =====
-- What the program takes from the zsi library (zsi/base/error.h, zsi/thread/semaphore.h): the
-- error codes by name, and the counting semaphore as an interface.
pub mod Counting
use zpp_adapter.Prelude.{Bool, true, false, ℕ, ◌+◌, ◌<◌, ◌≡◌, ◌≢◌}

-- `zerr_t`: `ZEOK` is `ok`, `ZENOT_EXIST` is `not_exist`, and so on.
pub data Err : Type 0 where
  ok fail exist not_exist param_invalid mem_insufficient timeout not_support cast_fail eof : Err

-- `ZEOK == ret`.
abbrev pub is_ok : Err → Bool
is_ok ok = true
is_ok _ = false

-- `sem_t` with `zsem_init`, `zsem_post` and `zsem_wait`, as documented: a post adds one; a wait
-- takes one if there is one, and else reports an error and takes nothing.
pub record Semaphore : Type 1 where
  pub Sem : Type 0
  pub init : ℕ → Sem
  pub post : Sem → Sem
  pub wait : Sem → ℕ → Err × Sem
  pub count : Sem → ℕ
  pub count-init : (n : ℕ) → count (init n) ≡ n
  pub count-post : (s : Sem) → count (post s) ≡ count s + 1
  pub wait_ready : (s : Sem) (ms : ℕ) → 0 < count s → (wait s ms).0 ≡ ok
  pub count-wait_ready : (s : Sem) (ms : ℕ) → 0 < count s → count (wait s ms).1 + 1 ≡ count s
  pub wait_empty : (s : Sem) (ms : ℕ) → count s ≡ 0 → (wait s ms).0 ≢ ok
  pub count-wait_empty : (s : Sem) (ms : ℕ) → count s ≡ 0 → count (wait s ms).1 ≡ 0
