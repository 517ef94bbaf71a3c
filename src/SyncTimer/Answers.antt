-- ===== src/SyncTimer/Answers.antt =====
-- SyncTimer: a request, its answer, and its waiter.
use zpp_adapter.Prelude.{ℕ, ◌≡◌, ◌≢◌, none, some, arith}
use zpp_adapter.Zsi.{ok, Semaphore}
use zpp_adapter.Std.Order.{KeyOrder}
use zpp_adapter.Std.Map.{find, assign, find-assign, erase-assign}
use zpp_adapter.SyncTimer.{SyncTimer, push, wait_sem, leave, wait, pop}

posted : (S : Semaphore) (ms : ℕ) → (S.wait (S.post (S.init 0)) ms).0 ≡ ok
posted S ms = S.wait_ready _ ms (omega (arith, S.count-post (S.init 0)))

empty : (S : Semaphore) (ms : ℕ) → (S.wait (S.init 0) ms).0 ≢ ok
empty S ms = S.wait_empty _ ms (S.count-init 0)

module _ {S : Semaphore} {K V : Type 0} (o : KeyOrder K) where
  there : (key : K) (a : ℕ) (t : SyncTimer S K V) → find o key (assign o key a t.sem_map) ≡ some a
  there key a t = ground (arith, find-assign o key key a t.sem_map, o.eq_iff key key)

  -- An answer that comes while the request waits reaches its waiter: `Pop` and `Wait` both report
  -- success, the value is stored, and the map is as it was before the request.
  pub answered :
      (key : K) (a : ℕ) (v : V) (ms : ℕ) (t : SyncTimer S K V)
      → find o key t.sem_map ≡ none
      → let (pushed, t1) = push o key a t in
        let (popped, t2) = pop o key v t1 in
        let (waited, t3) = wait o key a ms t2 in
        (pushed ≡ ok)
        × (popped ≡ ok)
        × (waited ≡ ok)
        × ((t3.outs a).value ≡ some v)
        × (t3.sem_map ≡ t.sem_map)
  unfolding push pop wait wait_sem leave
  answered key a v ms t free =
      ground (arith, posted S ms, there key a t, erase-assign o key a t.sem_map)

  -- With no answer `Wait` reports an error and stores nothing, and the map is as it was before.
  pub unanswered :
      (key : K) (a ms : ℕ) (t : SyncTimer S K V)
      → find o key t.sem_map ≡ none
      → let (pushed, t1) = push o key a t in
        let (waited, t2) = wait o key a ms t1 in
        (pushed ≡ ok)
        × (waited ≢ ok)
        × ((t2.outs a).value ≡ (t.outs a).value)
        × (t2.sem_map ≡ t.sem_map)
  unfolding push wait wait_sem leave
  unanswered key a ms t free = ground (arith, empty S ms, erase-assign o key a t.sem_map)

  -- An answer that falls between the two parts of `Wait` is lost: `Pop` reports success for it, and
  -- `Wait` has already timed out.
  pub lost_answer :
      (key : K) (a : ℕ) (v : V) (ms : ℕ) (t : SyncTimer S K V)
      → find o key t.sem_map ≡ none
      → let (pushed, t1) = push o key a t in
        let (waited, t2) = wait_sem o a ms t1 in
        let (popped, t3) = pop o key v t2 in
        (waited ≢ ok) × (popped ≡ ok) × (((leave o key t3).outs a).value ≡ some v)
  unfolding push pop wait_sem leave
  lost_answer key a v ms t free = ground (arith, empty S ms, there key a t)
