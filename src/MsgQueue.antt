-- ===== src/MsgQueue.antt =====
-- zpp/base/msg_queue.hpp, class MsgQueue: two queues, a semaphore, and one call at a time. `Push` and
-- `Pop` stand here as the locks make them when the calls do not overlap; `Threads` has the overlaps.
pub mod Fifo
pub mod Threads
mod Tests
use zpp_adapter.Prelude.{
  ℕ, Bool, true, false, ◌==◌, if◌then◌else◌, Option, none, some, List, [], ◌∷◌, ◌++◌, length,
}
use zpp_adapter.Zsi.{Err, ok, Semaphore}

-- A `std::queue` is a list, its front first.
pub record MsgQueue (S : Semaphore) (T : Type 0) : Type 0 where
  pub que_in : List T
  pub que_out : List T
  pub sem : S.Sem

abbrev pub is_empty : {T : Type 0} → List T → Bool
is_empty [] = true
is_empty (_ ∷ _) = false

pub init : (S : Semaphore) (T : Type 0) → MsgQueue S T
init S T = record { que_in = []; que_out = []; sem = S.init 0 }

module _ (S : Semaphore) {T : Type 0} where
  pub push : MsgQueue S T → T → MsgQueue S T
  push q t =
      let grown = q.que_in ++ (t ∷ []) in
      record q { que_in = grown; sem = if 1 == length grown then S.post q.sem else q.sem }

  -- `t = que_out->front(); que_out->pop();`, which is undefined on an empty queue: `none`.
  take_front : MsgQueue S T → List T → Option (Err × Option T × MsgQueue S T)
  take_front q [] = none
  take_front q (t ∷ rest) = some (ok, some t, record q { que_out = rest })

  -- The `if(que_out->empty())` with the result of `zsem_wait` in hand.
  refill : MsgQueue S T → Err → S.Sem → Option (Err × Option T × MsgQueue S T)
  unfolding take_front
  refill q ok s = take_front (record q { que_in = q.que_out; sem = s }) q.que_in
  refill q e s = some (e, none, record q { sem = s })

  -- The error code, the value that goes through `t`, and the queue after the call.
  pub pop : MsgQueue S T → ℕ → Option (Err × Option T × MsgQueue S T)
  unfolding refill take_front
  pop q timeout_ms =
      if is_empty q.que_out
      then refill q (S.wait q.sem timeout_ms).0 (S.wait q.sem timeout_ms).1
      else take_front q q.que_out

pub data Call (T : Type 0) : Type 0 where
  pushes : T → Call T
  pops : ℕ → Call T

-- A client's calls in order, with what each `Pop` hands over; `none` where a call is undefined.
pub run : (S : Semaphore) {T : Type 0} → MsgQueue S T → List (Call T) → Option (List (Option T))
run S q [] = some []
run S q (pushes t ∷ cs) = run S (push S q t) cs
run S q (pops ms ∷ cs) = elim (pop S q ms) [
  | none ↦ none
  | some (e, v, q') ↦ elim (run S q' cs) [ none ↦ none | some vs ↦ some (v ∷ vs) ]
]
