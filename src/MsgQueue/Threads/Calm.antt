-- ===== src/MsgQueue/Threads/Calm.antt =====
-- MsgQueue where the reader never exchanges the queues while a writer holds a pointer to one of them:
-- then the two threads see one FIFO, and no call is undefined.
use zpp_adapter.Prelude.{
  ℕ, ◌+◌, ◌≡◌, ◌≢◌, refl, sym, subst, Bool, true, false, ◌==◌, if◌then◌else◌, List, [], ◌∷◌, ◌++◌,
  append-nil, append_assoc, length, length-append, arith,
}
use zpp_adapter.Zsi.{Semaphore}
use zpp_adapter.MsgQueue.Fifo.{tokens}
use zpp_adapter.MsgQueue.Threads.{
  Writer, aimed, stored, sizing, posting, Reader, waiting, swapping, fronting, State, que_in,
  que_out, Step, enter, aim, put, load, skip, alert, post, lock, ready, block, wake, give_up, swap,
  take, start, IsFault,
}

-- The writer holds no pointer that an exchange would make stale.
abbrev pub is_settled : {T : Type 0} → Writer T → Bool
is_settled (aimed _ _) = false
is_settled (sizing _) = false
is_settled _ = true

module _ {S : Semaphore} {T : Type 0} where
  -- An exchange happens only while the writer is settled.
  abbrev pub IsCalm : {s t : State S T} → Step s t → Type 0
  IsCalm {s} (swap e) = is_settled s.writer ≡ true
  IsCalm _ = Unit {0}

pub data CalmReach {S : Semaphore} {T : Type 0} : State S T → Type 0 where
  begun : {s : State S T} → s ≡ start S T → CalmReach s
  later : {s t : State S T} → CalmReach s → (st : Step s t) → IsCalm st → CalmReach t

-- A token that the writer still owes to the semaphore.
abbrev owed : {T : Type 0} → Writer T → List T → ℕ
owed stored l = if length l == 1 then 1 else 0
owed (sizing _) l = if length l == 1 then 1 else 0
owed posting _ = 1
owed _ _ = 0

-- The token that the reader has taken for the exchange ahead.
abbrev held : Reader → ℕ
held swapping = 1
held _ = 0

abbrev aim_of : {T : Type 0} → Bool → Writer T → Bool
aim_of d (aimed _ a) = a
aim_of d (sizing a) = a
aim_of d _ = d

abbrev OutOk : {T : Type 0} → Reader → List T → Type 0
OutOk waiting l = l ≡ []
OutOk swapping l = l ≡ []
OutOk fronting l = l ≢ []
OutOk _ _ = Unit {0}

record Inv {S : Semaphore} {T : Type 0} (s : State S T) : Type 0 where
  fifo : s.sent ≡ s.got ++ (que_out s ++ que_in s)
  aimed_in : aim_of s.in_at s.writer ≡ s.in_at
  budget : S.count s.sem + held s.reader + owed s.writer (que_in s) ≡ tokens (que_in s)
  out : OutOk s.reader (que_out s)

module _ {S : Semaphore} {T : Type 0} where
  Step-Inv : {s t : State S T} (st : Step s t) → IsCalm st → Inv s → Inv t
  Step-Inv (enter t e) c v = ground arith
  Step-Inv (aim t e) c v = ground arith
  Step-Inv {s} (put t a e) c v = ground (
    arith,
    append_assoc s.got (que_out s ++ que_in s) (t ∷ []),
    append_assoc (que_out s) (que_in s) (t ∷ []),
    length-append (que_in s) (t ∷ []),
  )
  Step-Inv (load e) c v = ground arith
  Step-Inv (skip a e h) c v = ground arith
  Step-Inv (alert a e h) c v = ground arith
  Step-Inv {s} (post e) c v = ground (arith, S.count-post s.sem)
  Step-Inv (lock e) c v = ground arith
  Step-Inv (ready e h) c v = ground arith
  Step-Inv (block e h) c v = ground arith
  Step-Inv {s} (wake ms e h) c v =
      ground (arith, S.count-wait_ready s.sem ms, S.wait_empty s.sem ms)
  Step-Inv {s} (give_up ms e h) c v =
      ground (arith, S.wait_ready s.sem ms, S.count-wait_empty s.sem ms)
  Step-Inv {s} (swap e) c v = ground (arith, append-nil (que_in s))
  Step-Inv {s} (take t rest e h) c v =
      ground (arith, append_assoc s.got (t ∷ []) (rest ++ que_in s))

  start-Inv : (s : State S T) → s ≡ start S T → Inv s
  unfolding start
  start-Inv s e =
      subst Inv (sym e)
        (record { fifo = refl; aimed_in = refl; budget = omega (arith, S.count-init 0); out = tt })

  CalmReach-Inv : {s : State S T} → CalmReach s → Inv s
  CalmReach-Inv (begun e) = start-Inv _ e
  CalmReach-Inv (later r st c) = Step-Inv st c (CalmReach-Inv r)

  -- Where no exchange falls between a writer's load of `que_in` and its use, the messages come out
  -- in the order of the pushes, whatever else the two threads do in between.
  pub calm_in_order : {s : State S T} → CalmReach s → s.sent ≡ s.got ++ (que_out s ++ que_in s)
  calm_in_order r = (CalmReach-Inv r).fifo

  -- Then no reader takes the front of an empty queue.
  pub calm_defined : {s : State S T} → CalmReach s → ¬ IsFault s
  calm_defined r fault = let v = CalmReach-Inv r in ground arith
