-- ===== src/MsgQueue/Threads.antt =====
-- zpp/base/msg_queue.hpp, MsgQueue::Push and MsgQueue::Pop as their single accesses. `spin_in` lets one
-- writer in at a time and `spin_out` one reader, but the reader exchanges `que_in` without
-- `spin_in`: a writer that has loaded the pointer may write to what is by then the reader's queue.
pub mod Kept
pub mod Calm
pub mod Race
use zpp_adapter.Prelude.{ℕ, ◌≡◌, ◌≢◌, Bool, true, false, not, List, [], ◌∷◌, ◌++◌, length}
use zpp_adapter.Zsi.{ok, Semaphore}

-- Where a writer stands in `Push`, with the pointer that it has loaded: `true` is the first queue.
pub data Writer (T : Type 0) : Type 0 where
  outside : Writer T
  entered : T → Writer T
  aimed : T → Bool → Writer T
  stored : Writer T
  sizing : Bool → Writer T
  posting : Writer T

-- Where a reader stands in `Pop`.
pub data Reader : Type 0 where
  away checking waiting swapping fronting : Reader

pub record State (S : Semaphore) (T : Type 0) : Type 0 where
  pub first : List T
  pub second : List T
  pub in_at : Bool  -- which queue `que_in` points to; `que_out` points to the other
  pub sem : S.Sem
  pub writer : Writer T
  pub reader : Reader
  pub sent : List T  -- what was pushed, in the order of the pushes
  pub got : List T  -- what was popped, in the order of the pops

module _ {S : Semaphore} {T : Type 0} where
  abbrev pub queue : State S T → Bool → List T
  queue s true = s.first
  queue s false = s.second

  abbrev pub store : State S T → Bool → List T → State S T
  store s true l = record s { first = l }
  store s false l = record s { second = l }

  abbrev pub que_in : State S T → List T
  que_in s = queue s s.in_at

  abbrev pub que_out : State S T → List T
  que_out s = queue s (not s.in_at)

-- One access of one of the two calls.
pub data Step {S : Semaphore} {T : Type 0} (s : State S T) : State S T → Type 0 where
  enter : (t : T) → s.writer ≡ outside → Step s (record s { writer = entered t })
  aim : (t : T) → s.writer ≡ entered t → Step s (record s { writer = aimed t s.in_at })
  put :
      (t : T) (a : Bool)
      → s.writer ≡ aimed t a
      → Step s (record (store s a (queue s a ++ (t ∷ []))) {
        writer = stored;
        sent = s.sent ++ (t ∷ []);
      })
  load : s.writer ≡ stored → Step s (record s { writer = sizing s.in_at })
  skip :
      (a : Bool)
      → s.writer ≡ sizing a
      → length (queue s a) ≢ 1
      → Step s (record s { writer = outside })
  alert :
      (a : Bool)
      → s.writer ≡ sizing a
      → length (queue s a) ≡ 1
      → Step s (record s { writer = posting })
  post : s.writer ≡ posting → Step s (record s { writer = outside; sem = S.post s.sem })
  lock : s.reader ≡ away → Step s (record s { reader = checking })
  ready : s.reader ≡ checking → que_out s ≢ [] → Step s (record s { reader = fronting })
  block : s.reader ≡ checking → que_out s ≡ [] → Step s (record s { reader = waiting })
  wake :
      (ms : ℕ)
      → s.reader ≡ waiting
      → (S.wait s.sem ms).0 ≡ ok
      → Step s (record s { reader = swapping; sem = (S.wait s.sem ms).1 })
  give_up :
      (ms : ℕ)
      → s.reader ≡ waiting
      → (S.wait s.sem ms).0 ≢ ok
      → Step s (record s { reader = away; sem = (S.wait s.sem ms).1 })
  swap : s.reader ≡ swapping → Step s (record s { reader = fronting; in_at = not s.in_at })
  take :
      (t : T) (rest : List T)
      → s.reader ≡ fronting
      → que_out s ≡ t ∷ rest
      → Step s (record (store s (not s.in_at) rest) { reader = away; got = s.got ++ (t ∷ []) })

unfoldable pub start : (S : Semaphore) (T : Type 0) → State S T
start S T = record {
  first = [];
  second = [];
  in_at = true;
  sem = S.init 0;
  writer = outside;
  reader = away;
  sent = [];
  got = [];
}

pub data Reach {S : Semaphore} {T : Type 0} : State S T → Type 0 where
  begun : {s : State S T} → s ≡ start S T → Reach s
  later : {s t : State S T} → Reach s → Step s t → Reach t

-- The reader is about to read the front of an empty queue, which is undefined.
abbrev pub IsFault : {S : Semaphore} {T : Type 0} → State S T → Type 0
IsFault s = (s.reader ≡ fronting) × (que_out s ≡ [])
