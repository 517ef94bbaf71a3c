-- ===== src/MsgQueue/Fifo.antt =====
-- MsgQueue against a plain FIFO: calls that do not overlap.
use zpp_adapter.Prelude.{
  ℕ, ◌<◌, ◌≡◌, refl, false, not, Option, none, some, List, [], ◌∷◌, ◌++◌, append-nil, append_assoc,
  length-append, arith, sym, ◌≢◌,
}
use zpp_adapter.Zsi.{is_ok, Err, ok, Semaphore}
use zpp_adapter.MsgQueue.{
  MsgQueue, is_empty, init, push, take_front, refill, pop, Call, pushes, pops, run,
}

-- The FIFO that a client is promised.
module _ {T : Type 0} where
  pub next : List T → Option T × List T
  next [] = (none, [])
  next (t ∷ rest) = (some t, rest)

  pub answers : List T → List (Call T) → List (Option T)
  answers l [] = []
  answers l (pushes t ∷ cs) = answers (l ++ (t ∷ [])) cs
  answers l (pops ms ∷ cs) = (next l).0 ∷ answers (next l).1 cs

-- One token for the reader while `que_in` holds anything.
abbrev pub tokens : {T : Type 0} → List T → ℕ
tokens [] = 0
tokens (_ ∷ _) = 1

module _ (S : Semaphore) {T : Type 0} where
  abbrev pub IsSound : MsgQueue S T → Type 0
  IsSound q = S.count q.sem ≡ tokens q.que_in

  -- Oldest first.
  abbrev pub contents : MsgQueue S T → List T
  contents q = q.que_out ++ q.que_in

  -- `Push` keeps one token in the semaphore exactly while `que_in` holds anything, and puts the
  -- value behind all the others.
  pub push_refines :
      (q : MsgQueue S T) (t : T)
      → IsSound q
      → IsSound (push S q t) × (contents (push S q t) ≡ contents q ++ (t ∷ []))
  unfolding push
  push_refines q t h = (go q.que_in h, sym (append_assoc q.que_out q.que_in (t ∷ [])))
    where
      go : (l : List T) → S.count q.sem ≡ tokens l → IsSound (push S (record q { que_in = l }) t)
      go [] e = omega (arith, S.count-post q.sem)
      go (x ∷ xs) e = ground (arith, length-append xs (t ∷ []))

  -- What a call of `Pop` on a queue with these contents comes to.
  pub record Popped (l : List T) (r : Option (Err × Option T × MsgQueue S T)) : Type 0 where
    pub code : Err
    pub value : Option T
    pub after : MsgQueue S T
    pub defined : r ≡ some (code, value, after)
    pub sound : IsSound after
    pub code_ok : is_ok code ≡ not (is_empty l)
    pub refines : (value, contents after) ≡ next l

  refill_failed :
      (q : MsgQueue S T) (e : Err) (s : S.Sem)
      → e ≢ ok
      → (is_ok e ≡ false) × (refill S q e s ≡ some (e, none, record q { sem = s }))
  unfolding refill
  refill_failed q ok s h = absurd (h refl)
  refill_failed q _ s h = (refl, refl)

  refill-Popped :
      (q : MsgQueue S T) (ms : ℕ) (l : List T)
      → q.que_in ≡ l
      → q.que_out ≡ []
      → IsSound q
      → Popped l (refill S q (S.wait q.sem ms).0 (S.wait q.sem ms).1)
  unfolding refill take_front next
  refill-Popped q ms [] e o h =
      let none_left : S.count q.sem ≡ 0 = ground arith in
      let refused = refill_failed q _ (S.wait q.sem ms).1 (S.wait_empty q.sem ms none_left) in
      record {
        code = (S.wait q.sem ms).0;
        value = none;
        after = record q { sem = (S.wait q.sem ms).1 };
        defined = refused.1;
        sound = ground (arith, S.count-wait_empty q.sem ms none_left);
        code_ok = refused.0;
        refines = ground (arith, o, e);
      }
  refill-Popped q ms (t ∷ rest) e o h =
      let one_left : 0 < S.count q.sem = ground arith in
      record {
        code = ok;
        value = some t;
        after = record { que_in = []; que_out = rest; sem = (S.wait q.sem ms).1 };
        defined = rw (S.wait_ready q.sem ms one_left, e, o);
        sound = ground (arith, S.count-wait_ready q.sem ms one_left);
        code_ok = refl;
        refines = rw append-nil;
      }

  front-Popped :
      (q : MsgQueue S T) (l : List T) (ms : ℕ)
      → q.que_out ≡ l
      → IsSound q
      → Popped (l ++ q.que_in) (pop S q ms)
  unfolding pop take_front next
  front-Popped q [] ms o h =
      rw (o, pop) (refill-Popped (record q { que_out = [] }) ms q.que_in refl refl h)
  front-Popped q (t ∷ rest) ms o h = record {
    code = ok;
    value = some t;
    after = record q { que_out = rest };
    defined = rw (o, pop);
    sound = h;
    code_ok = refl;
    refines = refl;
  }

  -- `Pop` is never undefined: it reports an error exactly when the queue is empty, and otherwise
  -- hands over the oldest value and leaves the others in order.
  pub pop_refines : (q : MsgQueue S T) (ms : ℕ) → IsSound q → Popped (contents q) (pop S q ms)
  pop_refines q ms h = front-Popped q q.que_out ms refl h

  -- No sequence of calls tells the two queues and their semaphore from one FIFO.
  pub run_refines :
      (cs : List (Call T)) (q : MsgQueue S T)
      → IsSound q
      → run S q cs ≡ some (answers (contents q) cs)
  unfolding run answers
  run_refines [] q h = refl
  run_refines (pushes t ∷ cs) q h =
      let p = push_refines q t h in rw (← p.1) (run_refines cs (push S q t) p.0)
  run_refines (pops ms ∷ cs) q h =
      let p = pop_refines q ms h in
      ground (arith, p.defined, p.refines, run_refines cs p.after p.sound)

-- Whatever a client calls in sequence on a new MsgQueue, each `Pop` hands over what one FIFO queue
-- would: the oldest value that was pushed and not yet popped, and nothing if there is none. No call
-- is undefined.
pub run-init_refines :
    (S : Semaphore) {T : Type 0} (cs : List (Call T)) → run S (init S T) cs ≡ some (answers [] cs)
unfolding init
run-init_refines S cs = run_refines S cs (init S _) (S.count-init 0)
