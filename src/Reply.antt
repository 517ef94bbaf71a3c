-- ===== src/Reply.antt =====
-- zpp/nng/reply.h and zpp/src/reply.cpp: the tasks of an asynchronous reply server. nng tells a task
-- that an operation has ended; the messages that nng hands over and the results are arguments.
pub mod Cycle
mod Tests
use zpp_adapter.Prelude.{
  ℕ, zero, suc, ◌==◌, ltb, ◌||◌, Bool, true, false, if◌then◌else◌, Option, none, some, List, [],
  ◌∷◌, ◌++◌,
}
use zpp_adapter.Zsi.{Err, ok, fail, param_invalid, mem_insufficient}

-- The enumeration `INIT`, `RECV`, `SEND`.
pub data Stage : Type 0 where
  init recv send : Stage

-- `aio_msg` is the message that nng keeps with `aio`.
pub record Task (M : Type 0) : Type 0 where
  pub state : Stage
  pub aio_msg : Option M
  pub req : Option M
  pub rep : Option M

-- The calls that a task makes: `nng_recv_aio`, `nng_send_aio`, `onRequest` (at once or through the
-- thread pool), `onError` and `nng_msg_free`.
pub data Act (M : Type 0) : Type 0 where
  receives sends errors : Act M
  requests requests_later : Option M → Act M
  frees : Option M → Act M

-- No thread pool, or one that takes the task or refuses it.
pub data Pool : Type 0 where
  no_pool pool_takes pool_refuses : Pool

module _ {M : Type 0} where
  abbrev pub request : Pool → Option M → List (Act M)
  request pool_takes m = requests_later m ∷ []
  request _ m = requests m ∷ []

  -- `ReplyOnEvent`; `good` is that `nng_aio_result` is 0.
  pub reply_on_event : Bool → Pool → Task M → Task M × List (Act M)
  reply_on_event good pool t = elim t.state [
    | init ↦ (record t { state = recv }, receives ∷ [])
    | recv ↦
        (record t { req = t.aio_msg }, (if good then [] else errors ∷ []) ++ request pool t.aio_msg)
    | send ↦ (
      record t { state = recv },
      (if good then [] else errors ∷ frees t.rep ∷ []) ++ (frees t.req ∷ receives ∷ []),
    )
  ]

  -- `Response`; the header of the request is put on the reply.
  pub response : (M → M → M) → M → Task M → Err × Task M × List (Act M)
  response with_header rep_msg t =
      let rep : M = elim t.req [ none ↦ rep_msg | some q ↦ with_header q rep_msg ] in
      (ok, record t { rep = some rep; aio_msg = some rep; state = send }, sends ∷ [])

  -- nng puts a message with `aio`.
  abbrev pub arrive : M → Task M → Task M
  arrive m t = record t { aio_msg = some m }

-- `parallel` of `Listen`, an int that is not negative here: out of range it is 8.
pub task_num : ℕ → ℕ
task_num parallel = if (parallel == 0) || ltb 64 parallel then 8 else parallel
