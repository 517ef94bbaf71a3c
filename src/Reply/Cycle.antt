-- ===== src/Reply/Cycle.antt =====
-- The life of a reply task from one request to the next.
use zpp_adapter.Prelude.{◌≡◌, false, ◌∷◌, arith}
use zpp_adapter.Reply.{recv, Task, errors, Pool, request, reply_on_event}

module _ {M : Type 0} (with_header : M → M → M) where
  -- After a receive that failed the error callback runs, and the request callback all the same,
  -- with whatever message is left with `aio`.
  pub failed_receive :
      (pool : Pool) (t : Task M)
      → t.state ≡ recv
      → reply_on_event false pool t
        ≡ (record t { req = t.aio_msg }, errors ∷ request pool t.aio_msg)
  unfolding reply_on_event
  failed_receive pool t s = ground (arith, s)
