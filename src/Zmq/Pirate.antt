-- ===== src/Zmq/Pirate.antt =====
-- zpp/src/zmq.cpp, Socket::LazyPiratReq: a request that is sent again over a new connection until an
-- answer comes. What the calls of libzmq report in each round is an argument.
use zpp_adapter.Prelude.{ℕ, zero, suc, ◌+◌, ◌≡◌, Bool, false, if◌then◌else◌, arith}
use zpp_adapter.Zsi.{is_ok, Err, ok}

-- `zmq_poll`: -1, 0 or an event.
pub data Poll : Type 0 where
  poll_error poll_nothing poll_event : Poll

-- `before` is the poll with timeout 0 and `stale` the result of the `Recv` after it; `send` is the
-- result of `Send(req)`; `after` is the poll for the answer and `reply` the result of `Recv(rep)`.
pub record Round : Type 0 where
  pub before : Poll
  pub stale : Err
  pub send : Err
  pub after : Poll
  pub reply : Err

-- The result, whether `rep` was received into, and how often `Send` and `Reconnect` were called.
pub record Outcome : Type 0 where
  pub ret : Err
  pub answered : Bool
  pub sends : ℕ
  pub reconnects : ℕ

-- The first `Recv` of a round, if something waits.
abbrev drained : Round → Err
drained r = elim r.before [ poll_event ↦ r.stale | _ ↦ ok ]

abbrev pub again : Outcome → Outcome
again o = record o { sends = o.sends + 1; reconnects = o.reconnects + 1 }

-- One round; `rest` is what the later rounds come to, where the loop goes on after `Reconnect`.
abbrev pub one_round : Round → Outcome → Outcome
one_round r rest =
    if is_ok (drained r)
    then if is_ok r.send
      then elim r.after [
        | poll_event ↦ record { ret = r.reply; answered = is_ok r.reply; sends = 1; reconnects = 0 }
        | _ ↦ again rest
      ]
      else record { ret = r.send; answered = false; sends = 1; reconnects = 0 }
    else record { ret = drained r; answered = false; sends = 0; reconnects = 0 }

-- `trys` is at least 1: it is `n + 1`. The rounds are numbered by the tries that are left after them.
-- After the last one `ret` is what `Send` left there.
pub lazy_pirat_req : ℕ → (ℕ → Round) → Outcome
lazy_pirat_req zero rounds =
    one_round (rounds 0)
      (record { ret = (rounds 0).send; answered = false; sends = 0; reconnects = 0 })
lazy_pirat_req (suc n) rounds =
    let rest = lazy_pirat_req n rounds in one_round (rounds (suc n)) rest

-- Where every send succeeds and no answer ever comes, `LazyPiratReq` has sent `trys` times and
-- reconnected as often, and reports success without an answer.
pub lazy_pirat_req_silent :
    (n : ℕ) (rounds : ℕ → Round)
    → ((i : ℕ) → (rounds i).before ≡ poll_nothing)
    → ((i : ℕ) → (rounds i).send ≡ ok)
    → ((i : ℕ) → (rounds i).after ≡ poll_nothing)
    → lazy_pirat_req n rounds
      ≡ record { ret = ok; answered = false; sends = n + 1; reconnects = n + 1 }
unfolding lazy_pirat_req
lazy_pirat_req_silent zero rounds b s a = ground (arith, b 0, s 0, a 0)
lazy_pirat_req_silent (suc n) rounds b s a =
    ground (arith, b (suc n), s (suc n), a (suc n), lazy_pirat_req_silent n rounds b s a)
