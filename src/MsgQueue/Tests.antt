-- ===== src/MsgQueue/Tests.antt =====
-- MsgQueue at concrete inputs.
use zpp_adapter.Prelude.{ℕ, ◌≡◌, refl, true, none, some, List, [], ◌∷◌, ◌++◌}
use zpp_adapter.Zsi.Counting.{counting}
use zpp_adapter.MsgQueue
use zpp_adapter.MsgQueue.{Call, pushes, pops, init, run}
use zpp_adapter.MsgQueue.Fifo.{answers, run-init_refines}
use zpp_adapter.MsgQueue.Threads.{
  State, Writer, Reader, IsFault, que_in, que_out, enter, aim, put, start,
}
use zpp_adapter.MsgQueue.Threads.Calm.{CalmReach, begun, later, calm_in_order, calm_defined}

abbrev calls : List (Call ℕ)
calls = pushes 5 ∷ pushes 6 ∷ pops 10 ∷ pushes 7 ∷ pops 10 ∷ pops 10 ∷ pops 10 ∷ []

run_works : run counting (init counting ℕ) calls ≡ some (some 5 ∷ some 6 ∷ some 7 ∷ none ∷ [])
unfolding run init zpp_adapter.MsgQueue.push zpp_adapter.MsgQueue.pop
run_works = refl

run-init_refines_example : run counting (init counting ℕ) calls ≡ some (answers [] calls)
run-init_refines_example = run-init_refines counting calls

-- One value stored, and not yet signalled.
abbrev stored_one : State counting ℕ
stored_one = record {
  first = 5 ∷ [];
  second = [];
  in_at = true;
  sem = 0;
  writer = Writer.stored;
  reader = Reader.away;
  sent = 5 ∷ [];
  got = [];
}

stored_one-CalmReach : CalmReach stored_one
unfolding start
stored_one-CalmReach =
    later (later (later (begun refl) (enter 5 refl) tt) (aim 5 refl) tt) (put 5 true refl) tt

calm_in_order_example :
    stored_one.sent ≡ stored_one.got ++ (que_out stored_one ++ que_in stored_one)
calm_in_order_example = calm_in_order stored_one-CalmReach

calm_defined_example : ¬ IsFault stored_one
calm_defined_example = calm_defined stored_one-CalmReach
