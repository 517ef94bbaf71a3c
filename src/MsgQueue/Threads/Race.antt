-- ===== src/MsgQueue/Threads/Race.antt =====
-- What the exchange without `spin_in` lets happen: a pop from an empty queue, and an overtaking.
use zpp_adapter.Prelude.{ℕ, ◌≡◌, refl, true, false, [], ◌∷◌, arith}
use zpp_adapter.Zsi.{ok, Semaphore}
use zpp_adapter.MsgQueue.Threads.{
  State, Step, enter, aim, put, load, skip, alert, post, lock, block, wake, swap, take, start,
  Reach, begun, later, Writer, Reader,
}

infixl 5 ◌▸◌
abbrev ◌▸◌ : {S : Semaphore} {T : Type 0} {s t : State S T} → Reach s → Step s t → Reach t
r ▸ st = later r st

wait-post : (S : Semaphore) (s : S.Sem) (ms : ℕ) → (S.wait (S.post s) ms).0 ≡ ok
wait-post S s ms = S.wait_ready _ ms (omega (arith, S.count-post s))

module _ (S : Semaphore) {T : Type 0} where
  -- One message pushed and signalled, and nothing else.
  abbrev one_pushed : T → State S T
  one_pushed x = record {
    first = x ∷ [];
    second = [];
    in_at = true;
    sem = S.post (S.init 0);
    writer = Writer.outside;
    reader = Reader.away;
    sent = x ∷ [];
    got = [];
  }

  one_pushed-Reach : (x : T) → Reach (one_pushed x)
  unfolding start
  one_pushed-Reach x =
      begun refl
      ▸ enter x refl
      ▸ aim x refl
      ▸ put x true refl
      ▸ load refl
      ▸ alert true refl refl
      ▸ post refl

  -- From any three pushes: a writer that has loaded `que_in` before the exchange stores behind the
  -- reader's back, and the message pushed after its own is handed over first.
  pub overtaking :
      (x y z : T) → (s : State S T) × Reach s × (s.sent ≡ x ∷ y ∷ z ∷ []) × (s.got ≡ x ∷ z ∷ [])
  overtaking x y z = (
    _,
    one_pushed-Reach x
        ▸ enter y refl
        ▸ aim y refl
        ▸ lock refl
        ▸ block refl refl
        ▸ wake 0 refl (wait-post S _ 0)
        ▸ swap refl
        ▸ take x [] refl refl
        ▸ lock refl
        ▸ block refl refl
        ▸ put y true refl
        ▸ load refl
        ▸ skip false refl (λ e. omega arith)
        ▸ enter z refl
        ▸ aim z refl
        ▸ put z false refl
        ▸ load refl
        ▸ alert false refl refl
        ▸ post refl
        ▸ wake 0 refl (wait-post S _ 0)
        ▸ swap refl
        ▸ take z [] refl refl,
    refl,
    refl,
  )
