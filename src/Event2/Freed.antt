-- ===== src/Event2/Freed.antt =====
-- What the destructors of the wrappers free, and that no time is lost.
use zpp_adapter.Prelude.{
  ℕ, suc, ◌+◌, ◌*◌, ◌<◌, ◌≡◌, refl, Bool, false, if◌then◌else◌, Option, none, some, List, [], ◌∷◌,
  pos, arith,
}
use zpp_adapter.Event2.{
  Owner, event_new, event_assign, new_buffer_event, new_ev_buffer, set_free, destroy, add_timeval,
  set_timeouts,
}

pub set_frees : List Bool → Owner → Owner
set_frees [] o = o
set_frees (b ∷ bs) o = set_frees bs (set_free b o)

abbrev pub last : Option Bool → List Bool → Option Bool
last old [] = old
last old (b ∷ bs) = last (some b) bs

destroy-set_frees :
    (bs : List Bool) (h : Option ℕ) (need : Option Bool)
    → destroy (set_frees bs (record { handle = h; need_free = need }))
      ≡ elim (last need bs) [ none ↦ none | some b ↦ some (if b then h else none) ]
unfolding destroy set_frees set_free
destroy-set_frees [] h none = refl
destroy-set_frees [] h (some b) = refl
destroy-set_frees (b ∷ bs) h need = destroy-set_frees bs h (some b)

-- The destructor of a `BufferEvent` frees what its constructor got only if the last `SetFree` asked for
-- it, and without one nothing; that of an `EvBuffer` without a `SetFree` tests what was never set. An
-- `Event` that `EventNew` made is freed, but not after an `EventAssign` without tracing.
pub destroy_lem :
    (got : Option ℕ) (ev : ℕ) (tracing : Bool) (bs : List Bool)
    → (destroy (set_frees bs (new_buffer_event got))
        ≡ elim (last (some false) bs) [ none ↦ none | some b ↦ some (if b then got else none) ])
      × (destroy (set_frees bs (new_ev_buffer got))
          ≡ elim (last none bs) [ none ↦ none | some b ↦ some (if b then got else none) ])
      × (elim (event_new (some ev)) [ none ↦ none | some e ↦ destroy e ] ≡ some (some ev))
      × (elim (event_new (some ev)) [ none ↦ none | some e ↦ destroy (event_assign tracing e) ]
          ≡ some (if tracing then some ev else none))
unfolding new_buffer_event new_ev_buffer event_new event_assign destroy
destroy_lem got ev tracing bs =
    (destroy-set_frees bs got (some false), destroy-set_frees bs got none, refl, ground arith)

-- The time of `Add` is the milliseconds exactly, with fewer microseconds than a second has; and
-- `SetTimeouts` hands over the same for a time of reading that is not 0, and NULL for one of writing
-- that is 0.
pub add_timeval_lem :
    (ms : ℕ)
    → let (sec, usec) = add_timeval ms in
      (sec * 1000000 + usec ≡ ms * 1000)
      × (usec < 1000000)
      × (set_timeouts (pos (suc ms)) (pos 0)
          ≡ (some (pos (add_timeval (suc ms)).0, pos (add_timeval (suc ms)).1), none))
unfolding add_timeval set_timeouts
add_timeval_lem ms = (omega arith, omega arith, refl)
