-- ===== src/Event2.antt =====
-- zpp/event2/core.h and zpp/src/event2_core.cpp: which objects of libevent the wrappers free, and the
-- times that they hand over.
pub mod Freed
use zpp_adapter.Prelude.{
  ℕ, zero, suc, ◌+◌, ◌*◌, ◌/◌, ◌%◌, ◌≡◌, Bool, true, false, ◌==◌, if◌then◌else◌, Option, none, some,
  List, [], ◌∷◌, ℤ, pos, negsuc,
}

-- `Event`, `BufferEvent` and `EvBuffer`: the object of libevent, `none` for NULL, and `need_free`,
-- `none` where it is not set.
pub record Owner : Type 0 where
  pub handle : Option ℕ
  pub need_free : Option Bool

-- `EventNew`, with what `event_new` gives; `none` is the result NULL.
pub event_new : Option ℕ → Option Owner
event_new none = none
event_new (some ev) = some (record { handle = some ev; need_free = some true })

-- `EventAssign` on the wrapper. `tracing` is `ZLIBEV_TRACE`, which core.h sets: only without it is
-- `need_free` cleared.
pub event_assign : (tracing : Bool) → Owner → Owner
event_assign tracing e = if tracing then e else record e { need_free = some false }

-- The constructors of `BufferEvent` for a socket and for a filter.
pub new_buffer_event : Option ℕ → Owner
new_buffer_event bev = record { handle = bev; need_free = some false }

-- `EvBuffer()`.
pub new_ev_buffer : Option ℕ → Owner
new_ev_buffer buf = record { handle = buf; need_free = none }

pub set_free : Bool → Owner → Owner
set_free nf o = record o { need_free = some nf }

-- What the destructor frees; `none` is a test of what is not set.
pub destroy : Owner → Option (Option ℕ)
destroy o = elim o.need_free [ none ↦ none | some need ↦ some (if need then o.handle else none) ]

-- `~Listener`, for what its constructor got.
pub destroy_listener : Option ℕ → Option ℕ
destroy_listener none = none
destroy_listener (some l) = some l

-- `Event::Add(uint32_t)`: seconds and microseconds.
pub add_timeval : ℕ → ℕ × ℕ
add_timeval ms = (ms / 1000, ms % 1000 * 1000)

abbrev minus : ℕ → ℤ
minus zero = pos 0
minus (suc n) = negsuc n

-- Seconds and microseconds of an `int`; division goes towards 0.
abbrev pub timeval : ℤ → ℤ × ℤ
timeval (pos ms) = (pos (ms / 1000), pos (ms % 1000 * 1000))
timeval (negsuc n) = (minus ((n + 1) / 1000), minus ((n + 1) % 1000 * 1000))

-- `SetTimeouts`: what is handed over for reading and for writing, `none` for NULL.
abbrev one_timeout : ℤ → Option (ℤ × ℤ)
one_timeout (pos zero) = none
one_timeout ms = some (timeval ms)

pub set_timeouts : ℤ → ℤ → Option (ℤ × ℤ) × Option (ℤ × ℤ)
set_timeouts read_ms write_ms = (one_timeout read_ms, one_timeout write_ms)
