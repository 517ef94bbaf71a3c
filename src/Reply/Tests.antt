-- ===== src/Reply/Tests.antt =====
-- A reply task at concrete inputs.
use zpp_adapter.Prelude.{ℕ, ◌+◌, none}
use zpp_adapter.Reply.{recv, Task}

abbrev task : Task ℕ
task = record { state = recv; aio_msg = none; req = none; rep = none }

abbrev add : ℕ → ℕ → ℕ
add a b = a + b
