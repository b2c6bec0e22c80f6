-- ===== src/Adapter/Tests.antt =====
-- An adapter that connects and then crashes each time, with a limit of two crashes.
use open_machine_protocol.Prelude.{ℕ, String, Bool, false, some, [], ◌∷◌, arith}
use open_machine_protocol.Adapter.{Attempt, fresh_base, connected, supervise}
use open_machine_protocol.Adapter.Backoff.{InRange}
use open_machine_protocol.Adapter.Supervise.{Ends, limit, supervise-Ends}

abbrev crashing : ℕ → Attempt
crashing n = record { marks = connected "now" ∷ []; raised = some "port is gone" }

abbrev message : ℕ → String → String
message n exc = exc

abbrev never : ℕ → Bool
never n = false

fresh-InRange : InRange fresh_base
fresh-InRange = record { least = omega arith; most = omega arith }

supervise-Ends_example :
    Ends 2 0 (supervise message message 2 crashing never never (limit 2) 0 fresh_base)
supervise-Ends_example =
    supervise-Ends message message 2 crashing never never fresh_base fresh-InRange
