-- ===== src/Engine/Tests.antt =====
-- A call of `process` on the empty store.
use open_machine_protocol.Fixture.{primitives, gateway, alarm}
use open_machine_protocol.Store.{empty}
use open_machine_protocol.Store.Invariant.{empty-IsValid}
use open_machine_protocol.Engine.{process}
use open_machine_protocol.Engine.Totality.{Processed, process-Processed}

process-Processed_example :
    Processed primitives gateway "press" 5 empty
      (process primitives gateway "press" alarm "now" 5 empty)
process-Processed_example =
    process-Processed primitives gateway "press" 5 empty alarm "now" empty-IsValid
