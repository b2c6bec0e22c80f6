-- ===== src/Retrofit/Tests.antt =====
-- A hello message that reports five dropped messages.
use open_machine_protocol.Prelude.{String, Option, some, none, All}
use open_machine_protocol.Prelude.Int.{ℤ, pos}
use open_machine_protocol.Json.{Value, Fields}
use open_machine_protocol.Fixture.{primitives}
use open_machine_protocol.Adapter.{fresh_base}
use open_machine_protocol.Retrofit.{Clock, handle}
use open_machine_protocol.Retrofit.Bodies.{MakesEnvelope, handle-AllMake}

abbrev clock : Clock
clock = record { now = "t1"; before = λ _. some "t0" }

abbrev no_number : String → Option ℤ
no_number s = none

abbrev hello : Value
hello = Value.dict (
    Fields.field "type" (Value.text "hello")
      (Fields.field "dropped_while_offline" (Value.int (pos 5)) Fields.end))

handle-AllMake_example :
    All
      (MakesEnvelope primitives "gw" "press" 1 "now")
      (handle no_number clock "bad" "unknown" (some hello) fresh_base).emits
handle-AllMake_example =
    handle-AllMake primitives "gw" "press" 1 "now" no_number clock "bad" "unknown" (some hello)
      fresh_base
