-- ===== src/Poll.antt =====
-- One register of adapters/generic-modbus/adapter.py: `_read` over a transport, and `_emit_value` in its
-- three modes. A transport is a function from the request to the answer; the scaling of a value is float
-- arithmetic and is left out, so a value is the integer that `raw_value` gives.
pub mod Reading
pub mod History
pub mod Poller
pub mod Loop
pub mod Requests
pub mod Bounds
pub mod Polling
pub mod Tests
use open_machine_protocol.Prelude.{
  ℕ, ◌+◌, ◌%◌, String, Bool, true, false, not, Option, none, some, List, [], ◌∷◌, ◌==◌, ltb,
  if◌then◌else◌,
}
use open_machine_protocol.Prelude.Int.{ℤ, pos_part, neg_part, ltb_ℤ}
use open_machine_protocol.Dict.{Dict, lookup, insert}
use open_machine_protocol.Modbus.{
  Result, ok, ◌>>=◌, resolve_address, reg_count, build_read_tcp, parse_read_tcp, build_read_rtu,
  parse_read_rtu, raw_value,
}

abbrev pub Transport : Type 0
Transport = List ℕ → List ℕ

-- (tid + 1) & 0xFFFF
abbrev pub next_tid : ℕ → ℕ
next_tid tid = (tid + 1) % 65536

unfoldable pub read_tcp : Transport → ℕ → ℕ → ℤ → String → Result ℤ
unfolding resolve_address reg_count build_read_tcp parse_read_tcp raw_value
read_tcp transport tid unit_id address reg_type = do
  (func, offset) ← resolve_address address
  request ← build_read_tcp tid unit_id func offset (reg_count reg_type)
  regs ← parse_read_tcp (transport request) tid func
  raw_value regs reg_type

unfoldable pub read_rtu : Transport → ℕ → ℤ → String → Result ℤ
unfolding resolve_address reg_count build_read_rtu parse_read_rtu raw_value
read_rtu transport unit_id address reg_type = do
  (func, offset) ← resolve_address address
  request ← build_read_rtu unit_id func offset (reg_count reg_type)
  regs ← parse_read_rtu (transport request) unit_id func
  raw_value regs reg_type

-- `emit["mode"]`; with any other text nothing is emitted.
pub data Mode : Type 0 where
  stats on_increment on_change other : Mode

-- A sample for the window of the channel, an event with the new value, or an event with both states.
pub data Emission : Type 0 where
  sample : ℤ → Emission
  incremented : ℤ → Emission
  changed : ℤ → ℤ → Emission

abbrev pub eq_ℤ : ℤ → ℤ → Bool
eq_ℤ a b = pos_part a + neg_part b == pos_part b + neg_part a

-- What a read gives after an earlier one.
abbrev pub compare_values : Mode → ℤ → ℤ → Option Emission
compare_values on_increment prev value = if ltb_ℤ prev value then some (incremented value) else none
compare_values on_change prev value = if eq_ℤ value prev then none else some (changed prev value)
compare_values stats prev value = none
compare_values other prev value = none

-- The first read is the baseline and gives no event.
abbrev pub after_baseline : Mode → Option ℤ → ℤ → Option Emission
after_baseline mode none value = none
after_baseline mode (some prev) value = compare_values mode prev value

unfoldable pub emit_value : Mode → String → ℤ → Dict ℤ → Option Emission × Dict ℤ
unfolding lookup insert
emit_value stats name value last = (some (sample value), last)
emit_value on_increment name value last =
    (after_baseline on_increment (lookup name last) value, insert name value last)
emit_value on_change name value last =
    (after_baseline on_change (lookup name last) value, insert name value last)
emit_value other name value last = (none, insert name value last)

abbrev pub cons_some : Option Emission → List Emission → List Emission
cons_some none es = es
cons_some (some e) es = e ∷ es

-- The emissions of one register over the values that the polls read.
unfoldable pub emissions : Mode → String → List ℤ → Dict ℤ → List Emission
unfolding emit_value
emissions mode name [] last = []
emissions mode name (v ∷ vs) last =
    let (e, last') = emit_value mode name v last in cons_some e (emissions mode name vs last')
