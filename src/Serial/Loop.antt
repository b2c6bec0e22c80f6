-- ===== src/Serial/Loop.antt =====
-- adapters/generic-serial/adapter.py: `_handle`, `_run_lines`, `_flush` and a replay by `start`, with the
-- marks on the adapter's health. `emit` is a sink that returns. A sample that is no integer ends the
-- model's run (`other_sample`); the code puts a float in its window as it does an integer.
use open_machine_protocol.Prelude.{
  ℕ, String, Bool, true, false, Option, none, some, List, [], ◌∷◌, ◌++◌, if◌then◌else◌,
}
use open_machine_protocol.Prelude.Int.{ℤ}
use open_machine_protocol.Dict.{Dict}
use open_machine_protocol.Json.{Value}
use open_machine_protocol.Adapter.{Base, mark_connected, mark_data, mark_degraded}
use open_machine_protocol.Serial.{
  Groups, Emit, Num, Emission, reading, event_body, ParseError, Parsed, emits, nothing, fails,
  parse_line, Acc, Block, add, flush,
}

pub data Message : Type 0 where
  telemetry : Block → Message
  event : String → Dict Value → Message

pub record Running : Type 0 where
  pub base : Base
  pub acc : Dict Acc
  pub sent : List Message

pub data Escape : Type 0 where
  exception : ParseError → Escape
  other_sample : Value → Escape

-- A call returns, or an exception leaves it.
pub data Handled : Type 0 where
  returned : Running → Handled
  escaped : Escape → Running → Handled

-- What the clocks read as a line is handled, and whether the stop event is set before it.
pub record Tick : Type 0 where
  pub stop : Bool
  pub data_ts : String
  pub sample_ts : String
  pub mono : ℕ

-- `except ValueError`
abbrev pub is_value_error : ParseError → Bool
is_value_error (ParseError.bad_schema schema) = true
is_value_error ParseError.not_a_number = true
is_value_error ParseError.infinite_number = false
is_value_error ParseError.no_text = false
is_value_error (ParseError.no_group group) = false

abbrev pub with_block : Option Block → List Message → List Message
with_block none sent = sent
with_block (some block) sent = sent ++ telemetry block ∷ []

unfoldable pub take_sample : ℕ → String → String → ℤ → Tick → Running → Running
unfolding add
take_sample window channel unit v tick r =
    let (block, acc) = add window channel unit v tick.sample_ts tick.mono r.acc in
    record r { acc = acc; sent = with_block block r.sent }

unfoldable pub handle_emission : ℕ → Emission → Tick → Running → Handled
unfolding take_sample
handle_emission window (event_body event_type payload) tick r =
    returned (record r { sent = r.sent ++ event event_type payload ∷ [] })
handle_emission window (reading channel unit (Value.int v)) tick r =
    returned (take_sample window channel unit v tick r)
handle_emission window (reading channel unit other) tick r = escaped (other_sample other) r

-- The configuration of a run: the parameters of `parse_line`, the text of an exception, and the window.
pub record Setup : Type 0 where
  pub num : String → Num
  pub strip : String → String
  pub patterns : List ((String → Option Groups) × Emit)
  pub error_text : ParseError → String
  pub window : ℕ

module _ (setup : Setup) where
  unfoldable pub handle_parsed : Parsed → Tick → Running → Handled
  unfolding mark_degraded mark_data handle_emission
  handle_parsed nothing tick r = returned r
  handle_parsed (fails e) tick r =
      if is_value_error e
      then returned (record r { base = mark_degraded (setup.error_text e) r.base })
      else escaped (exception e) r
  handle_parsed (emits emission) tick r =
      handle_emission setup.window emission tick (record r { base = mark_data tick.data_ts r.base })

  unfoldable pub handle : String → Tick → Running → Handled
  unfolding parse_line handle_parsed
  handle line tick r = handle_parsed (parse_line setup.num setup.strip setup.patterns line) tick r

  unfoldable pub handle_lines : List (String × Tick) → Running → Handled
  unfolding handle
  handle_lines [] r = returned r
  handle_lines ((line, tick) ∷ lines) r =
      if tick.stop then returned r else elim (handle line tick r) [
        | returned r' ↦ handle_lines lines r'
        | escaped e r' ↦ escaped e r'
      ]

  unfoldable pub run_lines : String → List (String × Tick) → Running → Handled
  unfolding mark_connected handle_lines
  run_lines now lines r = handle_lines lines (record r { base = mark_connected now r.base })

unfoldable pub blocks_sent : List Block → List Message
blocks_sent [] = []
blocks_sent (b ∷ bs) = telemetry b ∷ blocks_sent bs

-- `_flush` empties the aggregator.
unfoldable pub flush_all : String → Running → Running
unfolding flush blocks_sent
flush_all now r = record r { acc = []; sent = r.sent ++ blocks_sent (flush now r.acc) }

-- `start` with a `replay_file`, up to the wait for the stop event.
unfoldable pub replay : Setup → String → String → List (String × Tick) → Base → Handled
unfolding run_lines flush_all
replay setup now end_ts lines b =
    elim (run_lines setup now lines (record { base = b; acc = []; sent = [] })) [
      | returned r ↦ returned (flush_all end_ts r)
      | escaped e r ↦ escaped e r
    ]
