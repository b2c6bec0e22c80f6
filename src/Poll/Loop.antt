-- ===== src/Poll/Loop.antt =====
-- `start` of adapters/generic-modbus/adapter.py: the polling loop with its reconnections and the marks on the
-- adapter's health. What connecting and asking give are parameters; `emit` is a sink that returns.
use open_machine_protocol.Prelude.{
  ℕ, zero, suc, ◌+◌, String, Bool, true, false, not, ◌&&◌, Option, none, some, List, [], ◌∷◌, ◌++◌,
  ◌==◌, leb, if◌then◌else◌,
}
use open_machine_protocol.Prelude.Int.{ℤ}
use open_machine_protocol.Modbus.{Result, ok, raised}
use open_machine_protocol.Adapter.{
  Base, mark_connected, mark_data, mark_degraded, mark_disconnected, backoff,
}
use open_machine_protocol.Serial.{flush}
use open_machine_protocol.Poll.{next_tid}
use open_machine_protocol.Poll.Poller.{
  Register, Setup, Answer, answers, raises, Device, Poller, idle, request_of, value_of, Ended,
  all_read, modbus_error, link_dropped, failed, emit_register, flushed,
}

module _ (setup : Setup) (device : Device) where
  unfoldable pub got_value : Register → Result ℤ → Poller → Ended × Poller
  unfolding mark_data emit_register
  got_value reg (ok value) s = (
    all_read,
    emit_register setup device reg value
        (record s { base = mark_data (device.now s.asks_made) s.base }),
  )
  got_value reg (raised f) s = (failed setup f, s)

  unfoldable pub got_answer : Register → ℕ → Answer → Poller → Ended × Poller
  unfolding value_of got_value
  got_answer reg func (raises why) s = (link_dropped why, s)
  got_answer reg func (answers frame) s = got_value reg (value_of setup s.tid reg func frame) s

  -- One register: the next transaction, the request and what comes of it.
  unfoldable pub poll_register : Register → Poller → Ended × Poller
  unfolding request_of got_answer
  poll_register reg s =
      let s' = record s { tid = next_tid s.tid } in
      elim (request_of setup s'.tid reg) [
        | raised f ↦ (failed setup f, s')
        | ok (func, request) ↦
            got_answer reg func (device.asks s.asks_made request)
              (record s' { asked = s.asked ++ request ∷ []; asks_made = s.asks_made + 1 })
      ]

  -- The `for` over the registers, which an exception leaves.
  unfoldable pub poll_registers : List Register → Poller → Ended × Poller
  unfolding poll_register
  poll_registers [] s = (all_read, s)
  poll_registers (reg ∷ regs) s =
      let (ended, s') = poll_register reg s in
      elim ended [
        | all_read ↦ poll_registers regs s'
        | modbus_error why ↦ (modbus_error why, s')
        | link_dropped why ↦ (link_dropped why, s')
      ]

  -- `_mark_disconnected` and the wait for `backoff()`
  unfoldable pub lose_link : String → Poller → Poller
  unfolding mark_disconnected backoff
  lose_link why s =
      let (delay, b) = backoff (mark_disconnected why s.base) in
      record s { base = b; linked = false; delays = s.delays ++ delay ∷ [] }

  -- What follows a round: whether the loop goes on, and with what.
  unfoldable pub after_round : Ended → Poller → Poller
  unfolding mark_degraded lose_link
  after_round all_read s = record s { polls = s.polls + 1 }
  after_round (modbus_error why) s = record s {
    base = mark_degraded why s.base;
    polls = s.polls + 1;
  }
  after_round (link_dropped why) s = lose_link why s

  unfoldable pub poll : Poller → Poller
  unfolding poll_registers after_round
  poll s = let (ended, s') = poll_registers setup.registers s in after_round ended s'

  -- A round of the loop: connect if there is no link, and poll if there is one then.
  unfoldable pub round : Poller → Poller
  unfolding poll mark_connected lose_link
  round s = if s.linked then poll s else elim (device.connects s.attempts) [
    | some why ↦ lose_link why (record s { attempts = s.attempts + 1 })
    | none ↦ poll (record s {
      base = mark_connected (device.now s.asks_made) s.base;
      linked = true;
      attempts = s.attempts + 1;
    })
  ]

  -- `max_polls and polls >= max_polls`, which is tested after a round that kept its link
  abbrev pub is_last : Poller → Bool
  is_last s = s.linked && not (setup.max_polls == 0) && leb setup.max_polls s.polls

  -- The loop, with a unit of fuel for each round; `none` where it is used up.
  unfoldable pub run_loop : ℕ → ℕ → Poller → Option Poller
  unfolding round
  run_loop zero i s = none
  run_loop (suc fuel) i s = elim (device.stops i) [
    | true ↦ some s
    | false ↦
        let s' = round s in elim (is_last s') [ true ↦ some s' | false ↦ run_loop fuel (i + 1) s' ]
  ]

  -- `start`, up to its last wait.
  unfoldable pub start : ℕ → String → Base → Option Poller
  unfolding run_loop flush flushed
  start fuel end_ts b = elim (run_loop fuel 0 (idle b)) [
    | none ↦ none
    | some s ↦ some (record s { acc = []; sent = s.sent ++ flushed (flush end_ts s.acc) })
  ]
