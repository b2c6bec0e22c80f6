-- ===== src/Poll/Tests.antt =====
-- A device with one register that answers a request, and a register that is polled four times.
use open_machine_protocol.Prelude.{
  ℕ, ◌≡◌, refl, true, Option, none, some, List, [], ◌∷◌, ◌++◌, arith, All, ◌==◌, if◌then◌else◌,
}
use open_machine_protocol.Prelude.Int.{ℤ, pos, negsuc}
use open_machine_protocol.Dict.{lookup}
use open_machine_protocol.Modbus.{ok}
use open_machine_protocol.Modbus.Address.{holding}
use open_machine_protocol.Modbus.Frames.{response_tcp}
use open_machine_protocol.Poll.{Transport, read_tcp, on_change, emissions}
use open_machine_protocol.Poll.History.{history, changes, emissions-tell_history}
use open_machine_protocol.Poll.Reading.{s16, name_of, negative, read_tcp-value}
use open_machine_protocol.Adapter.{fresh_base}
use open_machine_protocol.Poll.Loop.{start}
use open_machine_protocol.Poll.Poller.{Setup, Device, raises, Poller}
use open_machine_protocol.Poll.Requests.{IsReadRequest}
use open_machine_protocol.Poll.Bounds.{IsDelay}
use open_machine_protocol.Poll.Polling.{start-IsPolling}

abbrev device : Transport
device request = response_tcp 7 1 3 (65535 ∷ []) ++ []

read_tcp-value_example : read_tcp device 7 1 (pos 40005) (name_of s16) ≡ ok (negsuc 0)
read_tcp-value_example =
    read_tcp-value device 7 1 40005 3 4 s16 (negsuc 0) (65535 ∷ []) [] (omega arith) (omega arith)
      (holding refl (omega arith) (omega arith)) (negative 0 65535 (omega arith) refl) refl

abbrev later : List ℤ
later = pos 1 ∷ pos 2 ∷ negsuc 0 ∷ []

emissions-tell_history_example :
    emissions on_change "state" (pos 1 ∷ later) [] ≡ history (pos 1) (changes (pos 1) later)
unfolding lookup
emissions-tell_history_example = emissions-tell_history "state" (pos 1) later [] refl

-- One register over TCP, a device that refuses the first connection and drops the first request.
abbrev polled : Setup
polled = record {
  registers =
      record {
        name = "count";
        address = pos 40001;
        reg_type = "u16";
        mode = on_change;
        channel = "";
        unit = "";
      }
      ∷ [];
  is_tcp = true;
  unit_id = 1;
  window = 60;
  max_polls = 0;
  fault_text = λ f. "fault";
}

abbrev flaky : Device
flaky = record {
  connects = λ i. if i == 0 then some "refused" else none;
  asks = λ i request. raises "dropped";
  stops = λ i. i == 2;
  now = λ i. "t";
  mono = λ i. i;
}

start-IsPolling_example :
    (t : Poller) × (start polled flaky 3 "end" fresh_base ≡ some t)
    × All (IsReadRequest polled) t.asked
    × All IsDelay t.delays
start-IsPolling_example =
    start-IsPolling polled flaky 3 2 "end" fresh_base refl (omega arith) (omega arith, omega arith)

abbrev delays_of : Option Poller → List ℕ
delays_of none = []
delays_of (some t) = t.delays

delays_begin_anew : delays_of (start polled flaky 3 "end" fresh_base) ≡ 1 ∷ 1 ∷ []
unfolding start
delays_begin_anew = refl
