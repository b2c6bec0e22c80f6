-- ===== src/Poll/Poller.antt =====
-- What a run of the polling loop of adapters/generic-modbus/adapter.py is given and keeps, the request and
-- the value of a register (`_read`), and what a value emits (`_emit_value`). Values are integers: the scale
-- of a register is 1.
use open_machine_protocol.Prelude.{
  ℕ, String, Bool, true, false, Option, none, some, List, [], ◌∷◌, ◌++◌, if◌then◌else◌,
}
use open_machine_protocol.Prelude.Int.{ℤ}
use open_machine_protocol.Dict.{Dict}
use open_machine_protocol.Modbus.{
  Fault, Result, ok, ◌>>=◌, resolve_address, reg_count, build_read_tcp, parse_read_tcp,
  build_read_rtu, parse_read_rtu, raw_value,
}
use open_machine_protocol.Adapter.{Base}
use open_machine_protocol.Serial.{Acc, Block, add}
use open_machine_protocol.Poll.{Mode, Emission, emit_value}

pub record Register : Type 0 where
  pub name : String
  pub address : ℤ
  pub reg_type : String
  pub mode : Mode
  pub channel : String
  pub unit : String

-- The configuration, and the texts of exceptions.
pub record Setup : Type 0 where
  pub registers : List Register
  pub is_tcp : Bool
  pub unit_id : ℕ
  pub window : ℕ
  pub max_polls : ℕ
  pub fault_text : Fault → String

-- What a request gets: bytes, or an exception with its text.
pub data Answer : Type 0 where
  answers : List ℕ → Answer
  raises : String → Answer

-- The world of a run: by the number of the attempt, whether connecting raises (with the text of the mark);
-- by the number of the request, what it gets and the clock; by the round, whether the stop event is set.
pub record Device : Type 0 where
  pub connects : ℕ → Option String
  pub asks : ℕ → List ℕ → Answer
  pub stops : ℕ → Bool
  pub now : ℕ → String
  pub mono : ℕ → ℕ

pub data Message : Type 0 where
  telemetry : Block → Message
  event : Register → Emission → Message

pub record Poller : Type 0 where
  pub base : Base
  pub linked : Bool
  pub tid : ℕ
  pub attempts : ℕ
  pub asked : List (List ℕ)
  pub asks_made : ℕ
  pub acc : Dict Acc
  pub last : Dict ℤ
  pub sent : List Message
  pub delays : List ℕ
  pub polls : ℕ

abbrev pub idle : Base → Poller
idle b = record {
  base = b;
  linked = false;
  tid = 0;
  attempts = 0;
  asked = [];
  asks_made = 0;
  acc = [];
  last = [];
  sent = [];
  delays = [];
  polls = 0;
}

-- The exceptions that are a ModbusError; index and struct errors are not.
abbrev pub is_modbus_error : Fault → Bool
is_modbus_error Fault.index_error = false
is_modbus_error Fault.struct_error = false
is_modbus_error _ = true

-- `_read` up to the request, and from the answer on.
unfoldable pub request_of : Setup → ℕ → Register → Result (ℕ × List ℕ)
unfolding resolve_address reg_count build_read_tcp build_read_rtu
request_of setup tid reg = do
  (func, offset) ← resolve_address reg.address
  request ←
      (if setup.is_tcp
        then build_read_tcp tid setup.unit_id func offset (reg_count reg.reg_type)
        else build_read_rtu setup.unit_id func offset (reg_count reg.reg_type))
  ok (func, request)

unfoldable pub value_of : Setup → ℕ → Register → ℕ → List ℕ → Result ℤ
unfolding parse_read_tcp parse_read_rtu raw_value
value_of setup tid reg func frame = do
  regs ←
      (if setup.is_tcp
        then parse_read_tcp frame tid func
        else parse_read_rtu frame setup.unit_id func)
  raw_value regs reg.reg_type

-- How a round over the registers ends: they are all read, a ModbusError, or another exception.
pub data Ended : Type 0 where
  all_read : Ended
  modbus_error : String → Ended
  link_dropped : String → Ended

abbrev pub failed : Setup → Fault → Ended
failed setup f =
    if is_modbus_error f
    then modbus_error (setup.fault_text f)
    else link_dropped (setup.fault_text f)

abbrev pub with_block : Option Block → List Message → List Message
with_block none sent = sent
with_block (some block) sent = sent ++ telemetry block ∷ []

abbrev pub with_event : Register → Option Emission → List Message → List Message
with_event reg none sent = sent
with_event reg (some emission) sent = sent ++ event reg emission ∷ []

-- The event of a register in another mode than `stats`, if there is one.
unfoldable pub emit_event : Register → ℤ → Poller → Poller
unfolding emit_value
emit_event reg value s =
    let (emission, last) = emit_value reg.mode reg.name value s.last in
    record s { last = last; sent = with_event reg emission s.sent }

-- `_Stats.add` for a register in `stats` mode.
unfoldable pub emit_sample : Setup → Device → Register → ℤ → Poller → Poller
unfolding add
emit_sample setup device reg value s =
    let (block, acc) =
      add setup.window reg.channel reg.unit value (device.now s.asks_made) (device.mono s.asks_made)
        s.acc in
    record s { acc = acc; sent = with_block block s.sent }

abbrev pub is_stats : Mode → Bool
is_stats Mode.stats = true
is_stats Mode.on_increment = false
is_stats Mode.on_change = false
is_stats Mode.other = false

-- `_emit_value`
unfoldable pub emit_register : Setup → Device → Register → ℤ → Poller → Poller
unfolding emit_sample emit_event
emit_register setup device reg value s =
    if is_stats reg.mode then emit_sample setup device reg value s else emit_event reg value s

-- The blocks of the windows that are open at the end.
unfoldable pub flushed : List Block → List Message
flushed [] = []
flushed (b ∷ bs) = telemetry b ∷ flushed bs
