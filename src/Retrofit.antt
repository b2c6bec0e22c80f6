-- ===== src/Retrofit.antt =====
-- `_handle` of adapters/retrofit-esp32/adapter.py, on a message as `json.loads` gives it. The
-- clock and `int` of a text are parameters.
pub mod Bodies
pub mod Tests
use open_machine_protocol.Prelude.{
  ℕ, suc, ◌+◌, ◌*◌, ◌/◌, ◌^◌, String, Bool, true, false, not, ◌&&◌, ◌||◌, Option, none, some, List,
  [], ◌∷◌, str_eq, ◌==◌, if◌then◌else◌,
}
use open_machine_protocol.Prelude.Int.{ℤ, pos, negsuc, sub_ℕ}
use open_machine_protocol.Json.{Float, Value, Items, Fields, get}
use open_machine_protocol.Engine.{Body}
use open_machine_protocol.Adapter.{Base, mark_data, mark_degraded}

-- `if v`
abbrev pub truthy : Value → Bool
truthy Value.null = false
truthy (Value.boolean b) = b
truthy (Value.int (pos n)) = not (n == 0)
truthy (Value.int (negsuc n)) = true
truthy (Value.float Float.nan) = true
truthy (Value.float (Float.infinite negative)) = true
truthy (Value.float (Float.finite negative m e)) = not (m == 0)
truthy (Value.text s) = not (str_eq s "")
truthy (Value.list Items.nil) = false
truthy (Value.list (Items.cons v vs)) = true
truthy (Value.dict Fields.end) = false
truthy (Value.dict (Fields.field k v fs)) = true

abbrev pub is_text : String → Value → Bool
is_text k (Value.text s) = str_eq s k
is_text k _ = false

abbrev pub signed : Bool → ℕ → ℤ
signed negative n = if negative then sub_ℕ 0 n else pos n

-- Of a finite float, toward zero.
abbrev pub truncate : Bool → ℕ → ℤ → ℤ
truncate negative m (pos e) = signed negative (m * 2 ^ e)
truncate negative m (negsuc e) = signed negative (m / 2 ^ suc e)

module _ (parse_int : String → Option ℤ) where
  -- int(v); `none` is ValueError, OverflowError or TypeError
  abbrev pub int_of : Value → Option ℤ
  int_of (Value.int n) = some n
  int_of (Value.boolean b) = some (if b then pos 1 else pos 0)
  int_of (Value.float (Float.finite negative m e)) = some (truncate negative m e)
  int_of (Value.text s) = parse_int s
  int_of _ = none

-- The time now, and the time so many seconds before, which is `none` on OverflowError.
pub record Clock : Type 0 where
  pub now : String
  pub before : ℤ → Option String

-- What a call emits and marks, and whether an exception escapes it.
pub record Handled : Type 0 where
  pub emits : List Body
  pub base : Base
  pub crashed : Bool

abbrev pub dropped_body : ℤ → Body
dropped_body n = record {
  schema = "event";
  profile = "generic/0.1";
  body = Fields.field "event_type" (Value.text "maintenance_flag") (
      Fields.field "payload"
        (Value.dict (
          Fields.field "flag" (Value.text "node_dropped_messages")
            (Fields.field "count" (Value.int n) Fields.end)))
        Fields.end);
  event_ts = none;
}

abbrev pub load_body : String → Body
load_body event = record {
  schema = "event";
  profile = "generic/0.1";
  body = Fields.field "event_type" (Value.text event) (
      Fields.field "payload"
        (Value.dict (Fields.field "reason" (Value.text "load_threshold") Fields.end)) Fields.end);
  event_ts = none;
}

abbrev pub energy_body : ℤ → String → String → Body
energy_body wh start end_ts = record {
  schema = "energy";
  profile = "generic/0.1";
  body = Fields.field "metric" (Value.text "wh") (
      Fields.field "value" (Value.int wh) (
        Fields.field "interval"
          (Value.dict (
            Fields.field "start_ts" (Value.text start)
              (Fields.field "end_ts" (Value.text end_ts) Fields.end)))
          (Fields.field "source" (Value.text "ct_clamp") Fields.end)));
  event_ts = some end_ts;
}

abbrev pub crash : Base → Handled
crash b = record { emits = []; base = b; crashed = true }

abbrev pub quiet : Base → Handled
quiet b = record { emits = []; base = b; crashed = false }

abbrev pub emits_one : Base → Body → Handled
emits_one b body = record { emits = body ∷ []; base = b; crashed = false }

-- `msg.get("event") in ("start", "stop")`, with the text
abbrev pub load_event : Option Value → Option String
load_event (some (Value.text s)) = if str_eq s "start" || str_eq s "stop" then some s else none
load_event _ = none

-- the test of the second branch
abbrev pub event_of : Value → Fields → Option String
event_of mtype msg = if is_text "event" mtype then load_event (get "event" msg) else none

module _ (parse_int : String → Option ℤ) (clock : Clock) where
  abbrev pub int_at : String → Fields → Option ℤ
  int_at k msg = elim (get k msg) [ none ↦ none | some v ↦ int_of parse_int v ]

  unfoldable pub on_hello : Fields → Base → Handled
  on_hello msg b = elim (get "dropped_while_offline" msg) [
    | none ↦ quiet b
    | some v ↦
        if not (truthy v)
        then quiet b
        else elim (int_of parse_int v) [ none ↦ crash b | some n ↦ emits_one b (dropped_body n) ]
  ]

  unfoldable pub on_energy : Fields → Base → Handled
  on_energy msg b = elim (int_at "interval_s" msg) [
    | none ↦ crash b
    | some seconds ↦ elim (clock.before seconds) [
      | none ↦ crash b
      | some start ↦ elim (int_at "wh" msg) [
        | none ↦ crash b
        | some wh ↦ emits_one b (energy_body wh start clock.now)
      ]
    ]
  ]

  -- A message with a `type`; the text of an unknown type's mark is the caller's.
  unfoldable pub on_type : String → Fields → Value → Base → Handled
  unfolding on_hello on_energy
  on_type unknown msg mtype b =
      if is_text "hello" mtype then on_hello msg b else elim (event_of mtype msg) [
        | some event ↦ emits_one b (load_body event)
        | none ↦ if is_text "energy" mtype then on_energy msg b else quiet (mark_degraded unknown b)
      ]

  -- `none` is a text that is no JSON. A value that is no object raises TypeError at `msg["type"]`, which
  -- is not caught.
  unfoldable pub handle : String → String → Option Value → Base → Handled
  unfolding on_type mark_data mark_degraded
  handle bad unknown none b = quiet (mark_degraded bad b)
  handle bad unknown (some (Value.dict msg)) b = elim (get "type" msg) [
    | none ↦ quiet (mark_degraded bad b)
    | some mtype ↦ on_type unknown msg mtype (mark_data clock.now b)
  ]
  handle bad unknown (some Value.null) b = crash b
  handle bad unknown (some (Value.boolean v)) b = crash b
  handle bad unknown (some (Value.int n)) b = crash b
  handle bad unknown (some (Value.float f)) b = crash b
  handle bad unknown (some (Value.text s)) b = crash b
  handle bad unknown (some (Value.list vs)) b = crash b
