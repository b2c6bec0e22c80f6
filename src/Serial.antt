-- ===== src/Serial.antt =====
-- adapters/generic-serial/protocol.py: `parse_line` on the compiled patterns of a line profile, and the
-- aggregation of samples. `regex.match` and `float` are parameters; samples are integers.
pub mod Payload
pub mod Window
pub mod Loop
pub mod Distinct
pub mod Tally
pub mod Lines
pub mod Flushed
pub mod Replay
pub mod Tests
use open_machine_protocol.Prelude.{
  ℕ, suc, ◌+◌, ◌-◌, ◌/◌, String, Bool, true, false, not, Option, none, some, List, [], ◌∷◌, map,
  str_eq, leb, if◌then◌else◌,
}
use open_machine_protocol.Prelude.Int.{ℤ, pos, negsuc, ◌+ℤ◌, ltb_ℤ, sub_ℕ}
use open_machine_protocol.Dict.{Dict, lookup, insert, delete}
use open_machine_protocol.Json.{Value, Fields}

-- A named group is `none` where it took no part in the match.
abbrev pub Groups : Type 0
Groups = Dict (Option String)

-- The `emit` of a pattern: `schema` with what goes with it.
pub data Emit : Type 0 where
  telemetry : String → String → String → Emit
  event : String → Dict Value → Emit
  unsupported : String → Emit

pub data Emission : Type 0 where
  reading : String → String → Value → Emission
  event_body : String → Dict Value → Emission

-- ValueError for an emit schema and at int(nan), OverflowError at int(inf), TypeError for a group without
-- a text, KeyError.
pub data ParseError : Type 0 where
  bad_schema : String → ParseError
  not_a_number infinite_number no_text : ParseError
  no_group : String → ParseError

-- What `float` and `int` make of a text: a value, which is the text itself where `float` refuses it, or
-- the float that is no number or is infinite.
pub data Num : Type 0 where
  written : Value → Num
  nan infinite : Num

pub data Parsed : Type 0 where
  emits : Emission → Parsed
  nothing : Parsed
  fails : ParseError → Parsed

abbrev pub captured : Option String → Value
captured none = Value.null
captured (some s) = Value.text s

-- groups.get(ref, ref)
abbrev pub group_or : Groups → String → Value
group_or groups ref = elim (lookup ref groups) [ none ↦ Value.text ref | some g ↦ captured g ]

-- The value of one payload key; the second assignment of the loop writes the same value again.
unfoldable pub payload_value : Groups → Value → Value
unfolding lookup
payload_value groups (Value.text ref) = group_or groups ref
payload_value groups Value.null = Value.null
payload_value groups (Value.boolean b) = Value.boolean b
payload_value groups (Value.int n) = Value.int n
payload_value groups (Value.float f) = Value.float f
payload_value groups (Value.list vs) = Value.list vs
payload_value groups (Value.dict fs) = Value.dict fs

unfoldable pub payload_of : Groups → Dict Value → Dict Value
unfolding payload_value
payload_of groups [] = []
payload_of groups ((key, ref) ∷ refs) = (key, payload_value groups ref) ∷ payload_of groups refs

-- `_num`
module _ (num : String → Num) where
  abbrev pub reading_of : String → String → Num → Parsed
  reading_of channel unit nan = fails not_a_number
  reading_of channel unit infinite = fails infinite_number
  reading_of channel unit (written v) = emits (reading channel unit v)

  -- What a pattern that matched gives.
  unfoldable pub emit_of : Groups → Emit → Parsed
  unfolding payload_of
  emit_of groups (telemetry channel unit group) = elim (lookup group groups) [
    | none ↦ fails (no_group group)
    | some g ↦ elim g [ none ↦ fails no_text | some raw ↦ reading_of channel unit (num raw) ]
  ]
  emit_of groups (event event_type payload) =
      emits (event_body event_type (payload_of groups payload))
  emit_of groups (unsupported schema) = fails (bad_schema schema)

  -- The loop over the compiled patterns, on a line that is stripped and not empty.
  unfoldable pub first_match : List ((String → Option Groups) × Emit) → String → Parsed
  unfolding emit_of
  first_match [] line = nothing
  first_match ((regex, emit) ∷ patterns) line = elim (regex line) [
    | none ↦ first_match patterns line
    | some groups ↦ emit_of groups emit
  ]

  unfoldable pub parse_line :
      (String → String) → List ((String → Option Groups) × Emit) → String → Parsed
  unfolding first_match
  parse_line strip patterns line =
      if str_eq (strip line) "" then nothing else first_match patterns (strip line)

-- ---------------------------------------------------------------- samples
-- `start_mono` and the window are in one unit of the monotonic clock.
pub record Acc : Type 0 where
  pub unit : String
  pub start_ts : String
  pub start_mono : ℕ
  pub least : ℤ
  pub greatest : ℤ
  pub sum : ℤ
  pub count : ℕ

pub record Block : Type 0 where
  pub channel : String
  pub unit : String
  pub start_ts : String
  pub end_ts : String
  pub least : ℤ
  pub greatest : ℤ
  pub avg : ℤ
  pub count : ℕ

-- int(sum / count), toward zero; exact while the quotient of floats is
abbrev pub truncated : ℤ → ℕ → ℤ
truncated (pos n) c = pos (n / c)
truncated (negsuc n) c = sub_ℕ 0 (suc n / c)

abbrev pub min_ℤ : ℤ → ℤ → ℤ
min_ℤ a b = if ltb_ℤ b a then b else a

abbrev pub max_ℤ : ℤ → ℤ → ℤ
max_ℤ a b = if ltb_ℤ a b then b else a

abbrev pub opened : String → ℤ → String → ℕ → Acc
opened unit value ts mono = record {
  unit = unit;
  start_ts = ts;
  start_mono = mono;
  least = value;
  greatest = value;
  sum = value;
  count = 1;
}

unfoldable pub sampled : Acc → ℤ → Acc
unfolding ◌+ℤ◌
sampled a value = record a {
  least = min_ℤ a.least value;
  greatest = max_ℤ a.greatest value;
  sum = a.sum +ℤ value;
  count = a.count + 1;
}

unfoldable pub close : String → String → Acc → Block
close channel end_ts a = record {
  channel = channel;
  unit = a.unit;
  start_ts = a.start_ts;
  end_ts = end_ts;
  least = a.least;
  greatest = a.greatest;
  avg = truncated a.sum a.count;
  count = a.count;
}

-- A window that has a new sample: it is closed and gone, or goes on.
unfoldable pub close_or_keep : ℕ → String → String → ℕ → Acc → Dict Acc → Option Block × Dict Acc
unfolding insert delete close
close_or_keep window channel ts mono a acc =
    if leb window (mono - a.start_mono)
    then (some (close channel ts a), delete channel acc)
    else (none, insert channel a acc)

unfoldable pub add : ℕ → String → String → ℤ → String → ℕ → Dict Acc → Option Block × Dict Acc
unfolding lookup insert close_or_keep sampled
add window channel unit value ts mono acc = elim (lookup channel acc) [
  | none ↦ (none, insert channel (opened unit value ts mono) acc)
  | some a ↦ close_or_keep window channel ts mono (sampled a value) acc
]

unfoldable pub flush : String → Dict Acc → List Block
unfolding close
flush end_ts [] = []
flush end_ts ((channel, a) ∷ acc) = close channel end_ts a ∷ flush end_ts acc
