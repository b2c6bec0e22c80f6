-- ===== src/Ingest.antt =====
-- The reference consumer, examples/platform-ingest-reference/ingest.py: one record field per SQLite
-- table and counter, and `ingest_line` with its six stages.
pub mod Counts
pub mod Totals
pub mod Quiet
pub mod Dedup
pub mod Tests
use open_machine_protocol.Prelude.{
  ℕ, suc, ◌+◌, String, ◌≡◌, Bool, true, false, not, ◌&&◌, ltb, ◌^◌, Option, none, some, List, [],
  ◌∷◌, ◌++◌, str_eq, ◌==◌, any, if◌then◌else◌,
}
use open_machine_protocol.Dict.{Dict, lookup}
use open_machine_protocol.Json.{Value, Fields, get}
use open_machine_protocol.Envelope.{Envelope, Primitives, Result, ok, raised, checksum}
use open_machine_protocol.Spec.{
  Spec, Profile, Invalid, envelope_schema, validate_envelope, before_slash, as_text, find_in,
  is_core, is_some,
}

pub record RawRow : Type 0 where
  pub gateway_id : String
  pub machine_id : String
  pub seq : ℕ
  pub envelope : Envelope
  pub checksums_valid : Bool

pub data Fault : Type 0 where
  parse : Fault
  validate : Invalid → Fault

pub record Alarm : Type 0 where
  pub gateway_id : String
  pub machine_id : String
  pub seq : ℕ
  pub first : Envelope
  pub second : Envelope

pub record MachineRow : Type 0 where
  pub gateway_id : String
  pub machine_id : String
  pub valid_from_seq : ℕ
  pub body : Fields

pub record RunRow : Type 0 where
  pub gateway_id : String
  pub machine_id : String
  pub run_id : String
  pub outcome : Option Value
  pub body : Fields

pub record Consumer : Type 0 where
  pub raw_envelopes : List RawRow
  pub quarantine : List (String × Fault)
  pub integrity_alarms : List Alarm
  pub machines : List MachineRow
  pub runs : List RunRow
  pub stored : ℕ
  pub duplicates : ℕ
  pub quarantined : ℕ
  pub alarms : ℕ
  pub unknown_event_types : ℕ
  pub unknown_types : List (String × Option String)

abbrev pub fresh : Consumer
fresh = record {
  raw_envelopes = [];
  quarantine = [];
  integrity_alarms = [];
  machines = [];
  runs = [];
  stored = 0;
  duplicates = 0;
  quarantined = 0;
  alarms = 0;
  unknown_event_types = 0;
  unknown_types = [];
}

-- A line as `strip` and `json.loads` give it. An object that lacks a field of the envelope, or has
-- one of another type or name, comes with the first message of the envelope schema.
pub data Line : Type 0 where
  blank : Line
  not_json : Line
  not_object : Line
  malformed : String → Line
  object : Envelope → Line

unfoldable pub quarantine_line : String → Fault → Consumer → Consumer
quarantine_line raw reason c = record c {
  quarantine = c.quarantine ++ (raw, reason) ∷ [];
  quarantined = c.quarantined + 1;
}

abbrev pub same_key : Envelope → RawRow → Bool
same_key env r =
    str_eq r.gateway_id env.gateway_id && str_eq r.machine_id env.machine_id && r.seq == env.seq

-- SELECT envelope ... WHERE gateway_id=? AND machine_id=? AND seq=?
unfoldable pub find_row : Envelope → List RawRow → Option RawRow
find_row env [] = none
find_row env (r ∷ rows) = if same_key env r then some r else find_row env rows

abbrev pub raw_row : Envelope → Bool → RawRow
raw_row env checks_ok = record {
  gateway_id = env.gateway_id;
  machine_id = env.machine_id;
  seq = env.seq;
  envelope = env;
  checksums_valid = checks_ok;
}

-- The two versions of one key.
abbrev pub alarm_row : Envelope → Envelope → Alarm
alarm_row env prior = record {
  gateway_id = env.gateway_id;
  machine_id = env.machine_id;
  seq = env.seq;
  first = prior;
  second = env;
}

abbrev same_type : Option String → Option String → Bool
same_type none none = true
same_type (some a) (some b) = str_eq a b
same_type _ _ = false

-- `unknown_types.add`, on a set
unfoldable pub add_type :
    String → Option String → List (String × Option String) → List (String × Option String)
add_type name et [] = (name, et) ∷ []
add_type name et ((n, t) ∷ types) =
    if str_eq n name && same_type t et then (n, t) ∷ types else (n, t) ∷ add_type name et types

abbrev pub is_new_type : Option String → Profile → Bool
is_new_type et prof = not (is_core et) && not (is_some (find_in et prof.events))

-- its last test
unfoldable pub note_type : String → Option String → Profile → Consumer → Consumer
unfolding add_type lookup
note_type name et prof c =
    if is_new_type et prof
    then record c {
      unknown_event_types = c.unknown_event_types + 1;
      unknown_types = add_type name et c.unknown_types;
    }
    else c

unfoldable pub note_unknown_vocabulary : Spec → Envelope → Consumer → Consumer
unfolding note_type before_slash lookup
note_unknown_vocabulary spec env c =
    let name = before_slash env.profile in
    let et = as_text (get "event_type" env.body) in
    if not (str_eq env.schema "event")
    then c
    else elim (lookup name spec.profiles) [ none ↦ c | some prof ↦ note_type name et prof c ]

-- INSERT OR IGNORE, on the primary key
unfoldable pub insert_machine : MachineRow → List MachineRow → List MachineRow
insert_machine m rows =
    if any
      (λ r.
        str_eq r.gateway_id m.gateway_id
        && str_eq r.machine_id m.machine_id
        && r.valid_from_seq == m.valid_from_seq)
      rows
    then rows
    else rows ++ m ∷ []

-- INSERT OR REPLACE: the old row of the key goes, the new one comes last.
unfoldable pub replace_run : RunRow → List RunRow → List RunRow
replace_run n [] = n ∷ []
replace_run n (r ∷ rows) =
    let rest = replace_run n rows in
    if str_eq r.gateway_id n.gateway_id
      && str_eq r.machine_id n.machine_id
      && str_eq r.run_id n.run_id
    then rest
    else r ∷ rest

-- The body schema of a process run requires the text `run_id`.
abbrev run_id_of : Fields → String
run_id_of body = elim (as_text (get "run_id" body)) [ none ↦ "" | some s ↦ s ]

unfoldable pub project : Envelope → Consumer → Consumer
unfolding insert_machine replace_run
project env c =
    if str_eq env.schema "machine"
    then record c {
      machines =
          insert_machine
            (record {
              gateway_id = env.gateway_id;
              machine_id = env.machine_id;
              valid_from_seq = env.seq;
              body = env.body;
            })
            c.machines;
    }
    else if str_eq env.schema "process_run"
    then record c {
      runs =
          replace_run
            (record {
              gateway_id = env.gateway_id;
              machine_id = env.machine_id;
              run_id = run_id_of env.body;
              outcome = get "outcome" env.body;
              body = env.body;
            })
            c.runs;
    }
    else c

-- An INTEGER of SQLite has 64 bits and a sign.
abbrev pub fits_integer : ℕ → Bool
fits_integer n = ltb n (2 ^ 63)

module _ (p : Primitives) (spec : Spec) where
  -- stages 4 to 6; `none` is the ValueError that `checksum` may raise
  unfoldable pub store_raw : Envelope → Consumer → Option Consumer
  unfolding project
  store_raw env c = elim (checksum p env.body) [
    | raised e ↦ none
    | ok digest ↦
        let kept = project env (record c {
          raw_envelopes = c.raw_envelopes ++ raw_row env (str_eq digest env.checksum) ∷ [];
        }) in
        some (record kept { stored = kept.stored + 1 })
  ]

  -- stages 3 to 6, on the row that the SELECT finds
  unfoldable pub resolve : Envelope → Consumer → Option Consumer
  unfolding find_row store_raw
  resolve env c = elim (find_row env c.raw_envelopes) [
    | none ↦ store_raw env c
    | some prior ↦ some (
        if str_eq prior.envelope.checksum env.checksum
        then record c { duplicates = c.duplicates + 1 }
        else record c {
          integrity_alarms = c.integrity_alarms ++ alarm_row env prior.envelope ∷ [];
          alarms = c.alarms + 1;
        })
  ]

  -- stages 3 to 6, for a valid envelope; `none` is also the OverflowError of sqlite3 at the SELECT
  unfoldable pub dedup : Envelope → Consumer → Option Consumer
  unfolding resolve
  dedup env c = if fits_integer env.seq then resolve env c else none

  unfoldable pub ingest_line : String → Line → Consumer → Option Consumer
  unfolding quarantine_line note_unknown_vocabulary dedup
  ingest_line raw blank c = some c
  ingest_line raw not_json c = some (quarantine_line raw parse c)
  ingest_line raw not_object c = some (quarantine_line raw parse c)
  ingest_line raw (malformed m) c = some (quarantine_line raw (validate (envelope_schema m)) c)
  ingest_line raw (object env) c = elim (validate_envelope p spec env true) [
    | [] ↦ dedup env (note_unknown_vocabulary spec env c)
    | e ∷ errors ↦ some (quarantine_line raw (validate e) c)
  ]

  -- the loop of `main`
  unfoldable pub ingest_all : List (String × Line) → Consumer → Option Consumer
  unfolding ingest_line
  ingest_all [] c = some c
  ingest_all ((raw, line) ∷ lines) c = elim (ingest_line raw line c) [
    | none ↦ none
    | some c' ↦ ingest_all lines c'
  ]
