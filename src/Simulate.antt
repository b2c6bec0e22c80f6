-- ===== src/Simulate.antt =====
-- tools/omp_tools/simulate.py: a machine that numbers what it emits, and the run of a cyclic machine. Times
-- are microseconds from EPOCH; the draws of the random generator are a parameter, one set for each round.
pub mod Numbers
pub mod Cyclic
pub mod Dye
pub mod Audited
pub mod DyeRun
pub mod Chaos
pub mod Flip
pub mod Corrupt
pub mod Tests
use open_machine_protocol.Prelude.{
  ℕ, zero, suc, ◌+◌, ◌-◌, String, Bool, true, false, Option, none, some, List, [], ◌∷◌, ◌++◌, leb,
  if◌then◌else◌,
}
use open_machine_protocol.Prelude.Int.{pos}
use open_machine_protocol.Json.{Value, Items, Fields}
use open_machine_protocol.Envelope.{Envelope, Primitives, Result, ok, ◌>>=◌, make_envelope}

abbrev pub int : ℕ → Value
int n = Value.int (pos n)

abbrev pub object_1 : String → Value → Fields
object_1 k v = Fields.field k v Fields.end

abbrev pub texts : List String → Items
texts [] = Items.nil
texts (s ∷ ss) = Items.cons (Value.text s) (texts ss)

-- `out` is what the sink was given.
pub record Machine : Type 0 where
  pub seq : ℕ
  pub out : List Envelope

abbrev pub fresh_machine : Machine
fresh_machine = record { seq = 0; out = [] }

-- What a machine and its simulator are set up with.
pub record Setup : Type 0 where
  pub profile_ref : String
  pub machine_id : String
  pub machine_class : String
  pub capabilities : List String
  pub site : String
  pub area : String
  pub line : String
  pub station : String
  pub version : String
  pub run_id : String
  -- the text of a time
  pub iso : ℕ → String

-- The draws of one round: a cycle and a stop with their whole milliseconds, whether the machine stops, and
-- an energy value.
pub record Draw : Type 0 where
  pub cycle_us : ℕ
  pub cycle_ms : ℕ
  pub stops : Bool
  pub stop_us : ℕ
  pub stop_ms : ℕ
  pub energy : ℕ

pub record Loop : Type 0 where
  pub machine : Machine
  pub t : ℕ
  pub cycles : ℕ
  pub energy_anchor : ℕ
  pub running : Bool

-- A round goes on, or the loop is left, by `break` or by its test; `no_fuel` is for the model alone.
pub data Ended : Type 0 where
  left : Loop → Ended
  no_fuel : Ended

module _ (p : Primitives) (setup : Setup) where
  unfoldable pub emit : String → Fields → ℕ → Machine → Result Machine
  emit schema body t m =
      make_envelope p schema body setup.profile_ref "gw-sim-01" setup.machine_id (m.seq + 1)
        (setup.iso t)
      >>= λ env. ok (record { seq = m.seq + 1; out = m.out ++ env ∷ [] })

  abbrev pub machine_body : Fields
  machine_body = Fields.field "machine_class" (Value.text setup.machine_class) (
      Fields.field "make" (Value.text "SimWorks") (
        Fields.field "model" (Value.text "SW-100") (
          Fields.field "location"
            (Value.dict (
              Fields.field "site" (Value.text setup.site) (
                Fields.field "area" (Value.text setup.area) (
                  Fields.field "line" (Value.text setup.line)
                    (object_1 "station" (Value.text setup.station))))))
            (Fields.field "capabilities" (Value.list (texts setup.capabilities)) (
              Fields.field "adapter"
                (Value.dict (
                  Fields.field "name" (Value.text "omp-simulate")
                    (object_1 "version" (Value.text setup.version))))
                (object_1 "data_source" (Value.text "native")))))))

  unfoldable pub announce : ℕ → Machine → Result Machine
  unfolding emit
  announce t m = emit "machine" machine_body t m

  -- run_start and run_end
  abbrev pub run_event : String → Fields
  run_event event_type =
      Fields.field "event_type" (Value.text event_type)
        (object_1 "run_id" (Value.text setup.run_id))

  abbrev pub cycle_body : ℕ → ℕ → Fields
  cycle_body cycles cycle_ms = Fields.field "event_type" (Value.text "cycle_complete") (
      Fields.field "run_id" (Value.text setup.run_id) (
        object_1 "payload" (
          Value.dict
            (Fields.field "cycle_count" (int cycles) (object_1 "cycle_time_ms" (int cycle_ms))))))

  abbrev pub stop_body : Fields
  stop_body =
      Fields.field "event_type" (Value.text "stop")
        (object_1 "payload" (Value.dict (object_1 "reason" (Value.text "unknown"))))

  abbrev pub start_body : ℕ → Fields
  start_body stop_ms = Fields.field "event_type" (Value.text "start") (
      Fields.field "payload" (Value.dict (object_1 "reason" (Value.text "unknown")))
        (object_1 "duration_ms" (int stop_ms)))

  abbrev pub energy_body : ℕ → ℕ → ℕ → Fields
  energy_body value anchor t = Fields.field "metric" (Value.text "kwh") (
      Fields.field "value" (int value) (
        Fields.field "interval"
          (Value.dict (
            Fields.field "start_ts" (Value.text (setup.iso anchor))
              (object_1 "end_ts" (Value.text (setup.iso t)))))
          (Fields.field "source" (Value.text "ct_clamp")
            (object_1 "run_id" (Value.text setup.run_id)))))

  abbrev pub summary_body : ℕ → ℕ → ℕ → ℕ → Fields
  summary_body cycles t first last = Fields.field "run_id" (Value.text setup.run_id) (
      Fields.field "run_type" (Value.text "shift") (
        Fields.field "start_ts" (Value.text (setup.iso 0)) (
          Fields.field "end_ts" (Value.text (setup.iso t)) (
            Fields.field "outcome" (Value.text "completed") (
              Fields.field "quantities"
                (Value.list (
                  Items.cons
                    (Value.dict (
                      Fields.field "name" (Value.text "cycles_total")
                        (Fields.field "value" (int cycles) (object_1 "unit" (Value.text "1")))))
                    Items.nil))
                (object_1 "event_seq_range"
                  (Value.dict (Fields.field "first" (int first) (object_1 "last" (int last))))))))))

  -- `if self.rng.random() < 0.04`, after a cycle
  unfoldable pub maybe_stop : Draw → Loop → Result Loop
  unfolding emit
  maybe_stop d s = elim d.stops [
    | true ↦
        emit "event" stop_body s.t s.machine >>= λ m. ok (record s { machine = m; running = false })
    | false ↦ ok s
  ]

  -- the energy interval, once an hour has passed
  unfoldable pub maybe_energy : Draw → Loop → Result Loop
  unfolding emit
  maybe_energy d s = elim (leb 3600000000 (s.t - s.energy_anchor)) [
    | true ↦ emit "energy" (energy_body d.energy s.energy_anchor s.t) s.t s.machine >>= λ m.
        ok (record s { machine = m; energy_anchor = s.t })
    | false ↦ ok s
  ]

  -- a cycle that ends in time
  unfoldable pub cycle : Draw → Loop → Result Loop
  unfolding emit maybe_stop
  cycle d s =
      emit "event" (cycle_body (s.cycles + 1) d.cycle_ms) (s.t + d.cycle_us) s.machine >>= λ m.
      maybe_stop d (record s { machine = m; t = s.t + d.cycle_us; cycles = s.cycles + 1 })

  unfoldable pub restart : Draw → Loop → Result Loop
  unfolding emit
  restart d s = emit "event" (start_body d.stop_ms) (s.t + d.stop_us) s.machine >>= λ m.
      ok (record s { machine = m; t = s.t + d.stop_us; running = true })

  -- the body of the loop where it does not break
  unfoldable pub round : Draw → Loop → Result Loop
  unfolding cycle restart maybe_energy
  round d s = elim s.running [
    | true ↦ cycle d s >>= maybe_energy d
    | false ↦ restart d s >>= maybe_energy d
  ]

  -- the `break`: a cycle that would end at `end_us` or after
  abbrev pub breaks : ℕ → Draw → Loop → Bool
  breaks end_us d s = if s.running then leb end_us (s.t + d.cycle_us) else false

  -- `while t < end`, one unit of fuel for each round
  unfoldable pub cycles_until : ℕ → (ℕ → Draw) → ℕ → ℕ → Loop → Result Ended
  unfolding round
  cycles_until end_us draws zero i s = ok no_fuel
  cycles_until end_us draws (suc fuel) i s = elim (leb end_us s.t) [
    | true ↦ ok (left s)
    | false ↦ elim (breaks end_us (draws i) s) [
      | true ↦ ok (left (record s { t = s.t + (draws i).cycle_us }))
      | false ↦ round (draws i) s >>= cycles_until end_us draws fuel (suc i)
    ]
  ]

  -- The end of a run; `first_seq` was read after run_start, `last` is read before the summary is emitted.
  unfoldable pub finish : ℕ → Loop → Result Machine
  unfolding emit
  finish first_seq s = emit "event" (run_event "run_end") s.t s.machine >>= λ m.
      emit "process_run" (summary_body s.cycles s.t first_seq m.seq) s.t m

  abbrev pub finish_if : ℕ → Ended → Result (Option Machine)
  finish_if first_seq (left s) = finish first_seq s >>= λ m. ok (some m)
  finish_if first_seq no_fuel = ok none

  abbrev pub first_loop : Machine → Loop
  first_loop m = record { machine = m; t = 0; cycles = 0; energy_anchor = 0; running = true }

  unfoldable pub run_cyclic_machine : ℕ → (ℕ → Draw) → ℕ → Result (Option Machine)
  unfolding announce emit cycles_until finish
  run_cyclic_machine end_us draws fuel = announce 0 fresh_machine >>= λ m.
      emit "event" (run_event "run_start") 0 m >>= λ m'.
      cycles_until end_us draws fuel 0 (first_loop m') >>= finish_if m'.seq
