-- ===== src/Simulate/Dye.antt =====
-- `run_dye_machine` of tools/omp_tools/simulate.py. The length of a phase in microseconds and its tens of
-- seconds are parameters, as are the draws of the random generator.
use open_machine_protocol.Prelude.{
  ℕ, ◌+◌, ◌-◌, ◌*◌, ◌/◌, String, Bool, true, false, List, [], ◌∷◌, ◌++◌, max, str_eq, if◌then◌else◌,
}
use open_machine_protocol.Json.{Value, Items, Fields}
use open_machine_protocol.Envelope.{Primitives, Result, ok, ◌>>=◌}
use open_machine_protocol.Simulate.{int, Machine, Setup, fresh_machine, emit, announce, run_event}

abbrev pub object : List (String × Value) → Fields
object [] = Fields.end
object ((k, v) ∷ kvs) = Fields.field k v (object kvs)

abbrev pub dicts : List Fields → Items
dicts [] = Items.nil
dicts (fs ∷ fss) = Items.cons (Value.dict fs) (dicts fss)

-- A phase of the plan: its name and the parameters that the summary gives for it.
pub record Phase : Type 0 where
  pub name : String
  pub params : Fields

unfoldable pub plan : ℕ → List Phase
plan fabric_kg =
    record { name = "load"; params = object (("fabric_kg", int fabric_kg) ∷ []) }
    ∷ record {
      name = "heat";
      params = object (("from_c", int 30) ∷ ("to_c", int 60) ∷ ("gradient_c_per_min", int 2) ∷ []);
    }
    ∷ record { name = "hold"; params = object (("temp_c", int 60) ∷ ("duration_min", int 45) ∷ []) }
    ∷ record {
      name = "cool";
      params = object (("from_c", int 60) ∷ ("to_c", int 40) ∷ ("gradient_c_per_min", int 2) ∷ []);
    }
    ∷ record { name = "rinse"; params = object (("cycles", int 2) ∷ ("temp_c", int 40) ∷ []) }
    ∷ record { name = "drain"; params = object [] }
    ∷ record { name = "unload"; params = object [] }
    ∷ []

-- The draws of a batch, with what the length of the run makes of each phase.
pub record Draws : Type 0 where
  pub fabric_kg : ℕ
  pub shade_correction : Bool
  pub energy : ℕ
  pub phase_us : String → ℕ
  pub phase_tens : String → ℕ

pub record Batch : Type 0 where
  pub machine : Machine
  pub t : ℕ
  pub temp : ℕ
  pub phases : List Fields

-- The bath's lowest and highest temperature in a phase, and its temperature afterwards.
unfoldable pub bath : String → ℕ → ℕ × ℕ × ℕ
bath name temp =
    if str_eq name "heat"
    then (30, 60, 60)
    else if str_eq name "hold"
    then (59, 61, temp)
    else if str_eq name "cool"
    then (40, 60, 40)
    else (temp - 1, temp + 1, temp)

module _ (p : Primitives) (setup : Setup) where
  abbrev pub phase_event : String → String → Fields
  phase_event event_type name = object (
      ("event_type", Value.text event_type)
      ∷ ("run_id", Value.text setup.run_id)
      ∷ ("payload", Value.dict (object (("phase", Value.text name) ∷ [])))
      ∷ [])

  abbrev pub bath_body : ℕ → ℕ → ℕ → ℕ → ℕ → Fields
  bath_body start end_t low high tens = object (
      ("channel", Value.text "bath_temp")
      ∷ ("unit", Value.text "Cel")
      ∷ ("mode", Value.text "stats")
      ∷ ("run_id", Value.text setup.run_id)
      ∷ (
        "stats",
        Value.dict (
            object (
              ("start_ts", Value.text (setup.iso start))
              ∷ ("end_ts", Value.text (setup.iso end_t))
              ∷ ("min", int low)
              ∷ ("max", int high)
              ∷ ("avg", int ((low + high) / 2))
              ∷ ("count", int (max tens 1))
              ∷ [])),
      )
      ∷ [])

  abbrev pub addition_body : Fields
  addition_body = object (
      ("event_type", Value.text "addition")
      ∷ ("run_id", Value.text setup.run_id)
      ∷ ("payload", Value.dict (object (("reason", Value.text "shade_correction") ∷ [])))
      ∷ [])

  abbrev pub phase_entry : Phase → ℕ → ℕ → Fields
  phase_entry phase start end_t = object (
      ("name", Value.text phase.name)
      ∷ ("start_ts", Value.text (setup.iso start))
      ∷ ("end_ts", Value.text (setup.iso end_t))
      ∷ ("params", Value.dict phase.params)
      ∷ [])

  abbrev pub batch_energy_body : ℕ → ℕ → Fields
  batch_energy_body value t = object (
      ("metric", Value.text "kwh")
      ∷ ("value", int value)
      ∷ (
        "interval",
        Value.dict (
            object
              (("start_ts", Value.text (setup.iso 0)) ∷ ("end_ts", Value.text (setup.iso t)) ∷ [])),
      )
      ∷ ("source", Value.text "submeter")
      ∷ ("run_id", Value.text setup.run_id)
      ∷ [])

  abbrev pub quantity : String → ℕ → String → Fields
  quantity name value unit =
      object (("name", Value.text name) ∷ ("value", int value) ∷ ("unit", Value.text unit) ∷ [])

  abbrev pub batch_summary : ℕ → List Fields → ℕ → ℕ → ℕ → Fields
  batch_summary fabric_kg phases t first last = object (
      ("run_id", Value.text setup.run_id)
      ∷ ("run_type", Value.text "batch")
      ∷ ("start_ts", Value.text (setup.iso 0))
      ∷ ("end_ts", Value.text (setup.iso t))
      ∷ ("outcome", Value.text "completed")
      ∷ ("phases", Value.list (dicts phases))
      ∷ (
        "quantities",
        Value.list (
            dicts (
              quantity "fabric_kg" fabric_kg "kg"
              ∷ quantity "water_l_total" (fabric_kg * 4) "L"
              ∷ [])),
      )
      ∷ ("event_seq_range", Value.dict (object (("first", int first) ∷ ("last", int last) ∷ [])))
      ∷ [])

  -- `if name == "hold" and self.rng.random() < 0.3`
  unfoldable pub maybe_add : Draws → String → ℕ → Machine → Result Machine
  unfolding emit
  maybe_add d name t m = elim (str_eq name "hold") [
    | true ↦ elim d.shade_correction [
      | true ↦ emit p setup "event" addition_body t m
      | false ↦ ok m
    ]
    | false ↦ ok m
  ]

  -- One round of the loop over the plan.
  unfoldable pub run_phase : Draws → Phase → Batch → Result Batch
  unfolding emit bath maybe_add
  run_phase d phase s =
      let (low, high, temp) = bath phase.name s.temp in
      let end_t = s.t + d.phase_us phase.name in
      emit p setup "event" (phase_event "phase_start" phase.name) s.t s.machine >>= λ m.
      emit p setup "telemetry" (bath_body s.t end_t low high (d.phase_tens phase.name)) end_t m
      >>= λ m'. maybe_add d phase.name end_t m' >>= λ m''.
          emit p setup "event" (phase_event "phase_end" phase.name) end_t m'' >>= λ after.
          ok (record {
            machine = after;
            t = end_t;
            temp = temp;
            phases = s.phases ++ phase_entry phase s.t end_t ∷ [];
          })

  unfoldable pub run_phases : Draws → List Phase → Batch → Result Batch
  unfolding run_phase
  run_phases d [] s = ok s
  run_phases d (phase ∷ phases) s = run_phase d phase s >>= run_phases d phases

  -- `first_seq` was read after run_start, `last` is read before the summary is emitted.
  unfoldable pub finish_batch : Draws → ℕ → Batch → Result Machine
  unfolding emit
  finish_batch d first_seq s =
      emit p setup "energy" (batch_energy_body d.energy s.t) s.t s.machine >>= λ m.
      emit p setup "event" (run_event p setup "run_end") s.t m >>= λ m'.
      emit p setup "process_run" (batch_summary d.fabric_kg s.phases s.t first_seq m'.seq) s.t m'

  abbrev pub first_batch : Machine → Batch
  first_batch m = record { machine = m; t = 0; temp = 30; phases = [] }

  unfoldable pub run_dye_machine : Draws → Result Machine
  unfolding announce emit plan run_phases finish_batch
  run_dye_machine d = announce p setup 0 fresh_machine >>= λ m.
      emit p setup "event" (run_event p setup "run_start") 0 m >>= λ m'.
      run_phases d (plan d.fabric_kg) (first_batch m') >>= finish_batch d m'.seq
