-- ===== src/Simulate/DyeRun.antt =====
-- A batch ends, and its summary cites exactly what it emitted between its start and its summary.
use open_machine_protocol.Prelude.{
  ℕ, suc, ◌+◌, ◌-◌, ◌≡◌, refl, ap, ◌∙◌, String, none, List, [], ◌∷◌, ◌++◌, arith, str_eq,
  Bool-cases, inl, inr, Member, All, All-append,
}
use open_machine_protocol.Json.{Value, Fields, get}
use open_machine_protocol.Envelope.{
  Envelope, Primitives, Result, ok, Segment, key, index, check_numbers, check_fields, check_items,
}
use open_machine_protocol.Audit.{between, range_of}
use open_machine_protocol.Simulate.{
  Machine, Setup, fresh_machine, announce, machine_body, run_event,
}
use open_machine_protocol.Simulate.Numbers.{IsNumbered, emit-Emits}
use open_machine_protocol.Simulate.Cyclic.{machine_body-fine}
use open_machine_protocol.Simulate.Dye.{
  dicts, Phase, plan, Draws, Batch, bath, phase_event, bath_body, addition_body, phase_entry,
  batch_energy_body, batch_summary, maybe_add, run_phase, run_phases, finish_batch, first_batch,
  run_dye_machine,
}

-- A dict that has no number which the checksum refuses, wherever it stands.
abbrev IsFine : Fields → Type 0
IsFine fs = (path : List Segment) → check_fields path fs ≡ none

dicts-fine :
    (path : List Segment) (i : ℕ) (fss : List Fields)
    → All IsFine fss
    → check_items path i (dicts fss) ≡ none
unfolding check_numbers
dicts-fine path i [] h = refl
dicts-fine path i (fs ∷ fss) h = rw (h.0 (path ++ index i ∷ [])) (dicts-fine path (suc i) fss h.1)

plan-IsFine : (fabric_kg : ℕ) → All (λ (phase : Phase). IsFine phase.params) (plan fabric_kg)
unfolding plan check_numbers
plan-IsFine fabric_kg = (
  λ path. refl,
  (
    λ path. refl,
    (λ path. refl, (λ path. refl, (λ path. refl, (λ path. refl, (λ path. refl, tt))))),
  ),
)

module _ (p : Primitives) (setup : Setup) where
  -- A batch under way.
  record IsUnderWay (s : Batch) : Type 0 where
    numbered : IsNumbered p setup s.machine
    fine : All IsFine s.phases

  record Goes (o : Result Batch) : Type 0 where
    next : Batch
    returned : o ≡ ok next
    way : IsUnderWay next

  -- An emission that may be left out.
  record GoesOn (o : Result Machine) : Type 0 where
    machine : Machine
    returned : o ≡ ok machine
    numbered : IsNumbered p setup machine

  maybe_add-GoesOn :
      (d : Draws) (name : String) (t : ℕ) (m : Machine)
      → IsNumbered p setup m
      → GoesOn (maybe_add p setup d name t m)
  unfolding maybe_add check_numbers
  maybe_add-GoesOn d name t m v = elim (Bool-cases (str_eq name "hold")) [
    | inl hold ↦ elim (Bool-cases d.shade_correction) [
      | inl adds ↦
          let e = emit-Emits p setup "event" (addition_body p setup) t m (refl, refl) v in
          rw (hold, adds, maybe_add)
            (record { machine = e.after; returned = e.returned; numbered = e.numbered })
      | inr none_added ↦
          rw (hold, none_added, maybe_add) (record { machine = m; returned = refl; numbered = v })
    ]
    | inr other ↦ rw (other, maybe_add) (record { machine = m; returned = refl; numbered = v })
  ]

  phase_entry-IsFine :
      (phase : Phase) (start end_t : ℕ)
      → IsFine phase.params
      → IsFine (phase_entry p setup phase start end_t)
  unfolding check_numbers
  phase_entry-IsFine phase start end_t h path = rw (h (path ++ key "params" ∷ [])) refl

  run_phase-Goes :
      (d : Draws) (phase : Phase) (s : Batch)
      → IsFine phase.params
      → IsUnderWay s
      → Goes (run_phase p setup d phase s)
  unfolding run_phase check_numbers
  run_phase-Goes d phase s h w =
      let (low, high, temp) = bath phase.name s.temp in
      let end_t = s.t + d.phase_us phase.name in
      let a =
        emit-Emits p setup "event" (phase_event p setup "phase_start" phase.name) s.t s.machine
          (refl, refl) w.numbered in
      let b =
        emit-Emits p setup "telemetry"
          (bath_body p setup s.t end_t low high (d.phase_tens phase.name)) end_t a.after
          (refl, refl) a.numbered in
      let c = maybe_add-GoesOn d phase.name end_t b.after b.numbered in
      let e =
        emit-Emits p setup "event" (phase_event p setup "phase_end" phase.name) end_t c.machine
          (refl, refl) c.numbered in
      rw (a.returned, b.returned, c.returned, e.returned)
        (record {
          next = record {
            machine = e.after;
            t = end_t;
            temp = temp;
            phases = s.phases ++ phase_entry p setup phase s.t end_t ∷ [];
          };
          returned = refl;
          way = record {
            numbered = e.numbered;
            fine =
                All-append IsFine s.phases (phase_entry p setup phase s.t end_t ∷ []) w.fine
                  (phase_entry-IsFine phase s.t end_t h, tt);
          };
        })

  run_phases-Goes :
      (d : Draws) (phases : List Phase) (s : Batch)
      → All (λ (phase : Phase). IsFine phase.params) phases
      → IsUnderWay s
      → Goes (run_phases p setup d phases s)
  unfolding run_phases
  run_phases-Goes d [] s h w = record { next = s; returned = refl; way = w }
  run_phases-Goes d (phase ∷ phases) s h w =
      let g = run_phase-Goes d phase s h.0 w in
      rw (g.returned) (run_phases-Goes d phases g.next h.1 g.way)

  -- The summary of a batch: its range ends with the number before its own.
  record Summary (first : ℕ) (o : Result Machine) : Type 0 where
    final : Machine
    returned : o ≡ ok final
    numbered : IsNumbered p setup final
    summary : Envelope
    sent : Member summary final.out
    last : ℕ
    range : range_of summary.body ≡ between first last
    before : final.seq ≡ last + 1

  summary-fine :
      (fabric_kg : ℕ) (phases : List Fields) (t first last : ℕ)
      → All IsFine phases
      → check_numbers [] (Value.dict (batch_summary p setup fabric_kg phases t first last)) ≡ none
  unfolding check_numbers
  summary-fine fabric_kg phases t first last h = rw (dicts-fine (key "phases" ∷ []) 0 phases h) refl

  summary-range :
      (fabric_kg : ℕ) (phases : List Fields) (t first last : ℕ)
      → range_of (batch_summary p setup fabric_kg phases t first last) ≡ between first last
  unfolding range_of get
  summary-range fabric_kg phases t first last = refl

  finish_batch-Summary :
      (d : Draws) (first : ℕ) (s : Batch)
      → IsUnderWay s
      → Summary first (finish_batch p setup d first s)
  unfolding finish_batch check_numbers
  finish_batch-Summary d first s w =
      let a =
        emit-Emits p setup "energy" (batch_energy_body p setup d.energy s.t) s.t s.machine
          (refl, refl) w.numbered in
      let b =
        emit-Emits p setup "event" (run_event p setup "run_end") s.t a.after (refl, refl)
          a.numbered in
      let body = batch_summary p setup d.fabric_kg s.phases s.t first b.after.seq in
      let c =
        emit-Emits p setup "process_run" body s.t b.after
          (summary-fine d.fabric_kg s.phases s.t first b.after.seq w.fine, refl) b.numbered in
      rw (a.returned, b.returned)
        (record {
          final = c.after;
          returned = c.returned;
          numbered = c.numbered;
          summary = c.envelope;
          sent = c.sent;
          last = b.after.seq;
          range = ap range_of c.holds ∙ summary-range d.fabric_kg s.phases s.t first b.after.seq;
          before = c.number;
        })

  -- A batch ends, whatever is drawn: no emission raises, the envelopes carry the numbers from 1 on with
  -- none left out, and among them is a summary whose range is from run_start, number 2, to the number
  -- before the last.
  pub run_dye_machine_complete :
      (d : Draws)
      → (m : Machine) × (run_dye_machine p setup d ≡ ok m)
        × IsNumbered p setup m
        × (summary : Envelope) × Member summary m.out
        × (range_of summary.body ≡ between 2 (m.seq - 1))
  unfolding run_dye_machine announce check_numbers
  run_dye_machine_complete d =
      let a =
        emit-Emits p setup "machine" (machine_body p setup) 0 fresh_machine
          (machine_body-fine p setup, refl) refl in
      let b =
        emit-Emits p setup "event" (run_event p setup "run_start") 0 a.after (refl, refl)
          a.numbered in
      let c =
        run_phases-Goes d (plan d.fabric_kg) (first_batch p setup b.after) (plan-IsFine d.fabric_kg)
          (record { numbered = b.numbered; fine = tt }) in
      let e = finish_batch-Summary d b.after.seq c.next c.way in
      let two : b.after.seq ≡ 2 = omega (arith, a.number, b.number) in
      (
        e.final,
        rw (run_dye_machine, announce, a.returned, b.returned, c.returned, e.returned) refl,
        e.numbered,
        e.summary,
        e.sent,
        e.range ∙ (λ i. between (two i) (last_eq e.final.seq e.last e.before i)),
      )
    where
      last_eq : (n l : ℕ) → n ≡ l + 1 → l ≡ n - 1
      last_eq n l h = omega arith
