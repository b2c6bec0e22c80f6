-- ===== src/Simulate/Cyclic.antt =====
-- A cyclic run ends, and its summary cites exactly what it emitted between its start and its summary.
use open_machine_protocol.Prelude.{
  ℕ, zero, suc, ◌+◌, ◌-◌, ◌<◌, ◌≡◌, refl, ap, ◌∙◌, String, true, false, none, some, List, [], ◌∷◌,
  arith, if◌then◌else◌, leb, Bool-cases, inl, inr, Member,
}
use open_machine_protocol.Json.{Value, get}
use open_machine_protocol.Envelope.{
  Envelope, Primitives, Result, ok, ◌>>=◌, check_numbers, check_items, key,
}
use open_machine_protocol.Audit.{between, range_of, range_in}
use open_machine_protocol.Simulate.{
  Machine, Setup, Draw, Loop, Ended, left, fresh_machine, texts, announce, machine_body, run_event,
  cycle_body, stop_body, start_body, energy_body, summary_body, maybe_stop, maybe_energy, cycle,
  restart, round, breaks, cycles_until, finish, first_loop, run_cyclic_machine,
}
use open_machine_protocol.Simulate.Numbers.{IsNumbered, emit-Emits}

texts-fine : (i : ℕ) (ss : List String) → check_items (key "capabilities" ∷ []) i (texts ss) ≡ none
unfolding check_numbers
texts-fine i [] = refl
texts-fine i (s ∷ ss) = texts-fine (suc i) ss

module _ (p : Primitives) (setup : Setup) where
  -- A loop state that a step gives, at the time `t`.
  record Goes (t : ℕ) (o : Result Loop) : Type 0 where
    next : Loop
    returned : o ≡ ok next
    numbered : IsNumbered p setup next.machine
    time : next.t ≡ t

  pub machine_body-fine : check_numbers [] (Value.dict (machine_body p setup)) ≡ none
  unfolding check_numbers
  machine_body-fine = rw (texts-fine 0 setup.capabilities) refl

  maybe_stop-Goes :
      (d : Draw) (s : Loop) → IsNumbered p setup s.machine → Goes s.t (maybe_stop p setup d s)
  unfolding maybe_stop check_numbers
  maybe_stop-Goes d s v = elim (Bool-cases d.stops) [
    | inl stops ↦
        let e = emit-Emits p setup "event" (stop_body p setup) s.t s.machine (refl, refl) v in
        rw (stops, maybe_stop, e.returned)
          (record {
            next = record s { machine = e.after; running = false };
            returned = refl;
            numbered = e.numbered;
            time = refl;
          })
    | inr goes ↦
        rw (goes, maybe_stop) (record { next = s; returned = refl; numbered = v; time = refl })
  ]

  maybe_energy-Goes :
      (d : Draw) (s : Loop) → IsNumbered p setup s.machine → Goes s.t (maybe_energy p setup d s)
  unfolding maybe_energy check_numbers
  maybe_energy-Goes d s v = elim (Bool-cases (leb 3600000000 (s.t - s.energy_anchor))) [
    | inl hour ↦
        let e =
          emit-Emits p setup "energy" (energy_body p setup d.energy s.energy_anchor s.t) s.t
            s.machine (refl, refl) v in
        rw (hour, maybe_energy, e.returned)
          (record {
            next = record s { machine = e.after; energy_anchor = s.t };
            returned = refl;
            numbered = e.numbered;
            time = refl;
          })
    | inr early ↦
        rw (early, maybe_energy) (record { next = s; returned = refl; numbered = v; time = refl })
  ]

  cycle-Goes :
      (d : Draw) (s : Loop)
      → IsNumbered p setup s.machine
      → Goes (s.t + d.cycle_us) (cycle p setup d s)
  unfolding cycle check_numbers
  cycle-Goes d s v =
      let e =
        emit-Emits p setup "event" (cycle_body p setup (s.cycles + 1) d.cycle_ms) (s.t + d.cycle_us)
          s.machine (refl, refl) v in
      rw (e.returned) (
        maybe_stop-Goes d
          (record s { machine = e.after; t = s.t + d.cycle_us; cycles = s.cycles + 1 }) e.numbered)

  restart-Goes :
      (d : Draw) (s : Loop)
      → IsNumbered p setup s.machine
      → Goes (s.t + d.stop_us) (restart p setup d s)
  unfolding restart check_numbers
  restart-Goes d s v =
      let e =
        emit-Emits p setup "event" (start_body p setup d.stop_ms) (s.t + d.stop_us) s.machine
          (refl, refl) v in
      rw (e.returned) (record {
        next = record s { machine = e.after; t = s.t + d.stop_us; running = true };
        returned = refl;
        numbered = e.numbered;
        time = refl;
      })

  then_energy :
      (d : Draw) (t : ℕ) (o : Result Loop) → Goes t o → Goes t (o >>= maybe_energy p setup d)
  then_energy d t o g =
      let h = maybe_energy-Goes d g.next g.numbered in
      rw (g.returned) (record {
        next = h.next;
        returned = h.returned;
        numbered = h.numbered;
        time = h.time ∙ g.time;
      })

  -- The time that a round takes.
  abbrev takes : Draw → Loop → ℕ
  takes d s = if s.running then d.cycle_us else d.stop_us

  round-Goes :
      (d : Draw) (s : Loop)
      → IsNumbered p setup s.machine
      → Goes (s.t + takes d s) (round p setup d s)
  unfolding round
  round-Goes d s v = elim (Bool-cases s.running) [
    | inl runs ↦
        rw (runs, round) (then_energy d (s.t + d.cycle_us) (cycle p setup d s) (cycle-Goes d s v))
    | inr stands ↦
        rw (stands, round)
          (then_energy d (s.t + d.stop_us) (restart p setup d s) (restart-Goes d s v))
  ]

  -- The loop is left with a numbered machine.
  record Leaves (o : Result Ended) : Type 0 where
    last : Loop
    returned : o ≡ ok (left last)
    numbered : IsNumbered p setup last.machine

  module _ (end_us : ℕ) (draws : ℕ → Draw)
      (positive : (i : ℕ) → (0 < (draws i).cycle_us) × (0 < (draws i).stop_us)) where
    takes_time : (i : ℕ) (s : Loop) → 0 < takes (draws i) s
    takes_time i s = elim (Bool-cases s.running) [
      | inl runs ↦ rw runs (positive i).0
      | inr stands ↦ rw stands (positive i).1
    ]

    cycles_until-Leaves :
        (fuel i : ℕ) (s : Loop)
        → IsNumbered p setup s.machine
        → end_us < s.t + fuel
        → 0 < fuel
        → Leaves (cycles_until p setup end_us draws fuel i s)
    unfolding cycles_until
    cycles_until-Leaves zero i s v enough some_fuel = absurd (omega arith)
    cycles_until-Leaves (suc fuel) i s v enough some_fuel = elim (Bool-cases (leb end_us s.t)) [
      | inl over ↦ rw (over, cycles_until) (record { last = s; returned = refl; numbered = v })
      | inr early ↦ elim (Bool-cases (breaks p setup end_us (draws i) s)) [
        | inl stop ↦
            rw (early, stop, cycles_until)
              (record {
                last = record s { t = s.t + (draws i).cycle_us };
                returned = refl;
                numbered = v;
              })
        | inr goes ↦
            let g = round-Goes (draws i) s v in
            rw (early, goes, cycles_until, g.returned)
              (cycles_until-Leaves fuel (suc i) g.next g.numbered
                (omega (arith, g.time, takes_time i s)) (ground arith))
      ]
    ]

  -- The summary of a run: it is the last envelope, and its range ends with the number before its own.
  record Summary (first : ℕ) (o : Result Machine) : Type 0 where
    final : Machine
    returned : o ≡ ok final
    numbered : IsNumbered p setup final
    summary : Envelope
    sent : Member summary final.out
    last : ℕ
    range : range_of summary.body ≡ between first last
    before : final.seq ≡ last + 1

  finish-Summary :
      (first : ℕ) (s : Loop) → IsNumbered p setup s.machine → Summary first (finish p setup first s)
  unfolding finish check_numbers range_of range_in get
  finish-Summary first s v =
      let a =
        emit-Emits p setup "event" (run_event p setup "run_end") s.t s.machine (refl, refl) v in
      let body = summary_body p setup s.cycles s.t first a.after.seq in
      let b = emit-Emits p setup "process_run" body s.t a.after (refl, refl) a.numbered in
      rw (a.returned) (record {
        final = b.after;
        returned = b.returned;
        numbered = b.numbered;
        summary = b.envelope;
        sent = b.sent;
        last = a.after.seq;
        range = ap range_of b.holds;
        before = b.number;
      })

  -- A run of a cyclic machine ends, for draws that take time and fuel above the length of the run in
  -- microseconds: no emission raises, the envelopes carry the numbers from 1 on with none left out, and
  -- among them is a summary whose range is from run_start, number 2, to the number before the last.
  pub run_cyclic_machine_complete :
      (end_us fuel : ℕ) (draws : ℕ → Draw)
      → ((i : ℕ) → (0 < (draws i).cycle_us) × (0 < (draws i).stop_us))
      → end_us < fuel
      → (m : Machine) × (run_cyclic_machine p setup end_us draws fuel ≡ ok (some m))
        × IsNumbered p setup m
        × (summary : Envelope) × Member summary m.out
        × (range_of summary.body ≡ between 2 (m.seq - 1))
  unfolding run_cyclic_machine announce check_numbers
  run_cyclic_machine_complete end_us fuel draws positive enough =
      let a =
        emit-Emits p setup "machine" (machine_body p setup) 0 fresh_machine
          (machine_body-fine, refl) refl in
      let b =
        emit-Emits p setup "event" (run_event p setup "run_start") 0 a.after (refl, refl)
          a.numbered in
      let c =
        cycles_until-Leaves end_us draws positive fuel 0 (first_loop p setup b.after) b.numbered
          (omega arith) (omega arith) in
      let d = finish-Summary b.after.seq c.last c.numbered in
      let two : b.after.seq ≡ 2 = omega (arith, a.number, b.number) in
      (
        d.final,
        rw (run_cyclic_machine, announce, a.returned, b.returned, c.returned, d.returned) refl,
        d.numbered,
        d.summary,
        d.sent,
        d.range ∙ (λ i. between (two i) (last_eq d.final.seq d.last d.before i)),
      )
    where
      last_eq : (n l : ℕ) → n ≡ l + 1 → l ≡ n - 1
      last_eq n l h = omega arith
