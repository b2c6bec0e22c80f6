-- ===== src/Simulate/Tests.antt =====
-- Two minutes of a machine whose every cycle takes twenty seconds.
use open_machine_protocol.Prelude.{
  ℕ, ◌-◌, ◌≡◌, ◌≢◌, refl, String, Bool, true, false, some, List, [], ◌∷◌, ◌&&◌, ◌==◌, arith, Member,
  Bool-cases, inl, inr, eq_iff, if◌then◌else◌,
}
use open_machine_protocol.Prelude.Int.{pos}
use open_machine_protocol.Json.{Value, Fields, get}
use open_machine_protocol.Json.Dumps.{codes, dumps}
use open_machine_protocol.Envelope.{Envelope, Primitives, ok, checksum, canonicalize, check_numbers}
use open_machine_protocol.Spec.{validate_envelope, profile_errors}
use open_machine_protocol.Audit.{range_of, between}
use open_machine_protocol.Fixture.{primitives, specification, envelope_of}
use open_machine_protocol.Simulate.{Machine, Setup, Draw, run_cyclic_machine}
use open_machine_protocol.Simulate.Numbers.{IsNumbered}
use open_machine_protocol.Simulate.Cyclic.{run_cyclic_machine_complete}
use open_machine_protocol.Simulate.Dye.{Draws, run_dye_machine}
use open_machine_protocol.Simulate.Audited.{Passes, simulated-Passes}
use open_machine_protocol.Simulate.Chaos.{Kind, corrupt, zeros}
use open_machine_protocol.Simulate.Corrupt.{text_of, IsRefused, corrupt-IsRefused}

abbrev setup : Setup
setup = record {
  profile_ref = "generic/0.1";
  machine_id = "sim-line1-m01";
  machine_class = "unclassified";
  capabilities = "event" ∷ "energy" ∷ [];
  site = "demo";
  area = "sewing";
  line = "line1";
  station = "m01";
  version = "0.1.0";
  run_id = "run-1";
  iso = λ t. "t";
}

abbrev steady : ℕ → Draw
steady i = record {
  cycle_us = 20000000;
  cycle_ms = 20000;
  stops = false;
  stop_us = 60000000;
  stop_ms = 60000;
  energy = 1;
}

run_cyclic_machine_complete_example :
    (m : Machine) × (run_cyclic_machine primitives setup 120000000 steady 120000001 ≡ ok (some m))
    × IsNumbered primitives setup m
    × (summary : Envelope) × Member summary m.out
    × (range_of summary.body ≡ between 2 (m.seq - 1))
run_cyclic_machine_complete_example =
    run_cyclic_machine_complete primitives setup 120000000 120000001 steady
      (λ i. (omega arith, omega arith)) (omega arith)

-- An alarm with a number in its payload, and a digest that is its own for the text of the alarm's body.
abbrev counted : Fields
counted = Fields.field "event_type" (Value.text "alarm") (
    Fields.field "payload" (Value.dict (Fields.field "n" (Value.int (pos 7)) Fields.end))
      Fields.end)

abbrev counted_text : List ℕ
counted_text = codes "{\"event_type\":\"alarm\",\"payload\":{\"n\":7}}"

same_codes : List ℕ → List ℕ → Bool
same_codes [] [] = true
same_codes [] (d ∷ ds) = false
same_codes (c ∷ cs) [] = false
same_codes (c ∷ cs) (d ∷ ds) = c == d && same_codes cs ds

same_codes-eq : (cs ds : List ℕ) → same_codes cs ds ≡ true → cs ≡ ds
unfolding same_codes
same_codes-eq [] [] h = refl
same_codes-eq [] (d ∷ ds) h = absurd (ground arith)
same_codes-eq (c ∷ cs) [] h = absurd (ground arith)
same_codes-eq (c ∷ cs) (d ∷ ds) h = ground (arith, same_codes-eq cs ds)

abbrev own_digest : Primitives
own_digest = record {
  float_repr = λ f. 48 ∷ [];
  sha256_hex = λ text. if same_codes text counted_text then "d1" else "d2";
}

abbrev counted_alarm : Envelope
counted_alarm = envelope_of counted "d1"

counted_text_lem : text_of own_digest counted_alarm ≡ counted_text
unfolding dumps
counted_text_lem = refl

counted-valid : validate_envelope own_digest specification counted_alarm false ≡ []
unfolding validate_envelope checksum canonicalize check_numbers dumps same_codes profile_errors get
counted-valid = refl

own_digest-text :
    (text : List ℕ)
    → own_digest.sha256_hex text ≡ own_digest.sha256_hex (text_of own_digest counted_alarm)
    → text ≡ text_of own_digest counted_alarm
unfolding dumps same_codes
own_digest-text text h = elim (Bool-cases (same_codes text counted_text)) [
  | inl same ↦ same_codes-eq text counted_text same
  | inr other ↦ absurd (ground (arith, eq_iff "d2" "d1", other))
]

abbrev unlisted : Envelope → List String
unlisted x = "additional" ∷ []

unlisted_ne : (x : Envelope) → unlisted x ≢ []
unlisted_ne x h = cc

own_digest_ne : counted_alarm.checksum ≢ zeros
own_digest_ne h = absurd (ground (arith, eq_iff "d1" zeros))

corrupt-IsRefused_example :
    IsRefused own_digest specification unlisted counted_alarm (corrupt Kind.type_flip counted_alarm)
corrupt-IsRefused_example =
    corrupt-IsRefused own_digest specification unlisted counted_alarm counted-valid unlisted_ne
      own_digest-text own_digest_ne Kind.type_flip

abbrev batch : Draws
batch = record {
  fabric_kg = 300;
  shade_correction = true;
  energy = 40;
  phase_us = λ name. 60000000;
  phase_tens = λ name. 6;
}

simulated-Passes_example :
    ((m : Machine) × (run_cyclic_machine primitives setup 120000000 steady 120000001 ≡ ok (some m))
      × (summary : Envelope) × Member summary m.out
      × Passes primitives summary m.out)
    × ((m : Machine) × (run_dye_machine primitives setup batch ≡ ok m)
        × (summary : Envelope) × Member summary m.out
        × Passes primitives summary m.out)
simulated-Passes_example =
    simulated-Passes primitives setup 120000000 120000001 steady batch
      (λ i. (omega arith, omega arith)) (omega arith)
