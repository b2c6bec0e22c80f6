-- ===== src/Audit/Tests.antt =====
-- A bundle of one signed alarm and the run that cites it.
use open_machine_protocol.Prelude.{
  String, true, false, none, some, List, [], ◌∷◌, ◌≡◌, ◌↔◌, refl, arith, Member, select, inl, inr,
}
use open_machine_protocol.Prelude.Int.{ℤ}
use open_machine_protocol.Json.{Value, Fields, get}
use open_machine_protocol.Envelope.{Envelope, checksum, check_numbers}
use open_machine_protocol.Spec.{validate_envelope, profile_errors}
use open_machine_protocol.Engine.{Signer, sign}
use open_machine_protocol.Fixture.{primitives, specification, envelope_of, alarm_body}
use open_machine_protocol.Audit.{
  check_completeness, check_authenticity, Verifier, verify_envelope_sig, is_signed, records_hash,
  Check, unsigned, between, done, missing_from, cites,
}
use open_machine_protocol.Audit.Completeness.{CompletenessMeans, Verdict, check_completeness-means}
use open_machine_protocol.Audit.Consistency.{check_consistency}
use open_machine_protocol.Audit.Agreement.{ConsistencyMeans, check_consistency-means}
use open_machine_protocol.Audit.Order.{SameMembers, records_hash-SameMembers}
use open_machine_protocol.Audit.Bundle.{Checks, Citation, audit_bundle}
use open_machine_protocol.Audit.Evidence.{IsFull, Proves, audit_bundle-Proves}
use open_machine_protocol.Audit.Flags.{
  AllVerify, check_authenticity-passed, verify_envelope_sig-sign,
}

abbrev signer : Signer
signer m = "c2ln"

-- Takes every signature but the empty one.
abbrev verifier : Verifier
verifier pubkey String.[] m = false
verifier pubkey (String.◌∷◌ c s) m = true

abbrev run_body : Fields
run_body = Fields.field "run_id" (Value.text "run-1") (
    Fields.field "event_seq_range"
      (Value.dict (
        Fields.field "first" (Value.int (ℤ.pos 1))
          (Fields.field "last" (Value.int (ℤ.pos 1)) Fields.end)))
      Fields.end)

abbrev signed_alarm : Envelope
signed_alarm = record (envelope_of alarm_body "d1") { sig = some "c2ln" }

abbrev run : Envelope
run = record (envelope_of run_body "d1") { schema = "process_run"; seq = 2 }

abbrev bundle : List Envelope
bundle = signed_alarm ∷ run ∷ []

check_completeness-means_example :
    Verdict (CompletenessMeans bundle run) (check_completeness bundle run)
check_completeness-means_example = check_completeness-means bundle run

check_authenticity-passed_example :
    ((check_authenticity verifier bundle (some "key")).passed ≡ some true)
    ↔ AllVerify verifier (select is_signed bundle) (some "key")
check_authenticity-passed_example = check_authenticity-passed verifier bundle (some "key")

verify_envelope_sig-sign_example :
    verify_envelope_sig verifier (sign (some signer) (envelope_of alarm_body "d1")) "key" ≡ true
verify_envelope_sig-sign_example =
    verify_envelope_sig-sign verifier signer "key" (envelope_of alarm_body "d1") (λ m. refl)

check_consistency-means_example :
    Verdict (ConsistencyMeans bundle run) (check_consistency bundle run)
check_consistency-means_example = check_consistency-means bundle run

records_hash-SameMembers_example :
    records_hash primitives bundle ≡ records_hash primitives (run ∷ signed_alarm ∷ [])
records_hash-SameMembers_example =
    records_hash-SameMembers primitives bundle (run ∷ signed_alarm ∷ []) (omega arith) (omega arith)
      turned
  where
    turned : SameMembers bundle (run ∷ signed_alarm ∷ [])
    turned x = (there, back)
      where
        there : Member x bundle → Member x (run ∷ signed_alarm ∷ [])
        there (inl e) = inr (inl e)
        there (inr (inl e)) = inl e
        there (inr (inr n)) = absurd n

        back : Member x (run ∷ signed_alarm ∷ []) → Member x bundle
        back (inl e) = inr (inl e)
        back (inr (inl e)) = inl e
        back (inr (inr n)) = absurd n

-- A run whose start is signed.
abbrev run_start : Envelope
run_start =
    record (envelope_of (Fields.field "event_type" (Value.text "run_start") Fields.end) "d1") {
      sig = some "c2ln";
    }

abbrev started_run : List Envelope
started_run = run_start ∷ run ∷ []

abbrev passed : Check
passed = record { passed = some true; findings = [] }

abbrev all_passed : Checks
all_passed = record {
  completeness = passed;
  integrity = passed;
  authenticity = record { passed = some true; findings = unsigned 1 ∷ [] };
  consistency = passed;
  conformance = passed;
}

abbrev full_citation : Citation
full_citation = record {
  omp_version = "0.1.0";
  profile = "printing/0.1.0";
  gateway_id = "gw";
  machine_id = "press";
  run_id = "run-1";
  records_hash = "d1";
  seq_complete = some true;
  checksums_valid = some true;
  signatures_valid = some true;
  consistent = some true;
  conformant = some true;
  event_seq_range = between 1 1;
  gateway_pubkey = some "key";
  data_source = none;
}

started_run_audited :
    audit_bundle primitives specification verifier started_run (some "key") none
    ≡ done (all_passed, full_citation)
unfolding audit_bundle get missing_from checksum verify_envelope_sig validate_envelope cites
    check_numbers profile_errors
started_run_audited = refl

full : IsFull full_citation
full = record {
  seq_complete = refl;
  checksums_valid = refl;
  signatures_valid = refl;
  consistent = refl;
  conformant = refl;
}

audit_bundle-Proves_example :
    (r : Envelope) × Proves primitives specification verifier started_run
      (some "key")
      full_citation
      r
audit_bundle-Proves_example =
    audit_bundle-Proves primitives specification verifier started_run (some "key") none all_passed
      full_citation started_run_audited full
