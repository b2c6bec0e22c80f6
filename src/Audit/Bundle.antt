-- ===== src/Audit/Bundle.antt =====
-- `audit_bundle` of tools/omp_tools/audit.py: the five checks on what the run cites, and the citation block.
-- The key check on `run_id` is left to the schemas: a run without the text ends in `no_run_id`.
use open_machine_protocol.Prelude.{
  String, Bool, Option, none, some, List, [], ◌∷◌, ◌&&◌, str_eq, if◌then◌else◌,
}
use open_machine_protocol.Json.{Value, get}
use open_machine_protocol.Envelope.{Envelope, Primitives}
use open_machine_protocol.Spec.{Spec, as_text}
use open_machine_protocol.Audit.{
  Check, Audited, done, error, no_run_id, Range, range_of, Verifier, check_completeness,
  check_integrity, check_authenticity, check_conformance, select_run, cited_by, records_hash,
}
use open_machine_protocol.Audit.Consistency.{check_consistency}

infixl 5 ◌>>=◌
abbrev pub ◌>>=◌ : {A B : Type 0} → Audited A → (A → Audited B) → Audited B
done a >>= f = f a
error e >>= f = error e

pub record Checks : Type 0 where
  pub completeness : Check
  pub integrity : Check
  pub authenticity : Check
  pub consistency : Check
  pub conformance : Check

pub record Citation : Type 0 where
  pub omp_version : String
  pub profile : String
  pub gateway_id : String
  pub machine_id : String
  pub run_id : String
  pub records_hash : String
  pub seq_complete : Option Bool
  pub checksums_valid : Option Bool
  pub signatures_valid : Option Bool
  pub consistent : Option Bool
  pub conformant : Option Bool
  pub event_seq_range : Range
  pub gateway_pubkey : Option String
  -- of the machine's announcement, if there is one in the bundle
  pub data_source : Option (Option Value)

-- `if pubkey:`
abbrev pub non_empty : Option String → Option String
non_empty none = none
non_empty (some key) = if str_eq key "" then none else some key

-- The first announcement of the machine, whatever its gateway.
unfoldable pub find_machine : String → List Envelope → Option Envelope
find_machine machine_id [] = none
find_machine machine_id (e ∷ es) =
    if str_eq e.schema "machine" && str_eq e.machine_id machine_id
    then some e
    else find_machine machine_id es

abbrev pub source_of : Option Envelope → Option (Option Value)
source_of none = none
source_of (some machine) = some (get "data_source" machine.body)

abbrev pub run_id_of : Envelope → Audited String
run_id_of run = elim (as_text (get "run_id" run.body)) [ none ↦ error no_run_id | some s ↦ done s ]

unfoldable pub cite :
    Primitives
    → List Envelope
    → List Envelope
    → Envelope
    → Option String
    → Checks
    → String
    → Citation
unfolding find_machine records_hash range_of
cite p envelopes cited run pubkey checks run_id = record {
  omp_version = run.omp_version;
  profile = run.profile;
  gateway_id = run.gateway_id;
  machine_id = run.machine_id;
  run_id = run_id;
  records_hash = records_hash p cited;
  seq_complete = checks.completeness.passed;
  checksums_valid = checks.integrity.passed;
  signatures_valid = checks.authenticity.passed;
  consistent = checks.consistency.passed;
  conformant = checks.conformance.passed;
  event_seq_range = range_of run.body;
  gateway_pubkey = non_empty pubkey;
  data_source = source_of (find_machine run.machine_id envelopes);
}

module _ (p : Primitives) (spec : Spec) (verify : Verifier) where
  unfoldable pub run_checks : List Envelope → Envelope → Option String → Audited Checks
  unfolding check_completeness check_integrity check_authenticity check_consistency
      check_conformance
  run_checks cited run pubkey = do
    completeness ← check_completeness cited run
    consistency ← check_consistency cited run
    done (record {
      completeness = completeness;
      integrity = check_integrity p cited;
      authenticity = check_authenticity verify cited pubkey;
      consistency = consistency;
      conformance = check_conformance p spec cited;
    })

  -- On the envelopes that the run cites, the run itself included.
  unfoldable pub audit_run : List Envelope → Envelope → Option String → Audited (Checks × Citation)
  unfolding cited_by run_checks cite
  audit_run envelopes run pubkey = do
    checks ← run_checks (cited_by run envelopes) run pubkey
    run_id ← run_id_of run
    done (checks, cite p envelopes (cited_by run envelopes) run pubkey checks run_id)

  unfoldable pub audit_bundle :
      List Envelope → Option String → Option String → Audited (Checks × Citation)
  unfolding select_run audit_run
  audit_bundle envelopes pubkey run_id = do
    run ← select_run envelopes run_id
    audit_run envelopes run pubkey
