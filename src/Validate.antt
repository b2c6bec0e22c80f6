-- ===== src/Validate.antt =====
-- `main` of tools/omp_tools/validate.py: the tally of a stream of lines and the exit code.
pub mod Exit
pub mod Tests
use open_machine_protocol.Prelude.{
  ℕ, ◌+◌, String, Bool, true, false, not, ◌&&◌, Option, none, some, List, [], ◌∷◌, ◌++◌, str_eq,
  ◌==◌, is_empty, if◌then◌else◌,
}
use open_machine_protocol.Dict.{Dict, lookup, insert}
use open_machine_protocol.Envelope.{Envelope, Primitives}
use open_machine_protocol.Spec.{Spec, Invalid, validate_envelope, envelope_schema}
use open_machine_protocol.Ingest.{Line, blank, not_json, not_object, malformed, object}
use open_machine_protocol.Audit.{Verifier, verify_envelope_sig, is_signed}

-- Why a line is not valid.
pub data Reason : Type 0 where
  no_json : Reason
  no_object : Reason
  invalid : Invalid → Reason
  no_signature : Reason
  bad_signature : Reason

pub record Tally : Type 0 where
  pub valid : ℕ
  pub invalid_count : ℕ
  pub by_schema : Dict ℕ
  -- what is printed of the lines that are not valid, unless `--quiet`
  pub reasons : List Reason

abbrev pub zero_tally : Tally
zero_tally = record { valid = 0; invalid_count = 0; by_schema = []; reasons = [] }

unfoldable pub reject : Reason → Tally → Tally
reject r t = record t { invalid_count = t.invalid_count + 1; reasons = t.reasons ++ r ∷ [] }

abbrev pub count_of : Option ℕ → ℕ
count_of none = 0
count_of (some n) = n

unfoldable pub accept : String → Tally → Tally
unfolding lookup insert
accept schema t = record t {
  valid = t.valid + 1;
  by_schema = insert schema (count_of (lookup schema t.by_schema) + 1) t.by_schema;
}

-- The checks of a signature, if a key is given.
unfoldable pub signature_fault : Verifier → Option String → Envelope → Option Reason
unfolding verify_envelope_sig
signature_fault verify none e = none
signature_fault verify (some pubkey) e =
    if str_eq pubkey ""
    then none
    else if not (is_signed e)
    then some no_signature
    else if verify_envelope_sig verify e pubkey
    then none
    else some bad_signature

abbrev pub first_invalid : List Invalid → Option Reason → Option Reason
first_invalid [] rest = rest
first_invalid (x ∷ xs) rest = some (invalid x)

module _ (p : Primitives) (spec : Spec) (verify : Verifier) (pubkey : Option String) where
  -- What is wrong with an envelope, `none` if nothing is.
  unfoldable pub fault_of : Envelope → Option Reason
  unfolding signature_fault
  fault_of e = first_invalid (validate_envelope p spec e false) (signature_fault verify pubkey e)

  -- one round of the loop
  unfoldable pub tally_line : Line → Tally → Tally
  unfolding reject accept fault_of
  tally_line blank t = t
  tally_line not_json t = reject no_json t
  tally_line not_object t = reject no_object t
  tally_line (malformed m) t = reject (invalid (envelope_schema m)) t
  tally_line (object e) t = elim (fault_of e) [ none ↦ accept e.schema t | some r ↦ reject r t ]

  unfoldable pub tally_all : List Line → Tally → Tally
  unfolding tally_line
  tally_all [] t = t
  tally_all (l ∷ ls) t = tally_all ls (tally_line l t)

  unfoldable pub exit_code : List Line → ℕ
  unfolding tally_all
  exit_code ls = if (tally_all ls zero_tally).invalid_count == 0 then 0 else 1
