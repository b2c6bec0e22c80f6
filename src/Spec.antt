-- ===== src/Spec.antt =====
-- `Spec` of tools/omp_tools/specload.py: the loaded validators and the constraints of the declared
-- profile; `validate_envelope` of tools/omp_tools/validate.py. The JSON Schema library is not part of
-- the program: a validator is a function to the messages of `iter_errors`.
pub mod Constraints
pub mod Validity
pub mod Tests
use Prim.Native.Char.{code}
use open_machine_protocol.Prelude.{
  ℕ, suc, String, ◌≡◌, Bool, true, false, not, ◌||◌, Option, none, some, List, [], ◌∷◌, ◌++◌, map,
  ◌==◌, str_eq, any, if◌then◌else◌,
}
use open_machine_protocol.Dict.{Dict, lookup}
use open_machine_protocol.Json.{Value, Items, Fields, get}
use open_machine_protocol.Envelope.{Envelope, ValueError, Result, ok, raised, Primitives, checksum}

abbrev pub core_event_types : List String
core_event_types =
    "run_start" ∷ "run_end" ∷ "cycle_complete" ∷ "start" ∷ "stop" ∷ "error" ∷ "alarm"
    ∷ "state_change" ∷ "maintenance_flag" ∷ []

abbrev pub Validator : Type 0
Validator = Value → List String

pub record Profile : Type 0 where
  pub events : Dict Validator
  pub phases : Dict Validator

pub record Spec : Type 0 where
  pub envelope_errors : Envelope → List String
  -- `validators[schema]`, on the body
  pub body_errors : String → Fields → List String
  pub profiles : Dict Profile

-- The messages, kept as data.
pub data ProfileError : Type 0 where
  payload : String → ProfileError
  unknown_event : Option Value → String → ProfileError
  unknown_phase : ℕ → Option Value → String → ProfileError
  params : ℕ → String → ProfileError

-- `text.split("/")[0]`
unfoldable pub before_slash : String → String
before_slash String.[] = String.[]
before_slash (String.◌∷◌ c s) =
    let rest = before_slash s in if code c == b'/' then String.[] else String.◌∷◌ c rest

-- Only a text can be a key of the profile's tables or one of the core types.
abbrev pub as_text : Option Value → Option String
as_text (some (Value.text s)) = some s
as_text _ = none

abbrev pub find_in : {A : Type 0} → Option String → Dict A → Option A
find_in none d = none
find_in (some k) d = lookup k d

abbrev pub is_some : {A : Type 0} → Option A → Bool
is_some none = false
is_some (some a) = true

abbrev pub is_core : Option String → Bool
is_core none = false
is_core (some t) = any (λ c. str_eq t c) core_event_types

-- `d.get(k, default)`
abbrev pub get_or : String → Fields → Value → Value
get_or k fs d = elim (get k fs) [ some v ↦ v | none ↦ d ]

-- The body schema admits only lists of objects here.
abbrev pub items_of : Option Value → Items
items_of (some (Value.list vs)) = vs
items_of _ = Items.nil

abbrev pub fields_of : Value → Fields
fields_of (Value.dict fs) = fs
fields_of _ = Fields.end

-- the branch `schema == "event"`
unfoldable pub event_errors : Bool → String → Profile → Fields → List ProfileError
event_errors forward_compatible name prof body =
    let event_type = as_text (get "event_type" body) in
    if is_core event_type then [] else elim (find_in event_type prof.events) [
      | some validator ↦ map payload (validator (get_or "payload" body (Value.dict Fields.end)))
      | none ↦
          if not forward_compatible then unknown_event (get "event_type" body) name ∷ [] else []
    ]

-- One round of the loop over `phases`.
unfoldable pub phase_error : Bool → String → Profile → ℕ → Fields → List ProfileError
phase_error forward_compatible name prof i phase =
    elim (find_in (as_text (get "name" phase)) prof.phases) [
      | none ↦ if not forward_compatible then unknown_phase i (get "name" phase) name ∷ [] else []
      | some validator ↦ map (params i) (validator (get_or "params" phase (Value.dict Fields.end)))
    ]

unfoldable pub phases_errors : Bool → String → Profile → ℕ → Items → List ProfileError
unfolding phase_error
phases_errors fc name prof i Items.nil = []
phases_errors fc name prof i (Items.cons v vs) =
    phase_error fc name prof i (fields_of v) ++ phases_errors fc name prof (suc i) vs

unfoldable pub profile_errors : Spec → Envelope → Bool → List ProfileError
unfolding event_errors phases_errors before_slash lookup
profile_errors spec envelope forward_compatible =
    let name = before_slash envelope.profile in
    elim (lookup name spec.profiles) [
      | none ↦ []
      | some prof ↦
          if str_eq envelope.schema "event"
          then event_errors forward_compatible name prof envelope.body
          else if str_eq envelope.schema "process_run"
          then phases_errors forward_compatible name prof 0 (items_of (get "phases" envelope.body))
          else []
    ]

pub data Invalid : Type 0 where
  envelope_schema : String → Invalid
  body_schema : String → Invalid
  checksum_mismatch : Invalid
  not_computable : ValueError → Invalid
  profile : ProfileError → Invalid

-- `if errors: return errors`
abbrev pub or_else : List Invalid → List Invalid → List Invalid
or_else [] rest = rest
or_else (e ∷ es) rest = e ∷ es

-- the `try` around the checksum
abbrev pub checksum_errors : Result String → String → List Invalid
checksum_errors (ok digest) claimed =
    if not (str_eq digest claimed) then checksum_mismatch ∷ [] else []
checksum_errors (raised e) claimed = not_computable e ∷ []

unfoldable pub validate_envelope : Primitives → Spec → Envelope → Bool → List Invalid
validate_envelope p spec envelope forward_compatible =
    or_else (map envelope_schema (spec.envelope_errors envelope)) (
      or_else (map body_schema (spec.body_errors envelope.schema envelope.body)) (
        or_else (checksum_errors (checksum p envelope.body) envelope.checksum)
          (map profile (profile_errors spec envelope forward_compatible))))
