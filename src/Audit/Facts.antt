-- ===== src/Audit/Facts.antt =====
-- `check_consistency` of tools/omp_tools/audit.py, up to its comparisons: what the run's summary and the
-- cited events say. Quantities and energy values are integers. A body with fields of other types than its
-- schema allows gives `none`.
use open_machine_protocol.Prelude.{
  String, Bool, true, false, ◌&&◌, Option, none, some, List, [], ◌∷◌, str_eq, any, select, is_empty,
  if◌then◌else◌,
}
use open_machine_protocol.Prelude.Int.{ℤ, pos, ◌+ℤ◌}
use open_machine_protocol.Dict.{Dict, lookup, insert}
use open_machine_protocol.Json.{Value, Items, Fields, get}
use open_machine_protocol.Envelope.{Envelope}
use open_machine_protocol.Spec.{as_text}
use open_machine_protocol.Audit.{of_machine}

infixl 5 ◌>>=◌
abbrev pub ◌>>=◌ : {A B : Type 0} → Option A → (A → Option B) → Option B
none >>= f = none
some a >>= f = f a

-- ------------------------------------------------------------------- what is compared
pub record Facts : Type 0 where
  pub declared : List String
  pub started : List String
  pub quantities : Dict ℤ
  pub totals : Dict ℤ
  pub has_start : Bool
  pub has_end : Bool
  pub completed : Bool

abbrev pub as_int : Option Value → Option ℤ
as_int (some (Value.int n)) = some n
as_int _ = none

-- body.get(k, []), a list
abbrev pub list_at : String → Fields → Option Items
list_at k body = elim (get k body) [
  | none ↦ some Items.nil
  | some v ↦ elim v [ Value.list vs ↦ some vs | _ ↦ none ]
]

abbrev pub as_fields : Value → Option Fields
as_fields (Value.dict fs) = some fs
as_fields _ = none

-- [p["name"] for p in ...]
unfoldable pub names : Items → Option (List String)
names Items.nil = some []
names (Items.cons v vs) = do
  fs ← as_fields v
  name ← as_text (get "name" fs)
  rest ← names vs
  some (name ∷ rest)

-- {q["name"]: q["value"] for q in ...}
unfoldable pub values : Items → Dict ℤ → Option (Dict ℤ)
unfolding insert
values Items.nil d = some d
values (Items.cons v vs) d = do
  fs ← as_fields v
  name ← as_text (get "name" fs)
  value ← as_int (get "value" fs)
  values vs (insert name value d)

abbrev pub is_event : String → Envelope → Bool
is_event event_type e =
    str_eq e.schema "event"
    && elim (as_text (get "event_type" e.body)) [ none ↦ false | some s ↦ str_eq s event_type ]

-- The phase of a phase_start event, where its payload has one.
abbrev pub phase_in : Option Value → Option (Option String)
phase_in none = some none
phase_in (some v) = do
  fs ← as_fields v
  elim (get "phase" fs) [
    | none ↦ some none
    | some phase ↦ (as_text (some phase) >>= λ s. some (some s))
  ]

unfoldable pub started_in : List Envelope → Option (List String)
started_in [] = some []
started_in (e ∷ es) =
    let later = started_in es in
    elim (is_event "phase_start" e) [
      | false ↦ later
      | true ↦
          (phase_in (get "payload" e.body) >>= λ phase.
          later >>= λ rest. some (elim phase [ none ↦ rest | some s ↦ s ∷ rest ]))
    ]

abbrev pub or_zero : Option ℤ → ℤ
or_zero none = pos 0
or_zero (some n) = n

-- energy_totals[metric] = energy_totals.get(metric, 0) + value
unfoldable pub totals_in : List Envelope → Dict ℤ → Option (Dict ℤ)
unfolding lookup insert ◌+ℤ◌
totals_in [] d = some d
totals_in (e ∷ es) d = elim (str_eq e.schema "energy") [
  | false ↦ totals_in es d
  | true ↦
      (as_text (get "metric" e.body) >>= λ metric. as_int (get "value" e.body) >>= λ value.
      totals_in es (insert metric (or_zero (lookup metric d) +ℤ value) d))
]

abbrev pub is_completed : Option Value → Bool
is_completed outcome = elim (as_text outcome) [ none ↦ false | some s ↦ str_eq s "completed" ]

unfoldable pub facts_of : List Envelope → Envelope → Option Facts
unfolding names values started_in totals_in
facts_of cited run =
    let same = select (of_machine run) cited in
    do
      phases ← list_at "phases" run.body
      declared ← names phases
      started ← if is_empty declared then some [] else started_in same
      claims ← list_at "quantities" run.body
      quantities ← values claims []
      totals ← totals_in same []
      some (record {
        declared = declared;
        started = started;
        quantities = quantities;
        totals = totals;
        has_start = any (is_event "run_start") same;
        has_end = any (is_event "run_end") same;
        completed = is_completed (get "outcome" run.body);
      })
