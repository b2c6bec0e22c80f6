-- ===== src/Audit/Telling.antt =====
-- What the facts that `check_consistency` compares are, said of the summary and the cited events.
use open_machine_protocol.Prelude.{
  ◌≡◌, ◌≢◌, ◌⊎◌, ◌↔◌, String, true, Option, none, some, List, [], ◌∷◌, Member, str_eq,
  if◌then◌else◌,
}
use open_machine_protocol.Prelude.Int.{ℤ, pos, ◌+ℤ◌}
use open_machine_protocol.Dict.{lookup, Distinct}
use open_machine_protocol.Json.{Value, Items, Fields, get}
use open_machine_protocol.Envelope.{Envelope}
use open_machine_protocol.Audit.Facts.{Facts, as_int}

-- ------------------------------------------------------------------------- the summary
-- The field is this list, or is missing and the list is empty.
abbrev pub Lists : String → Fields → Items → Type 0
Lists k body vs = (get k body ≡ some (Value.list vs)) ⊎ ((get k body ≡ none) × (vs ≡ Items.nil))

abbrev pub Named : Value → String → Type 0
Named v name = (fs : Fields) × (v ≡ Value.dict fs) × (get "name" fs ≡ some (Value.text name))

-- The names of the entries, in order.
abbrev pub Names : Items → List String → Type 0
Names Items.nil ns = ns ≡ []
Names (Items.cons v vs) [] = ⊥
Names (Items.cons v vs) (n ∷ ns) = Named v n × Names vs ns

-- The value of an entry of this name.
abbrev pub claim_in : String → Value → Option ℤ
claim_in metric (Value.dict fs) = elim (get "name" fs) [
  | none ↦ none
  | some v ↦ elim v [
    | Value.text s ↦ if str_eq s metric then as_int (get "value" fs) else none
    | _ ↦ none
  ]
]
claim_in metric _ = none

-- The last one, where there are several.
unfoldable pub last_claim : String → Option ℤ → Items → Option ℤ
last_claim metric before Items.nil = before
last_claim metric before (Items.cons v vs) = elim (claim_in metric v) [
  | none ↦ last_claim metric before vs
  | some n ↦ last_claim metric (some n) vs
]

-- ------------------------------------------------------------------------- the events
abbrev pub IsEvent : String → Envelope → Type 0
IsEvent kind e = (e.schema ≡ "event") × (get "event_type" e.body ≡ some (Value.text kind))

abbrev pub HasEvent : String → List Envelope → Type 0
HasEvent kind es = (e : Envelope) × Member e es × IsEvent kind e

abbrev pub StartsPhase : String → Envelope → Type 0
StartsPhase phase e =
    IsEvent "phase_start" e
    × (fs : Fields) × (get "payload" e.body ≡ some (Value.dict fs))
    × (get "phase" fs ≡ some (Value.text phase))

-- The value of an energy event of this metric.
abbrev pub reading_of : String → Envelope → Option ℤ
reading_of metric e =
    if str_eq e.schema "energy"
    then elim (get "metric" e.body) [
      | none ↦ none
      | some v ↦ elim v [
        | Value.text s ↦ if str_eq s metric then as_int (get "value" e.body) else none
        | _ ↦ none
      ]
    ]
    else none

unfoldable pub readings : String → List Envelope → List ℤ
readings metric [] = []
readings metric (e ∷ es) = elim (reading_of metric e) [
  | none ↦ readings metric es
  | some n ↦ n ∷ readings metric es
]

-- What is there and these, added up.
unfoldable pub total_from : Option ℤ → List ℤ → Option ℤ
unfolding ◌+ℤ◌
total_from t [] = t
total_from t (n ∷ ns) = total_from (some (elim t [ none ↦ pos 0 | some m ↦ m ] +ℤ n)) ns

pub record Tells (same : List Envelope) (run : Envelope) (f : Facts) : Type 0 where
  pub declared : (vs : Items) × Lists "phases" run.body vs × Names vs f.declared
  pub started :
      f.declared ≢ []
      → (phase : String)
      → Member phase f.started ↔ ((e : Envelope) × Member e same × StartsPhase phase e)
  pub quantities :
      (vs : Items) × Lists "quantities" run.body vs
      × ((metric : String) → lookup metric f.quantities ≡ last_claim metric none vs)
  pub distinct : Distinct f.totals
  pub totals : (metric : String) → lookup metric f.totals ≡ total_from none (readings metric same)
  pub starts : (f.has_start ≡ true) ↔ HasEvent "run_start" same
  pub ends : (f.has_end ≡ true) ↔ HasEvent "run_end" same
  pub completed : (f.completed ≡ true) ↔ (get "outcome" run.body ≡ some (Value.text "completed"))
