-- ===== src/Spec/Constraints.antt =====
-- What the constraints of a profile ask for, said without the code that gathers their errors.
use open_machine_protocol.Prelude.{
  ℕ, suc, ◌≡◌, ◌⊎◌, ◌↔◌, refl, ap, sym, ◌∙◌, subst, String, Bool, true, false, not, Option, none,
  some, List, [], ◌∷◌, ◌++◌, map, arith, any, Member, str_eq, eq_iff, Bool-cases, Option-cases, inl,
  inr, if◌then◌else◌,
}
use open_machine_protocol.Dict.{Dict, lookup}
use open_machine_protocol.Json.{Value, Items, Fields, get}
use open_machine_protocol.Envelope.{Envelope}
use open_machine_protocol.Spec.{
  Validator, Profile, Spec, ProfileError, payload, unknown_event, unknown_phase, params,
  core_event_types, before_slash, as_text, find_in, is_core, get_or, items_of, fields_of,
  event_errors, phase_error, phases_errors, profile_errors,
}

-- The value that is there, or an empty object.
abbrev pub or_empty : Option Value → Value
or_empty none = Value.dict Fields.end
or_empty (some v) = v

-- A name is a text that the table has, and its validator finds nothing in the value.
abbrev pub Validates : Option Value → Dict Validator → Value → Type 0
Validates name table v =
    (t : String) × (name ≡ some (Value.text t))
    × (validator : Validator) × (lookup t table ≡ some validator)
    × (validator v ≡ [])

-- The table has no such name.
abbrev pub IsUnknown : Option Value → Dict Validator → Type 0
IsUnknown name table = (t : String) → name ≡ some (Value.text t) → lookup t table ≡ none

abbrev pub IsCoreEvent : Option Value → Type 0
IsCoreEvent name = (t : String) × (name ≡ some (Value.text t)) × Member t core_event_types

-- An event of the core, one of the profile with its payload, or, for a consumer, an unknown one.
abbrev pub AllowsEvent : Bool → Profile → Fields → Type 0
AllowsEvent fc prof body =
    IsCoreEvent (get "event_type" body)
    ⊎ (Validates (get "event_type" body) prof.events (or_empty (get "payload" body))
        ⊎ ((fc ≡ true) × IsUnknown (get "event_type" body) prof.events))

abbrev pub AllowsPhase : Bool → Profile → Fields → Type 0
AllowsPhase fc prof phase =
    Validates (get "name" phase) prof.phases (or_empty (get "params" phase))
    ⊎ ((fc ≡ true) × IsUnknown (get "name" phase) prof.phases)

abbrev pub AllowsPhases : Bool → Profile → Items → Type 0
AllowsPhases fc prof Items.nil = Unit
AllowsPhases fc prof (Items.cons v vs) = AllowsPhase fc prof (fields_of v) × AllowsPhases fc prof vs

-- Of an envelope whose profile is known: what its schema is asked.
abbrev pub Allows : Bool → Spec → Envelope → Type 0
Allows fc spec e =
    (prof : Profile)
    → lookup (before_slash e.profile) spec.profiles ≡ some prof
    → (e.schema ≡ "event" → AllowsEvent fc prof e.body)
      × (e.schema ≡ "process_run" → AllowsPhases fc prof (items_of (get "phases" e.body)))

-- -------------------------------------------------------------------------- one table
-- What the code looks up is a text under the name, or nothing.
Found-cases :
    (name : Option Value) (table : Dict Validator)
    → ((validator : Validator) × (find_in (as_text name) table ≡ some validator)
        × (t : String) × (name ≡ some (Value.text t))
        × (lookup t table ≡ some validator))
      ⊎ ((find_in (as_text name) table ≡ none) × IsUnknown name table)
Found-cases none table = inr (refl, λ t h. absurd (ground arith))
Found-cases (some (Value.text s)) table = elim (Option-cases (lookup s table)) [
  | inr (v, e) ↦ inl (v, e, s, refl, e)
  | inl gone ↦ inr (gone, λ t h. subst (λ x. lookup x table ≡ none) (text_eq s t h) gone)
]
  where
    text_eq : (a b : String) → some (Value.text a) ≡ some (Value.text b) → a ≡ b
    text_eq a b h = cc
Found-cases (some Value.null) table = inr (refl, λ t h. absurd (ground arith))
Found-cases (some (Value.boolean b)) table = inr (refl, λ t h. absurd (ground arith))
Found-cases (some (Value.int n)) table = inr (refl, λ t h. absurd (ground arith))
Found-cases (some (Value.float f)) table = inr (refl, λ t h. absurd (ground arith))
Found-cases (some (Value.list vs)) table = inr (refl, λ t h. absurd (ground arith))
Found-cases (some (Value.dict fs)) table = inr (refl, λ t h. absurd (ground arith))

-- The errors of one name, in the shape that both branches have.
abbrev errors_at :
    (String → ProfileError)
    → ProfileError
    → Bool
    → Option Value
    → Dict Validator
    → Value
    → List ProfileError
errors_at f unknown fc name table v = elim (find_in (as_text name) table) [
  | some validator ↦ map f (validator v)
  | none ↦ if not fc then unknown ∷ [] else []
]

map-eq-nil : {A B : Type 0} (f : A → B) (xs : List A) → map f xs ≡ [] → xs ≡ []
map-eq-nil f [] h = refl
map-eq-nil f (x ∷ xs) h = absurd (ground arith)

some_eq : {A : Type 0} (a b : A) → some a ≡ some b → a ≡ b
some_eq a b h = cc

none_ne : {A : Type 0} (a : A) (o : Option A) → o ≡ none → o ≡ some a → ⊥
none_ne a o h k = ground (arith, h)

errors_at_iff :
    (f : String → ProfileError) (unknown : ProfileError) (fc : Bool) (name : Option Value)
    (table : Dict Validator) (v : Value)
    → (errors_at f unknown fc name table v ≡ [])
      ↔ (Validates name table v ⊎ ((fc ≡ true) × IsUnknown name table))
errors_at_iff f unknown fc name table v = elim (Found-cases name table) [
  | inl (validator, e, t, named, found) ↦
      rw (e, errors_at)
        (
          λ h. inl (t, named, validator, found, map-eq-nil f (validator v) h),
          λ h. elim h [
            | inl (t', named', validator', found', valid) ↦
                let same : t ≡ t' = text_eq t t' (sym named ∙ named') in
                let one : validator' ≡ validator =
                  some_eq validator' validator
                    (sym found' ∙ subst (λ x. lookup x table ≡ some validator) same found) in
                ap (map f) (subst (λ w. w v ≡ []) one valid)
            | inr (lenient, gone) ↦ absurd (none_ne validator (lookup t table) (gone t named) found)
          ],
        )
  | inr (missing, gone) ↦
      rw (missing, errors_at)
        (
          λ h. inr (lenient_of fc h, gone),
          λ h. elim h [
            | inl (t, named, validator, found, valid) ↦
                absurd (none_ne validator (lookup t table) (gone t named) found)
            | inr (lenient, _) ↦ rw lenient refl
          ],
        )
]
  where
    text_eq : (a b : String) → some (Value.text a) ≡ some (Value.text b) → a ≡ b
    text_eq a b h = cc

    lenient_of : (b : Bool) → (if not b then unknown ∷ [] else []) ≡ [] → b ≡ true
    lenient_of true h = refl
    lenient_of false h = absurd (ground arith)

-- ------------------------------------------------------------------------- the branches
any-Member : (t : String) (ts : List String) → (any (λ c. str_eq t c) ts ≡ true) ↔ Member t ts
any-Member t [] = (λ h. absurd (ground arith), λ h. absurd h)
any-Member t (c ∷ ts) = elim (Bool-cases (str_eq t c)) [
  | inl same ↦ rw same (λ h. inl ((eq_iff t c).0 same), λ h. refl)
  | inr other ↦ rw other (
    λ h. inr ((any-Member t ts).0 h),
    λ h. elim h [
      | inl e ↦ absurd (ground (arith, other, eq_iff t c))
      | inr k ↦ (any-Member t ts).1 k
    ],
  )
]

is_core_iff : (name : Option Value) → (is_core (as_text name) ≡ true) ↔ IsCoreEvent name
is_core_iff (some (Value.text s)) = (
  λ h. (s, refl, (any-Member s core_event_types).0 h),
  λ (t, e, m).
      (any-Member s core_event_types).1
        (subst (λ x. Member x core_event_types) (sym (text_eq s t e)) m),
)
  where
    text_eq : (a b : String) → some (Value.text a) ≡ some (Value.text b) → a ≡ b
    text_eq a b h = cc
is_core_iff none = (λ h. absurd (ground arith), λ (t, e, m). absurd (ground arith))
is_core_iff (some Value.null) = (λ h. absurd (ground arith), λ (t, e, m). absurd (ground arith))
is_core_iff (some (Value.boolean b)) =
    (λ h. absurd (ground arith), λ (t, e, m). absurd (ground arith))
is_core_iff (some (Value.int n)) = (λ h. absurd (ground arith), λ (t, e, m). absurd (ground arith))
is_core_iff (some (Value.float f)) =
    (λ h. absurd (ground arith), λ (t, e, m). absurd (ground arith))
is_core_iff (some (Value.list vs)) =
    (λ h. absurd (ground arith), λ (t, e, m). absurd (ground arith))
is_core_iff (some (Value.dict fs)) =
    (λ h. absurd (ground arith), λ (t, e, m). absurd (ground arith))

get_or-eq : (k : String) (fs : Fields) → get_or k fs (Value.dict Fields.end) ≡ or_empty (get k fs)
get_or-eq k fs = on_value (get k fs)
  where
    on_value :
        (o : Option Value) → (elim o [ some v ↦ v | none ↦ Value.dict Fields.end ]) ≡ or_empty o
    on_value none = refl
    on_value (some v) = refl

event_errors_iff :
    (fc : Bool) (name : String) (prof : Profile) (body : Fields)
    → (event_errors fc name prof body ≡ []) ↔ AllowsEvent fc prof body
unfolding event_errors
event_errors_iff fc name prof body =
    let et = get "event_type" body in
    let core = is_core_iff et in
    let table =
      errors_at_iff payload (unknown_event et name) fc et prof.events
        (or_empty (get "payload" body)) in
    elim (Bool-cases (is_core (as_text et))) [
      | inl in_core ↦ rw (in_core, event_errors) (λ h. inl (core.0 in_core), λ h. refl)
      | inr other ↦
          rw (other, event_errors, get_or-eq "payload" body)
            (
              λ h. inr (table.0 h),
              λ h. elim h [ inl c ↦ absurd (ground (arith, other, core.1 c)) | inr k ↦ table.1 k ],
            )
    ]

phase_error_iff :
    (fc : Bool) (name : String) (prof : Profile) (i : ℕ) (phase : Fields)
    → (phase_error fc name prof i phase ≡ []) ↔ AllowsPhase fc prof phase
unfolding phase_error
phase_error_iff fc name prof i phase =
    rw (phase_error, get_or-eq "params" phase)
      (errors_at_iff (params i) (unknown_phase i (get "name" phase) name) fc (get "name" phase)
        prof.phases (or_empty (get "params" phase)))

append-eq-nil : {A : Type 0} (xs ys : List A) → (xs ++ ys ≡ []) ↔ ((xs ≡ []) × (ys ≡ []))
append-eq-nil [] ys = (λ h. (refl, h), λ h. h.1)
append-eq-nil (x ∷ xs) ys = (λ h. absurd (ground arith), λ h. absurd (ground (arith, h.0)))

phases_errors_iff :
    (fc : Bool) (name : String) (prof : Profile) (i : ℕ) (vs : Items)
    → (phases_errors fc name prof i vs ≡ []) ↔ AllowsPhases fc prof vs
unfolding phases_errors
phases_errors_iff fc name prof i Items.nil = (λ h. tt, λ h. refl)
phases_errors_iff fc name prof i (Items.cons v vs) =
    let both =
      append-eq-nil (phase_error fc name prof i (fields_of v))
        (phases_errors fc name prof (suc i) vs) in
    let here = phase_error_iff fc name prof i (fields_of v) in
    let rest = phases_errors_iff fc name prof (suc i) vs in
    (λ h. (here.0 (both.0 h).0, rest.0 (both.0 h).1), λ h. both.1 (here.1 h.0, rest.1 h.1))

not_both : (s : String) → s ≡ "event" → s ≡ "process_run" → ⊥
not_both s e k = absurd (ground (arith, e, k, eq_iff "event" "process_run"))

abbrev branch : Bool → String → Profile → Envelope → List ProfileError
branch fc name prof e =
    if str_eq e.schema "event"
    then event_errors fc name prof e.body
    else if str_eq e.schema "process_run"
    then phases_errors fc name prof 0 (items_of (get "phases" e.body))
    else []

branch_iff :
    (fc : Bool) (name : String) (prof : Profile) (e : Envelope)
    → (branch fc name prof e ≡ []) ↔ (
        (e.schema ≡ "event" → AllowsEvent fc prof e.body)
        × (e.schema ≡ "process_run" → AllowsPhases fc prof (items_of (get "phases" e.body))))
branch_iff fc name prof e =
    let event = event_errors_iff fc name prof e.body in
    let phases = phases_errors_iff fc name prof 0 (items_of (get "phases" e.body)) in
    let is_event = eq_iff e.schema "event" in
    let is_run = eq_iff e.schema "process_run" in
    elim (Bool-cases (str_eq e.schema "event")) [
      | inl first ↦
          rw (first, branch)
            (
              λ h. (λ k. event.0 h, λ k. absurd (not_both e.schema (is_event.0 first) k)),
              λ h. event.1 (h.0 (is_event.0 first)),
            )
      | inr not_event ↦ elim (Bool-cases (str_eq e.schema "process_run")) [
        | inl second ↦
            rw (not_event, second, branch)
              (
                λ h. (λ k. absurd (ground (arith, not_event, is_event.1 k)), λ k. phases.0 h),
                λ h. phases.1 (h.1 (is_run.0 second)),
              )
        | inr neither ↦
            rw (not_event, neither, branch)
              (
                λ h. (
                  λ k. absurd (ground (arith, not_event, is_event.1 k)),
                  λ k. absurd (ground (arith, neither, is_run.1 k)),
                ),
                λ h. refl,
              )
      ]
    ]

-- The constraints of a profile find nothing exactly in what they allow.
pub profile_errors_iff :
    (spec : Spec) (e : Envelope) (fc : Bool) → (profile_errors spec e fc ≡ []) ↔ Allows fc spec e
unfolding profile_errors
profile_errors_iff spec e fc = elim (Option-cases (lookup (before_slash e.profile) spec.profiles)) [
  | inl unknown ↦
      (λ h prof k. absurd (none_ne prof _ unknown k), λ h. rw (unknown, profile_errors) refl)
  | inr (prof, known) ↦
      let shape : profile_errors spec e fc ≡ branch fc (before_slash e.profile) prof e =
        rw (known, profile_errors) refl in
      let iff = branch_iff fc (before_slash e.profile) prof e in
      (
        λ h prof' k.
            subst
              (λ q.
                (e.schema ≡ "event" → AllowsEvent fc q e.body)
                × (e.schema ≡ "process_run" → AllowsPhases fc q (items_of (get "phases" e.body))))
              (some_eq prof prof' (sym known ∙ k)) (iff.0 (sym shape ∙ h)),
        λ h. shape ∙ iff.1 (h prof known),
      )
]
