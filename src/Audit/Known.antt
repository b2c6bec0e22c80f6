-- ===== src/Audit/Known.antt =====
-- What `facts_of` reads from the summary and the cited events is what they tell.
use open_machine_protocol.Prelude.{
  ◌≡◌, ◌≢◌, ◌↔◌, refl, sym, ap, subst, ◌∙◌, String, true, false, Option, none, some, List, [], ◌∷◌,
  arith, Member, select, is_empty, eq_iff, Bool-cases, Option-cases, inl, inr, if◌then◌else◌,
}
use open_machine_protocol.Json.{Value, Fields, get}
use open_machine_protocol.Envelope.{Envelope}
use open_machine_protocol.Spec.{as_text}
use open_machine_protocol.Audit.{of_machine}
use open_machine_protocol.Audit.Facts.{
  ◌>>=◌, Facts, list_at, as_fields, names, values, is_event, phase_in, started_in, totals_in,
  is_completed, facts_of,
}
use open_machine_protocol.Audit.Telling.{IsEvent, StartsPhase, Tells}
use open_machine_protocol.Audit.Told.{
  bind-eq-some, text_of, fields_of, list_at-Lists, names-Names, values-last_claim, is_event_iff,
  any-HasEvent,
}
use open_machine_protocol.Audit.Readings.{totals_in-Distinct, totals_in-total_from}

-- The phase that a payload names.
abbrev Phased : Option Value → String → Type 0
Phased o phase =
    (fs : Fields) × (o ≡ some (Value.dict fs)) × (get "phase" fs ≡ some (Value.text phase))

some_eq : {A : Type 0} (a b : A) → some a ≡ some b → a ≡ b
some_eq a b h = cc

phase_in-Phased :
    (o : Option Value) (phase : String) → Phased o phase → phase_in o ≡ some (some phase)
phase_in-Phased o phase (fs, e, f) =
    ap phase_in e
    ∙ ap (λ w. elim w [ none ↦ some none | some p ↦ (as_text (some p) >>= λ s. some (some s)) ]) f

phase_in-none : (o : Option Value) (phase : String) → phase_in o ≡ some none → Phased o phase → ⊥
phase_in-none o phase h x = absurd (clash (sym h ∙ phase_in-Phased o phase x))
  where
    clash : ◌≡◌ {A = Option (Option String)} (some none) (some (some phase)) → ⊥
    clash q = absurd (ground (arith, some_eq none (some phase) q))

phase_in-some :
    (o : Option Value) (phase : String) → phase_in o ≡ some (some phase) → Phased o phase
phase_in-some none phase h = absurd (ground arith)
phase_in-some (some v) phase h =
    let (fs, e, h₁) = bind-eq-some (as_fields v) _ (some phase) h in
    elim (Option-cases (get "phase" fs)) [
      | inl gone ↦ absurd (ground (arith, rw gone at h₁))
      | inr (w, f) ↦
          let (s, g, h₂) = bind-eq-some (as_text (some w)) _ (some phase) (rw f at h₁) in
          (
            fs,
            ap some (fields_of v fs e),
            f
                ∙ text_of (some w) s g
                ∙ ap (λ q. some (Value.text q)) (some_eq s phase (some_eq _ _ h₂)),
          )
    ]

phase_in-one :
    (o : Option Value) (p phase : String) → phase_in o ≡ some (some p) → Phased o phase → phase ≡ p
phase_in-one o p phase h x = some_eq phase p (some_eq _ _ (sym (phase_in-Phased o phase x) ∙ h))

abbrev Starter : List Envelope → String → Type 0
Starter es phase = (e : Envelope) × Member e es × StartsPhase phase e

started_in-Starter :
    (es : List Envelope) (started : List String) (phase : String)
    → started_in es ≡ some started
    → Member phase started ↔ Starter es phase
unfolding started_in
started_in-Starter [] started phase h =
    subst (λ ps. Member phase ps ↔ Starter [] phase) (some_eq [] started h)
      (λ m. absurd m, λ (e, m, s). absurd m)
started_in-Starter (e ∷ es) started phase h = elim (Bool-cases (is_event "phase_start" e)) [
  | inr other ↦
      let later = started_in-Starter es started phase (rw (other, started_in) at h) in
      (
        λ m. let (x, k, s) = later.0 m in (x, inr k, s),
        λ (x, k, s). elim k [
          | inl same ↦ absurd (not_this other (subst (IsEvent "phase_start") same s.0))
          | inr k' ↦ later.1 (x, k', s)
        ],
      )
  | inl starts ↦
      let (named, f, h₁) =
        bind-eq-some (phase_in (get "payload" e.body)) _ started (rw (starts, started_in) at h) in
      let (rest, g, h₂) = bind-eq-some (started_in es) _ started h₁ in
      let later = started_in-Starter es rest phase g in
      subst (λ ps. Member phase ps ↔ Starter (e ∷ es) phase) (some_eq _ started h₂)
        (joined named rest ((is_event_iff "phase_start" e).0 starts) f later)
]
  where
    phased : StartsPhase phase e → Phased (get "payload" e.body) phase
    phased (i, fs, g, q) = (fs, g, q)

    starter : IsEvent "phase_start" e → Phased (get "payload" e.body) phase → StartsPhase phase e
    starter i (fs, g, q) = (i, fs, g, q)

    not_this : is_event "phase_start" e ≡ false → IsEvent "phase_start" e → ⊥
    not_this other i = absurd (ground (arith, other, (is_event_iff "phase_start" e).1 i))

    joined :
        (named : Option String) (rest : List String)
        → IsEvent "phase_start" e
        → phase_in (get "payload" e.body) ≡ some named
        → Member phase rest ↔ Starter es phase
        → Member phase (elim named [ none ↦ rest | some s ↦ s ∷ rest ]) ↔ Starter (e ∷ es) phase
    joined none rest i f later = (
      λ m. let (x, k, s) = later.0 m in (x, inr k, s),
      λ (x, k, s). elim k [
        | inl same ↦ absurd (phase_in-none _ phase f (phased (subst (StartsPhase phase) same s)))
        | inr k' ↦ later.1 (x, k', s)
      ],
    )
    joined (some p) rest i f later = (
      λ m. elim m [
        | inl same ↦ (
          e,
          inl refl,
          starter i (
              phase_in-some _ phase
                (subst (λ q. phase_in (get "payload" e.body) ≡ some (some q)) (sym same) f)),
        )
        | inr m' ↦ let (x, k, s) = later.0 m' in (x, inr k, s)
      ],
      λ (x, k, s). elim k [
        | inl same ↦ inl (phase_in-one _ p phase f (phased (subst (StartsPhase phase) same s)))
        | inr k' ↦ inr (later.1 (x, k', s))
      ],
    )

is_completed_iff :
    (outcome : Option Value)
    → (is_completed outcome ≡ true) ↔ (outcome ≡ some (Value.text "completed"))
is_completed_iff outcome = elim (Option-cases (as_text outcome)) [
  | inl gone ↦
      rw (is_completed, gone)
        (λ h. absurd (ground arith), λ e. absurd (ground (arith, rw e at gone)))
  | inr (s, e) ↦
      rw (is_completed, e)
        (
          λ h. text_of outcome s e ∙ ap (λ q. some (Value.text q)) ((eq_iff s "completed").0 h),
          λ f. (eq_iff s "completed").1 (some_eq s "completed" (sym (rw f at e))),
        )
]

pub facts_of-Tells :
    (cited : List Envelope) (run : Envelope) (f : Facts)
    → facts_of cited run ≡ some f
    → Tells (select (of_machine run) cited) run f
unfolding facts_of
facts_of-Tells cited run f h =
    let same = select (of_machine run) cited in
    let (phases, e₁, h₁) = bind-eq-some (list_at "phases" run.body) _ f h in
    let (declared, e₂, h₂) = bind-eq-some (names phases) _ f h₁ in
    let (started, e₃, h₃) =
      bind-eq-some (if is_empty declared then some [] else started_in same) _ f h₂ in
    let (claims, e₄, h₄) = bind-eq-some (list_at "quantities" run.body) _ f h₃ in
    let (quantities, e₅, h₅) = bind-eq-some (values claims []) _ f h₄ in
    let (totals, e₆, h₆) = bind-eq-some (totals_in same []) _ f h₅ in
    subst (Tells same run) (some_eq _ f h₆) (record {
      declared = (phases, list_at-Lists _ _ phases e₁, names-Names phases declared e₂);
      started = λ some_declared phase.
          started_in-Starter same started phase (there declared started some_declared e₃);
      quantities = (
        claims,
        list_at-Lists _ _ claims e₄,
        λ metric. values-last_claim claims [] quantities metric e₅,
      );
      distinct = totals_in-Distinct same [] totals tt e₆;
      totals = λ metric. totals_in-total_from same [] totals metric e₆;
      starts = any-HasEvent "run_start" same;
      ends = any-HasEvent "run_end" same;
      completed = is_completed_iff (get "outcome" run.body);
    })
  where
    there :
        (declared started : List String)
        → declared ≢ []
        → (if is_empty declared then some [] else started_in (select (of_machine run) cited))
          ≡ some started
        → started_in (select (of_machine run) cited) ≡ some started
    there [] started d q = absurd (d refl)
    there (n ∷ ns) started d q = q
