-- ===== src/Audit/Told.antt =====
-- The facts that `facts_of` reads tell what Telling says of them.
use open_machine_protocol.Prelude.{
  ◌≡◌, ◌↔◌, refl, ap, subst, ◌∙◌, String, true, Option, none, some, List, [], ◌∷◌, arith, any,
  str_eq, eq_iff, Bool-cases, Option-cases, inl, inr, if◌then◌else◌,
}
use open_machine_protocol.Prelude.Int.{ℤ}
use open_machine_protocol.Dict.{Dict, lookup, insert, lookup-insert}
use open_machine_protocol.Json.{Value, Items, Fields, get}
use open_machine_protocol.Envelope.{Envelope}
use open_machine_protocol.Spec.{as_text}
use open_machine_protocol.Audit.Facts.{◌>>=◌, as_int, list_at, as_fields, names, values, is_event}
use open_machine_protocol.Audit.Telling.{Lists, Names, claim_in, last_claim, IsEvent, HasEvent}

-- ----------------------------------------------------------------------------- options
pub bind-eq-some :
    {A B : Type 0} (o : Option A) (f : A → Option B) (b : B)
    → (o >>= f) ≡ some b
    → (a : A) × (o ≡ some a) × (f a ≡ some b)
bind-eq-some none f b h = absurd (ground arith)
bind-eq-some (some a) f b h = (a, refl, h)

pub text_of : (o : Option Value) (s : String) → as_text o ≡ some s → o ≡ some (Value.text s)
text_of none s h = absurd (ground arith)
text_of (some Value.null) s h = absurd (ground arith)
text_of (some (Value.boolean b)) s h = absurd (ground arith)
text_of (some (Value.int n)) s h = absurd (ground arith)
text_of (some (Value.float f)) s h = absurd (ground arith)
text_of (some (Value.text t)) s h = cc
text_of (some (Value.list vs)) s h = absurd (ground arith)
text_of (some (Value.dict fs)) s h = absurd (ground arith)

pub fields_of : (v : Value) (fs : Fields) → as_fields v ≡ some fs → v ≡ Value.dict fs
fields_of Value.null fs h = absurd (ground arith)
fields_of (Value.boolean b) fs h = absurd (ground arith)
fields_of (Value.int n) fs h = absurd (ground arith)
fields_of (Value.float f) fs h = absurd (ground arith)
fields_of (Value.text t) fs h = absurd (ground arith)
fields_of (Value.list vs) fs h = absurd (ground arith)
fields_of (Value.dict gs) fs h = cc

pub list_at-Lists :
    (k : String) (body : Fields) (vs : Items) → list_at k body ≡ some vs → Lists k body vs
list_at-Lists k body vs h = elim (Option-cases (get k body)) [
  | inl gone ↦ inr (gone, nil_of (rw (gone, list_at) at h))
  | inr (v, e) ↦ inl (e ∙ ap some (list_of v (rw (e, list_at) at h)))
]
  where
    nil_of : ◌≡◌ {A = Option Items} (some Items.nil) (some vs) → vs ≡ Items.nil
    nil_of q = cc

    list_of :
        (v : Value) → (elim v [ Value.list us ↦ some us | _ ↦ none ]) ≡ some vs → v ≡ Value.list vs
    list_of Value.null q = absurd (ground arith)
    list_of (Value.boolean b) q = absurd (ground arith)
    list_of (Value.int n) q = absurd (ground arith)
    list_of (Value.float f) q = absurd (ground arith)
    list_of (Value.text t) q = absurd (ground arith)
    list_of (Value.list us) q = cc
    list_of (Value.dict gs) q = absurd (ground arith)

pub names-Names : (vs : Items) (ns : List String) → names vs ≡ some ns → Names vs ns
unfolding names
names-Names Items.nil ns h = nil_eq ns h
  where
    nil_eq : (ns : List String) → ◌≡◌ {A = Option (List String)} (some []) (some ns) → ns ≡ []
    nil_eq ns q = cc
names-Names (Items.cons v vs) ns h =
    let (fs, e, h₁) = bind-eq-some (as_fields v) _ ns h in
    let (name, f, h₂) = bind-eq-some (as_text (get "name" fs)) _ ns h₁ in
    let (rest, g, h₃) = bind-eq-some (names vs) _ ns h₂ in
    subst (Names (Items.cons v vs)) (cons_eq name rest h₃)
      ((fs, fields_of v fs e, text_of _ name f), names-Names vs rest g)
  where
    cons_eq : (name : String) (rest : List String) → some (name ∷ rest) ≡ some ns → name ∷ rest ≡ ns
    cons_eq name rest q = cc

claim_in-eq :
    (fs : Fields) (metric name : String)
    → get "name" fs ≡ some (Value.text name)
    → claim_in metric (Value.dict fs)
      ≡ (if str_eq name metric then as_int (get "value" fs) else none)
claim_in-eq fs metric name h = rw (h, claim_in) refl

last_claim-cons :
    (metric name : String) (n : ℤ) (before : Option ℤ) (v : Value) (vs : Items)
    → claim_in metric v ≡ (if str_eq name metric then some n else none)
    → last_claim metric (if str_eq name metric then some n else before) vs
      ≡ last_claim metric before (Items.cons v vs)
unfolding last_claim
last_claim-cons metric name n before v vs read = elim (Bool-cases (str_eq name metric)) [
  | inl same ↦ rw (same, last_claim, read) (rw same refl)
  | inr other ↦ rw (other, last_claim, read) (rw other refl)
]

pub values-last_claim :
    (vs : Items) (d d' : Dict ℤ) (metric : String)
    → values vs d ≡ some d'
    → lookup metric d' ≡ last_claim metric (lookup metric d) vs
unfolding values last_claim
values-last_claim Items.nil d d' metric h = ap (lookup metric) (some_eq d' h)
  where
    some_eq : (d' : Dict ℤ) → some d ≡ some d' → d' ≡ d
    some_eq d' q = cc
values-last_claim (Items.cons v vs) d d' metric h =
    let (fs, e, h₁) = bind-eq-some (as_fields v) _ d' h in
    let (name, f, h₂) = bind-eq-some (as_text (get "name" fs)) _ d' h₁ in
    let (n, g, h₃) = bind-eq-some (as_int (get "value" fs)) _ d' h₂ in
    let read : claim_in metric v ≡ (if str_eq name metric then some n else none) =
      ap (claim_in metric) (fields_of v fs e)
      ∙ claim_in-eq fs metric name (text_of _ name f)
      ∙ ap (λ o. if str_eq name metric then o else none) g in
    values-last_claim vs (insert name n d) d' metric h₃
    ∙ ap (λ o. last_claim metric o vs) (lookup-insert name metric n d)
    ∙ last_claim-cons metric name n (lookup metric d) v vs read

-- ------------------------------------------------------------------------- the events
pub is_event_iff : (kind : String) (e : Envelope) → (is_event kind e ≡ true) ↔ IsEvent kind e
is_event_iff kind e = elim (Bool-cases (str_eq e.schema "event")) [
  | inr other ↦ rw other (
    λ h. absurd (ground arith),
    λ (s, t). absurd (ground (arith, other, (eq_iff e.schema "event").1 s)),
  )
  | inl same ↦ elim (Option-cases (as_text (get "event_type" e.body))) [
    | inl gone ↦ rw (same, gone) (λ h. absurd (ground arith), λ (s, t). absurd (no_text t gone))
    | inr (s, named) ↦
        rw (same, named)
          (
            λ h. (
              (eq_iff e.schema "event").0 same,
              text_of _ s named ∙ ap (λ q. some (Value.text q)) ((eq_iff s kind).0 h),
            ),
            λ (a, t). (eq_iff s kind).1 (one_text t named),
          )
  ]
]
  where
    no_text :
        get "event_type" e.body ≡ some (Value.text kind)
        → as_text (get "event_type" e.body) ≡ none
        → ⊥
    no_text t gone = absurd (ground (arith, rw t at gone))

    one_text :
        {s : String}
        → get "event_type" e.body ≡ some (Value.text kind)
        → as_text (get "event_type" e.body) ≡ some s
        → s ≡ kind
    one_text {s} t named = some_eq (rw t at named)
      where
        some_eq : some kind ≡ some s → s ≡ kind
        some_eq q = cc

pub any-HasEvent :
    (kind : String) (es : List Envelope) → (any (is_event kind) es ≡ true) ↔ HasEvent kind es
any-HasEvent kind [] = (λ h. absurd (ground arith), λ (e, m, h). absurd m)
any-HasEvent kind (e ∷ es) = elim (Bool-cases (is_event kind e)) [
  | inl here ↦ rw here (λ h. (e, inl refl, (is_event_iff kind e).0 here), λ h. refl)
  | inr not_here ↦ rw not_here (
    λ h. let (x, m, i) = (any-HasEvent kind es).0 h in (x, inr m, i),
    λ (x, m, i). elim m [
      | inl same ↦
          absurd (ground (arith, not_here, (is_event_iff kind e).1 (subst (IsEvent kind) same i)))
      | inr later ↦ (any-HasEvent kind es).1 (x, later, i)
    ],
  )
]
