-- ===== src/Audit/Readings.antt =====
-- The sums of `totals_in`, said of the energy events of each metric.
use open_machine_protocol.Prelude.{
  ◌≡◌, refl, ap, subst, ◌∙◌, String, true, Option, none, some, List, [], ◌∷◌, str_eq, eq_iff,
  Bool-cases, inl, inr, if◌then◌else◌,
}
use open_machine_protocol.Prelude.Int.{ℤ, pos, ◌+ℤ◌}
use open_machine_protocol.Dict.{Dict, lookup, insert, lookup-insert, Distinct, insert-Distinct}
use open_machine_protocol.Json.{Value, get}
use open_machine_protocol.Envelope.{Envelope}
use open_machine_protocol.Spec.{as_text}
use open_machine_protocol.Audit.Facts.{as_int, or_zero, totals_in}
use open_machine_protocol.Audit.Telling.{reading_of, readings, total_from}
use open_machine_protocol.Audit.Told.{bind-eq-some, text_of}

-- `totals_in` keeps one entry for each metric.
pub totals_in-Distinct :
    (es : List Envelope) (d d' : Dict ℤ) → Distinct d → totals_in es d ≡ some d' → Distinct d'
unfolding totals_in
totals_in-Distinct [] d d' u h = subst Distinct (some_eq d' h) u
  where
    some_eq : (d' : Dict ℤ) → some d ≡ some d' → d ≡ d'
    some_eq d' q = cc
totals_in-Distinct (e ∷ es) d d' u h = elim (Bool-cases (str_eq e.schema "energy")) [
  | inr other ↦ totals_in-Distinct es d d' u (rw (other, totals_in) at h)
  | inl energy ↦
      let (metric, f, h₁) =
        bind-eq-some (as_text (get "metric" e.body)) _ d' (rw (energy, totals_in) at h) in
      let (n, g, h₂) = bind-eq-some (as_int (get "value" e.body)) _ d' h₁ in
      totals_in-Distinct es (insert metric (or_zero (lookup metric d) +ℤ n) d) d'
        (insert-Distinct metric (or_zero (lookup metric d) +ℤ n) d u) h₂
]

with_zero : Option ℤ → ℤ
with_zero t = elim t [ none ↦ pos 0 | some m ↦ m ]

or_zero-eq : (t : Option ℤ) → or_zero t ≡ with_zero t
unfolding with_zero
or_zero-eq none = refl
or_zero-eq (some m) = refl

readings-step :
    (e : Envelope) (es : List Envelope) (metric name : String) (n : ℤ) (d : Dict ℤ)
    → reading_of metric e ≡ (if str_eq name metric then some n else none)
    → total_from (lookup metric (insert name (or_zero (lookup name d) +ℤ n) d)) (readings metric es)
      ≡ total_from (lookup metric d) (readings metric (e ∷ es))
unfolding total_from readings with_zero
readings-step e es metric name n d read = elim (Bool-cases (str_eq name metric)) [
  | inl same ↦
      rw (lookup-insert name metric (or_zero (lookup name d) +ℤ n) d, same, readings, read)
        (rw (same, total_from)
          (ap (λ t. total_from (some (t +ℤ n)) (readings metric es))
            (or_zero-eq (lookup name d)
              ∙ ap (λ k. with_zero (lookup k d)) ((eq_iff name metric).0 same))))
  | inr other ↦
      rw (lookup-insert name metric (or_zero (lookup name d) +ℤ n) d, other, readings, read)
        (rw other refl)
]

reading_of-energy :
    (e : Envelope) (metric name : String) (n : ℤ)
    → str_eq e.schema "energy" ≡ true
    → get "metric" e.body ≡ some (Value.text name)
    → as_int (get "value" e.body) ≡ some n
    → reading_of metric e ≡ (if str_eq name metric then some n else none)
reading_of-energy e metric name n s f g = rw (s, reading_of, f, g) refl

pub totals_in-total_from :
    (es : List Envelope) (d d' : Dict ℤ) (metric : String)
    → totals_in es d ≡ some d'
    → lookup metric d' ≡ total_from (lookup metric d) (readings metric es)
unfolding totals_in readings total_from
totals_in-total_from [] d d' metric h = ap (lookup metric) (some_eq d' h)
  where
    some_eq : (d' : Dict ℤ) → some d ≡ some d' → d' ≡ d
    some_eq d' q = cc
totals_in-total_from (e ∷ es) d d' metric h = elim (Bool-cases (str_eq e.schema "energy")) [
  | inr other ↦
      totals_in-total_from es d d' metric (rw (other, totals_in) at h) ∙ rw (readings, other) refl
  | inl energy ↦
      let (name, f, h₁) =
        bind-eq-some (as_text (get "metric" e.body)) _ d' (rw (energy, totals_in) at h) in
      let (n, g, h₂) = bind-eq-some (as_int (get "value" e.body)) _ d' h₁ in
      totals_in-total_from es (insert name (or_zero (lookup name d) +ℤ n) d) d' metric h₂
      ∙ readings-step e es metric name n d
          (reading_of-energy e metric name n energy (text_of _ name f) g)
]
