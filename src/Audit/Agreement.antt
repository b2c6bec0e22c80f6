-- ===== src/Audit/Agreement.antt =====
-- What each verdict of `check_consistency` means.
use Prim.Native.String.{◌++◌ as str_append}
use open_machine_protocol.Prelude.{
  ◌≡◌, ◌⊎◌, refl, String, Bool, true, false, Option, none, some, List, [], ◌∷◌, arith, All, ◌==◌,
  ==_iff, is_empty, select, Bool-cases, Option-cases, inl, inr,
}
use open_machine_protocol.Prelude.Int.{ℤ}
use open_machine_protocol.Dict.{Dict, lookup}
use open_machine_protocol.Envelope.{Envelope}
use open_machine_protocol.Audit.{Finding, of_machine}
use open_machine_protocol.Audit.Telling.{Tells}
use open_machine_protocol.Audit.Known.{facts_of-Tells}
use open_machine_protocol.Audit.Consistency.{
  compare_phases, compare_quantity, compare_totals, compare_bounds, compare_all, verdict_on,
  check_consistency,
}
use open_machine_protocol.Audit.Facts.{Facts, facts_of}
use open_machine_protocol.Audit.Completeness.{Verdict}
use open_machine_protocol.Audit.Comparisons.{claim_of, Agrees, IsSilent, compare_all-found}

compare_phases-count :
    (declared started : List String)
    → ((compare_phases declared started).count ≡ 0)
    → (declared ≡ []) ⊎ (started ≡ [])
unfolding compare_phases
compare_phases-count [] started h = inl refl
compare_phases-count (p ∷ ps) [] h = inr refl
compare_phases-count (p ∷ ps) (q ∷ qs) h = absurd (omega arith)

compare_quantity-count :
    (quantities : Dict ℤ) (metric : String) (total : ℤ)
    → (compare_quantity quantities metric total).count ≡ 0
    → claim_of quantities metric ≡ none
unfolding compare_quantity claim_of
compare_quantity-count quantities metric total =
    elim (Option-cases (lookup (str_append metric "_total") quantities)) [
      | inr (c, named) ↦ rw (named, compare_quantity, claim_of) (λ h. absurd (omega arith))
      | inl none_named ↦ elim (Option-cases (lookup metric quantities)) [
        | inr (c, plain) ↦
            rw (none_named, plain, compare_quantity, claim_of) (λ h. absurd (omega arith))
        | inl silent ↦ rw (none_named, silent, compare_quantity, claim_of) (λ h. refl)
      ]
    ]

compare_totals-count :
    (quantities totals : Dict ℤ)
    → (compare_totals quantities totals).count ≡ 0
    → All (λ t. claim_of quantities t.0 ≡ none) totals
unfolding compare_totals
compare_totals-count quantities [] h = tt
compare_totals-count quantities ((metric, total) ∷ totals) h = (
  compare_quantity-count quantities metric total (omega arith),
  compare_totals-count quantities totals (omega arith),
)

compare_bounds-count :
    (has_start has_end completed : Bool)
    → (compare_bounds has_start has_end completed).count ≡ 0
    → (has_start ≡ false) × (has_end ≡ false)
unfolding compare_bounds
compare_bounds-count true e c h = absurd (omega arith)
compare_bounds-count false true c h = absurd (omega arith)
compare_bounds-count false false c h = (refl, refl)

compare_all-count : (f : Facts) → (compare_all f).count ≡ 0 → IsSilent f
unfolding compare_all
compare_all-count f h =
    let bounds = compare_bounds-count f.has_start f.has_end f.completed (omega arith) in
    record {
      phases = compare_phases-count f.declared f.started (omega arith);
      totals = compare_totals-count f.quantities f.totals (omega arith);
      starts = bounds.0;
      ends = bounds.1;
    }

-- What a verdict stands for.
abbrev pub AgreementMeans : Facts → Option Bool → Type 0
AgreementMeans f (some true) = Agrees f
AgreementMeans f (some false) = ¬ Agrees f
AgreementMeans f none = IsSilent f

abbrev pub ConsistencyMeans : List Envelope → Envelope → Option Bool → Type 0
ConsistencyMeans cited run v =
    (f : Facts) × (facts_of cited run ≡ some f)
    × Tells (select (of_machine run) cited) run f
    × AgreementMeans f v

found-means :
    (f : Facts) (found : List Finding)
    → (compare_all f).found ≡ found
    → AgreementMeans f (some (is_empty found))
found-means f [] e = (compare_all-found f).0 e
found-means f (x ∷ xs) e = λ a. absurd (ground (arith, (compare_all-found f).1 a))

verdict_on-means : (f : Facts) → AgreementMeans f (verdict_on (compare_all f)).passed
verdict_on-means f = elim (Bool-cases ((compare_all f).count == 0)) [
  | inl silent ↦ rw silent (compare_all-count f ((==_iff _ 0).0 silent))
  | inr compared ↦ rw compared (found-means f _ refl)
]

-- A consistency check that is done reports what holds of what the summary and the cited events of its
-- machine tell: `true` only if the declared phases and those of the phase_start events are the same where
-- there are both, each metric's energy values add up to within one percent of the quantity that the summary
-- last claims for it, unless that is zero or there is none, a run_end event comes with a run_start, and if
-- the outcome is "completed" a run_start comes with a run_end; `false` only if some of this fails; and "not
-- checked" only if there is nothing to compare.
pub check_consistency-means :
    (cited : List Envelope) (run : Envelope)
    → Verdict (ConsistencyMeans cited run) (check_consistency cited run)
unfolding check_consistency
check_consistency-means cited run = elim (Option-cases (facts_of cited run)) [
  | inl malformed ↦ rw (malformed, check_consistency) tt
  | inr (f, e) ↦ rw (e, check_consistency) (f, e, facts_of-Tells cited run f e, verdict_on-means f)
]
