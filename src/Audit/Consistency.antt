-- ===== src/Audit/Consistency.antt =====
-- `check_consistency` of tools/omp_tools/audit.py: the comparisons of the facts, and the verdict. Claims are
-- integers below 2 ^ 52, on which the ratio of floats and its bound compare exactly. A body with fields of
-- other types than its schema allows ends in `malformed_body`.
use Prim.Native.String.{◌++◌ as str_append}
use open_machine_protocol.Prelude.{
  ℕ, ◌+◌, ◌*◌, String, Bool, false, not, ◌&&◌, ◌||◌, none, some, List, [], ◌∷◌, ◌++◌, str_eq, ◌==◌,
  ltb, any, select, is_empty, max, if◌then◌else◌,
}
use open_machine_protocol.Prelude.Int.{ℤ, pos_part, neg_part, ◌-ℤ◌}
use open_machine_protocol.Dict.{Dict, lookup}
use open_machine_protocol.Envelope.{Envelope}
use open_machine_protocol.Audit.{
  Finding, unstarted_phases, undeclared_phases, quantity_differs, no_run_start, no_run_end, Check,
  malformed_body, Audited, done, error,
}
use open_machine_protocol.Audit.Facts.{Facts, facts_of}

-- The number of comparisons and what they find.
pub record Compared : Type 0 where
  pub count : ℕ
  pub found : List Finding

abbrev pub nothing : Compared
nothing = record { count = 0; found = [] }

abbrev pub joined : Compared → Compared → Compared
joined a b = record { count = a.count + b.count; found = a.found ++ b.found }

abbrev pub among : List String → String → Bool
among names s = any (str_eq s) names

abbrev pub unless_empty : (List String → Finding) → List String → List Finding
unless_empty finding names = if is_empty names then [] else finding names ∷ []

unfoldable pub compare_phases : List String → List String → Compared
compare_phases declared started =
    if is_empty declared || is_empty started then nothing else record {
      count = 1;
      found =
          unless_empty unstarted_phases (select (λ p. not (among started p)) declared)
          ++ unless_empty undeclared_phases (select (λ p. not (among declared p)) started);
    }

abbrev pub magnitude : ℤ → ℕ
magnitude n = pos_part n + neg_part n

-- claimed and difference / max(claimed, 1) > 0.01
abbrev pub off_by : ℕ → ℕ → Bool
off_by claimed difference = if claimed == 0 then false else ltb (max claimed 1) (100 * difference)

unfoldable pub is_off : ℤ → ℤ → Bool
unfolding ◌-ℤ◌
is_off claimed total = off_by (magnitude claimed) (magnitude (claimed -ℤ total))

abbrev pub compare_claim : String → ℤ → ℤ → Compared
compare_claim name total claimed = record {
  count = 1;
  found = if is_off claimed total then quantity_differs name claimed total ∷ [] else [];
}

-- The inner loop, over the two names of a quantity.
unfoldable pub compare_quantity : Dict ℤ → String → ℤ → Compared
unfolding lookup is_off
compare_quantity quantities metric total = elim (lookup (str_append metric "_total") quantities) [
  | some claimed ↦ compare_claim (str_append metric "_total") total claimed
  | none ↦ elim (lookup metric quantities) [
    | some claimed ↦ compare_claim metric total claimed
    | none ↦ nothing
  ]
]

unfoldable pub compare_totals : Dict ℤ → Dict ℤ → Compared
unfolding compare_quantity
compare_totals quantities [] = nothing
compare_totals quantities ((metric, total) ∷ totals) =
    joined (compare_quantity quantities metric total) (compare_totals quantities totals)

unfoldable pub compare_bounds : Bool → Bool → Bool → Compared
compare_bounds has_start has_end completed =
    if has_start || has_end
    then record {
      count = 1;
      found =
          (if has_start then [] else no_run_start ∷ [])
          ++ (if not has_end && completed then no_run_end ∷ [] else []);
    }
    else nothing

unfoldable pub compare_all : Facts → Compared
unfolding compare_phases compare_totals compare_bounds
compare_all f = joined (compare_phases f.declared f.started) (
    joined (compare_totals f.quantities f.totals)
      (compare_bounds f.has_start f.has_end f.completed))

abbrev pub verdict_on : Compared → Check
verdict_on c =
    if c.count == 0
    then record { passed = none; findings = [] }
    else record { passed = some (is_empty c.found); findings = c.found }

unfoldable pub check_consistency : List Envelope → Envelope → Audited Check
unfolding facts_of compare_all
check_consistency cited run = elim (facts_of cited run) [
  | none ↦ error malformed_body
  | some f ↦ done (verdict_on (compare_all f))
]
