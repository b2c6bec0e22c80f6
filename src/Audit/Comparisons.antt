-- ===== src/Audit/Comparisons.antt =====
-- When the comparisons of the consistency check find nothing.
use Prim.Native.String.{◌++◌ as str_append}
use open_machine_protocol.Prelude.{
  ℕ, ◌*◌, ◌≤◌, ◌≡◌, ◌≢◌, ◌↔◌, ◌⊎◌, refl, ap, String, Bool, true, false, not, Option, none, some,
  List, [], ◌∷◌, ◌++◌, arith, Member, All, str_eq, eq_iff, select, max, Bool-cases, Option-cases,
  inl, inr,
}
use open_machine_protocol.Prelude.Int.{ℤ, pos, negsuc, ◌-ℤ◌}
use open_machine_protocol.Dict.{Dict, lookup}
use open_machine_protocol.Audit.{Finding, unstarted_phases, undeclared_phases}
use open_machine_protocol.Audit.Consistency.{
  among, unless_empty, compare_phases, magnitude, off_by, is_off, compare_claim, compare_quantity,
  compare_totals, compare_bounds, compare_all,
}
use open_machine_protocol.Audit.Facts.{Facts}

-- Where there are phases on both sides, each is on the other.
abbrev pub PhasesAgree : List String → List String → Type 0
PhasesAgree declared started =
    declared ≢ []
    → started ≢ []
    → All (λ p. Member p started) declared × All (λ p. Member p declared) started

-- The quantity that the summary claims for a metric.
unfoldable pub claim_of : Dict ℤ → String → Option ℤ
claim_of quantities metric = elim (lookup (str_append metric "_total") quantities) [
  | some claimed ↦ some claimed
  | none ↦ lookup metric quantities
]

-- A claim that is zero is not compared; any other is within one percent of the sum.
abbrev pub ClaimHolds : ℤ → Option ℤ → Type 0
ClaimHolds total none = Unit
ClaimHolds total (some claimed) =
    (claimed ≡ pos 0) ⊎ (100 * magnitude (claimed -ℤ total) ≤ max (magnitude claimed) 1)

pub record Agrees (f : Facts) : Type 0 where
  pub phases : PhasesAgree f.declared f.started
  pub totals : All (λ t. ClaimHolds t.1 (claim_of f.quantities t.0)) f.totals
  pub starts : f.has_end ≡ true → f.has_start ≡ true
  pub ends : f.has_start ≡ true → f.completed ≡ true → f.has_end ≡ true

-- There is nothing to compare.
pub record IsSilent (f : Facts) : Type 0 where
  pub phases : (f.declared ≡ []) ⊎ (f.started ≡ [])
  pub totals : All (λ t. claim_of f.quantities t.0 ≡ none) f.totals
  pub starts : f.has_start ≡ false
  pub ends : f.has_end ≡ false

-- ----------------------------------------------------------------------------- phases
among_iff : (names : List String) (s : String) → (among names s ≡ true) ↔ Member s names
among_iff [] s = (λ h. absurd (ground arith), λ h. absurd h)
among_iff (n ∷ names) s = elim (Bool-cases (str_eq s n)) [
  | inl same ↦ rw same (λ h. inl ((eq_iff s n).0 same), λ m. refl)
  | inr other ↦ rw other (
    λ h. inr ((among_iff names s).0 h),
    λ m. elim m [ inl e ↦ absurd (ground (arith, eq_iff s n)) | inr k ↦ (among_iff names s).1 k ],
  )
]

-- What the loops gather is empty.
none_missing :
    (names ps : List String)
    → (select (λ p. not (among names p)) ps ≡ []) ↔ All (λ p. Member p names) ps
none_missing names [] = (λ h. tt, λ h. refl)
none_missing names (p ∷ ps) = elim (Bool-cases (among names p)) [
  | inl here ↦ rw here (
    λ h. ((among_iff names p).0 here, (none_missing names ps).0 h),
    λ h. (none_missing names ps).1 h.1,
  )
  | inr gone ↦
      rw gone (λ h. absurd (ground arith), λ h. absurd (ground (arith, (among_iff names p).1 h.0)))
]

append-eq-nil : {A : Type 0} (xs ys : List A) → (xs ++ ys ≡ []) ↔ ((xs ≡ []) × (ys ≡ []))
append-eq-nil [] ys = (λ h. (refl, h), λ h. h.1)
append-eq-nil (x ∷ xs) ys = (λ h. absurd (ground arith), λ h. absurd (ground (arith, h.0)))

unless_empty-eq-nil :
    (finding : List String → Finding) (names : List String)
    → (unless_empty finding names ≡ []) ↔ (names ≡ [])
unless_empty-eq-nil finding [] = (λ h. refl, λ h. refl)
unless_empty-eq-nil finding (n ∷ names) = (λ h. absurd (ground arith), λ h. absurd (ground arith))

cons_ne : (x : String) (xs : List String) → x ∷ xs ≢ []
cons_ne x xs e = cc

compare_phases-found :
    (declared started : List String)
    → ((compare_phases declared started).found ≡ []) ↔ PhasesAgree declared started
unfolding compare_phases
compare_phases-found [] started = (λ h d s. absurd (d refl), λ h. refl)
compare_phases-found (p ∷ ps) [] = (λ h d s. absurd (s refl), λ h. refl)
compare_phases-found (p ∷ ps) (q ∷ qs) = (
  λ h d s.
      let both = (append-eq-nil unstarted undeclared).0 h in
      (
        (none_missing (q ∷ qs) (p ∷ ps)).0 ((unless_empty-eq-nil unstarted_phases _).0 both.0),
        (none_missing (p ∷ ps) (q ∷ qs)).0 ((unless_empty-eq-nil undeclared_phases _).0 both.1),
      ),
  λ h.
      let both = h (cons_ne p ps) (cons_ne q qs) in
      (append-eq-nil unstarted undeclared).1 (
        (unless_empty-eq-nil unstarted_phases _).1 ((none_missing (q ∷ qs) (p ∷ ps)).1 both.0),
        (unless_empty-eq-nil undeclared_phases _).1 ((none_missing (p ∷ ps) (q ∷ qs)).1 both.1),
      ),
)
  where
    unstarted : List Finding
    unstarted = unless_empty unstarted_phases (select (λ r. not (among (q ∷ qs) r)) (p ∷ ps))

    undeclared : List Finding
    undeclared = unless_empty undeclared_phases (select (λ r. not (among (p ∷ ps) r)) (q ∷ qs))

-- ------------------------------------------------------------------------- quantities
zero_of : (c : ℤ) → magnitude c ≡ 0 → c ≡ pos 0
zero_of (pos n) h = ap pos (omega arith)
zero_of (negsuc n) h = absurd (omega arith)

off_by-eq-false : (m d : ℕ) → (off_by m d ≡ false) ↔ ((m ≡ 0) ⊎ (100 * d ≤ max m 1))
off_by-eq-false m d = ground arith

is_off-eq-false :
    (claimed total : ℤ) → (is_off claimed total ≡ false) ↔ ClaimHolds total (some claimed)
unfolding is_off
is_off-eq-false claimed total =
    let off = off_by-eq-false (magnitude claimed) (magnitude (claimed -ℤ total)) in
    (λ h. to (off.0 h), λ h. off.1 (from h))
  where
    to :
        (magnitude claimed ≡ 0) ⊎ (100 * magnitude (claimed -ℤ total) ≤ max (magnitude claimed) 1)
        → ClaimHolds total (some claimed)
    to (inl e) = inl (zero_of claimed e)
    to (inr h) = inr h

    from :
        ClaimHolds total (some claimed)
        → (magnitude claimed ≡ 0) ⊎ (100 * magnitude (claimed -ℤ total) ≤ max (magnitude claimed) 1)
    from (inl e) = inl (ap magnitude e)
    from (inr h) = inr h

compare_claim-found :
    (name : String) (total claimed : ℤ)
    → ((compare_claim name total claimed).found ≡ []) ↔ ClaimHolds total (some claimed)
compare_claim-found name total claimed = elim (Bool-cases (is_off claimed total)) [
  | inl off ↦ rw off (
    λ h. absurd (ground arith),
    λ h. absurd (ground (arith, (is_off-eq-false claimed total).1 h)),
  )
  | inr near ↦ rw near (λ h. (is_off-eq-false claimed total).0 near, λ h. refl)
]

compare_quantity-found :
    (quantities : Dict ℤ) (metric : String) (total : ℤ)
    → ((compare_quantity quantities metric total).found ≡ [])
      ↔ ClaimHolds total (claim_of quantities metric)
unfolding compare_quantity claim_of
compare_quantity-found quantities metric total =
    elim (Option-cases (lookup (str_append metric "_total") quantities)) [
      | inr (c, named) ↦
          rw (named, compare_quantity, claim_of)
            (compare_claim-found (str_append metric "_total") total c)
      | inl none_named ↦ elim (Option-cases (lookup metric quantities)) [
        | inr (c, plain) ↦
            rw (none_named, plain, compare_quantity, claim_of) (compare_claim-found metric total c)
        | inl silent ↦ rw (none_named, silent, compare_quantity, claim_of) (λ h. tt, λ h. refl)
      ]
    ]

compare_totals-found :
    (quantities totals : Dict ℤ)
    → ((compare_totals quantities totals).found ≡ [])
      ↔ All (λ t. ClaimHolds t.1 (claim_of quantities t.0)) totals
unfolding compare_totals
compare_totals-found quantities [] = (λ h. tt, λ h. refl)
compare_totals-found quantities ((metric, total) ∷ totals) =
    let both =
      append-eq-nil (compare_quantity quantities metric total).found
        (compare_totals quantities totals).found in
    let here = compare_quantity-found quantities metric total in
    let rest = compare_totals-found quantities totals in
    (λ h. (here.0 (both.0 h).0, rest.0 (both.0 h).1), λ h. both.1 (here.1 h.0, rest.1 h.1))

compare_bounds-found :
    (has_start has_end completed : Bool)
    → ((compare_bounds has_start has_end completed).found ≡ []) ↔ (
        (has_end ≡ true → has_start ≡ true)
        × (has_start ≡ true → completed ≡ true → has_end ≡ true))
unfolding compare_bounds
compare_bounds-found true true completed = (λ h. (λ e. refl, λ e c. refl), λ h. refl)
compare_bounds-found true false true =
    (λ h. absurd (ground arith), λ h. absurd (ground (arith, h.1 refl refl)))
compare_bounds-found true false false = (λ h. (λ e. refl, λ e c. absurd (ground arith)), λ h. refl)
compare_bounds-found false true completed =
    (λ h. absurd (ground arith), λ h. absurd (ground (arith, h.0 refl)))
compare_bounds-found false false completed =
    (λ h. (λ e. absurd (ground arith), λ e c. absurd (ground arith)), λ h. refl)

-- Nothing is found exactly where all agree.
pub compare_all-found : (f : Facts) → ((compare_all f).found ≡ []) ↔ Agrees f
unfolding compare_all
compare_all-found f =
    let phases = compare_phases-found f.declared f.started in
    let totals = compare_totals-found f.quantities f.totals in
    let bounds = compare_bounds-found f.has_start f.has_end f.completed in
    let outer = append-eq-nil (compare_phases f.declared f.started).found (
      (compare_totals f.quantities f.totals).found
      ++ (compare_bounds f.has_start f.has_end f.completed).found) in
    let inner =
      append-eq-nil (compare_totals f.quantities f.totals).found
        (compare_bounds f.has_start f.has_end f.completed).found in
    (
      λ h.
          let rest = inner.0 (outer.0 h).1 in
          record {
            phases = phases.0 (outer.0 h).0;
            totals = totals.0 rest.0;
            starts = (bounds.0 rest.1).0;
            ends = (bounds.0 rest.1).1;
          },
      λ a. outer.1 (phases.1 a.phases, inner.1 (totals.1 a.totals, bounds.1 (a.starts, a.ends))),
    )
