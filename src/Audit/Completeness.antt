-- ===== src/Audit/Completeness.antt =====
-- What each verdict of `check_completeness` means.
use open_machine_protocol.Prelude.{
  ℕ, zero, suc, ◌+◌, ◌-◌, ◌≤◌, ◌<◌, ◌≡◌, refl, sym, subst, Bool, true, false, ◌&&◌, Option, none,
  some, List, [], ◌∷◌, arith, eq_iff, ◌==◌, Member, Bool-cases, inl, inr, ◌⊎◌,
}
use open_machine_protocol.Envelope.{Envelope}
use open_machine_protocol.Audit.{
  Audited, done, error, Check, Range, absent, malformed, between, range_of, of_machine, cites,
  missing_from, completeness_of, completeness_in, check_completeness,
}

-- An envelope of the run's gateway and machine has this number and is among the cited ones.
abbrev pub IsCited : List Envelope → Envelope → ℕ → Type 0
IsCited cited run n =
    (e : Envelope) × Member e cited
    × (e.gateway_id ≡ run.gateway_id)
    × (e.machine_id ≡ run.machine_id)
    × (e.seq ≡ n)

cites-IsCited :
    (cited : List Envelope) (run : Envelope) (n : ℕ)
    → cites cited run n ≡ true
    → IsCited cited run n
unfolding cites
cites-IsCited [] run n h = absurd (ground arith)
cites-IsCited (e ∷ es) run n h = elim (Bool-cases (of_machine run e && e.seq == n)) [
  | inl here ↦ (
    e,
    inl refl,
    ground (arith, eq_iff e.gateway_id run.gateway_id, here),
    ground (arith, eq_iff e.machine_id run.machine_id, here),
    ground (arith, here),
  )
  | inr other ↦ let (x, m, g, k, s) = cites-IsCited es run n (rw other at h) in (x, inr m, g, k, s)
]

Nat-cases : (a b : ℕ) → a ≤ b → (a ≡ b) ⊎ (a < b)
Nat-cases a b h = ground arith

missing_from-eq-nil :
    (has : ℕ → Bool) (first count n : ℕ)
    → missing_from has first count ≡ []
    → first ≤ n
    → n < first + count
    → has n ≡ true
unfolding missing_from
missing_from-eq-nil has first zero n h low high = absurd (omega arith)
missing_from-eq-nil has first (suc count) n h low high = elim (Bool-cases (has first)) [
  | inl here ↦ elim (Nat-cases first n low) [
    | inl same ↦ subst (λ k. has k ≡ true) same here
    | inr above ↦
        missing_from-eq-nil has (first + 1) count n (rw here at h) (omega arith) (omega arith)
  ]
  | inr gone ↦ absurd (ground (arith, gone))
]

missing_from-Member :
    (has : ℕ → Bool) (first count n : ℕ)
    → Member n (missing_from has first count)
    → (has n ≡ false) × (first ≤ n) × (n < first + count)
unfolding missing_from
missing_from-Member has first zero n m = absurd m
missing_from-Member has first (suc count) n m = elim (Bool-cases (has first)) [
  | inl here ↦
      let h = missing_from-Member has (first + 1) count n (rw here at m) in
      (h.0, omega (arith, h.1), omega (arith, h.2))
  | inr gone ↦
      first_or_later (rw gone at m) gone (λ m'. missing_from-Member has (first + 1) count n m')
]
  where
    first_or_later :
        Member n (first ∷ missing_from has (first + 1) count)
        → has first ≡ false
        → (Member n (missing_from has (first + 1) count)
            → (has n ≡ false) × (first + 1 ≤ n) × (n < first + 1 + count))
        → (has n ≡ false) × (first ≤ n) × (n < first + suc count)
    first_or_later (inl same) gone rest =
        (subst (λ k. has k ≡ false) (sym same) gone, omega arith, omega arith)
    first_or_later (inr later) gone rest =
        let h = rest later in (h.0, omega (arith, h.1), omega (arith, h.2))

-- All of the range is cited; some number of it is not; there is no range.
abbrev pub CompletenessMeans : List Envelope → Envelope → Option Bool → Type 0
CompletenessMeans cited run none = range_of run.body ≡ absent
CompletenessMeans cited run (some true) =
    (first : ℕ) × (last : ℕ) × (range_of run.body ≡ between first last)
    × ((n : ℕ) → first ≤ n → n ≤ last → IsCited cited run n)
CompletenessMeans cited run (some false) =
    (first : ℕ) × (last : ℕ) × (range_of run.body ≡ between first last)
    × (n : ℕ) × (first ≤ n)
    × (n ≤ last)
    × (cites cited run n ≡ false)

-- The verdict of a completed check, of any kind, on what stands behind it.
abbrev pub Verdict : (Option Bool → Type 0) → Audited Check → Type 0
Verdict P (done c) = P c.passed
Verdict P (error e) = Unit

completeness_of-means :
    (cited : List Envelope) (run : Envelope) (first last : ℕ) (missing : List ℕ)
    → missing_from (cites cited run) first (last + 1 - first) ≡ missing
    → range_of run.body ≡ between first last
    → CompletenessMeans cited run (completeness_of missing).passed
completeness_of-means cited run first last [] all e = (
  first,
  last,
  e,
  λ n low high.
      cites-IsCited cited run n
        (missing_from-eq-nil (cites cited run) first (last + 1 - first) n all low (omega arith)),
)
completeness_of-means cited run first last (x ∷ xs) gaps e =
    let h = missing_from-Member (cites cited run) first (last + 1 - first) x (rw gaps (inl refl)) in
    (first, last, e, x, h.1, omega (arith, h.1, h.2), h.0)

completeness_in-means :
    (cited : List Envelope) (run : Envelope) (r : Range)
    → range_of run.body ≡ r
    → Verdict (CompletenessMeans cited run) (completeness_in cited run r)
completeness_in-means cited run absent e = e
completeness_in-means cited run malformed e = tt
completeness_in-means cited run (between first last) e =
    completeness_of-means cited run first last _ refl e

-- A completeness check that is done reports what holds: `true` only if every number of the run's range
-- is cited by an envelope of the run's gateway and machine, `false` only if some number of it is not,
-- and "not checked" only if the run has no range.
pub check_completeness-means :
    (cited : List Envelope) (run : Envelope)
    → Verdict (CompletenessMeans cited run) (check_completeness cited run)
unfolding check_completeness
check_completeness-means cited run = completeness_in-means cited run (range_of run.body) refl
