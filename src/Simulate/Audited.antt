-- ===== src/Simulate/Audited.antt =====
-- What a simulated machine emits passes the audit's checks of completeness and integrity.
use text.Mathlib.TextPositions.{eq_refl}
use open_machine_protocol.Prelude.{
  ℕ, zero, suc, ◌+◌, ◌-◌, ◌≤◌, ◌<◌, ◌≡◌, refl, sym, ap, subst, ◌∙◌, inl, inr, Bool, true, ◌&&◌,
  some, List, [], ◌∷◌, arith, ◌==◌, ==_iff, leb, Member, All-of_Member, Member-select,
  Member-append_left, Bool-cases,
}
use open_machine_protocol.Envelope.{Envelope, Primitives, ok, checksum}
use open_machine_protocol.Audit.{
  done, between, range_of, of_machine, within, cites, missing_from, completeness_in,
  completeness_of, cited_by, check_completeness, check_integrity,
}
use open_machine_protocol.Audit.Cited.{cited-Member}
use open_machine_protocol.Audit.Flags.{check_integrity-passed}
use open_machine_protocol.Simulate.{Machine, Setup, Draw, run_cyclic_machine}
use open_machine_protocol.Simulate.Dye.{Draws, run_dye_machine}
use open_machine_protocol.Simulate.Cyclic.{run_cyclic_machine_complete}
use open_machine_protocol.Simulate.DyeRun.{run_dye_machine_complete}
use open_machine_protocol.Simulate.Numbers.{AreNumbered, IsOf, IsNumbered}

-- ------------------------------------------------------------ envelopes by their numbers
find_number :
    (P : Envelope → Type 0) (n last : ℕ) (es : List Envelope) (k : ℕ)
    → AreNumbered P n last es
    → n ≤ k
    → k ≤ last
    → (e : Envelope) × Member e es × (e.seq ≡ k) × P e
find_number P n last [] k h low high = absurd (omega arith)
find_number P n last (e ∷ es) k h low high = elim (Bool-cases (n == k)) [
  | inl here ↦ (e, inl refl, h.0 ∙ (==_iff n k).0 here, h.1)
  | inr later ↦
      let (x, m, s, q) = find_number P (n + 1) last es k h.2 (ground (arith, later)) high in
      (x, inr m, s, q)
]

all_numbered :
    (P : Envelope → Type 0) (n last : ℕ) (es : List Envelope) (e : Envelope)
    → AreNumbered P n last es
    → Member e es
    → P e
all_numbered P n last [] e h m = absurd m
all_numbered P n last (x ∷ es) e h (inl same) = subst P (sym same) h.1
all_numbered P n last (x ∷ es) e h (inr m) = all_numbered P (n + 1) last es e h.2 m

-- ------------------------------------------------------------------------ completeness
cites-Member :
    (cited : List Envelope) (run e : Envelope) (n : ℕ)
    → Member e cited
    → of_machine run e ≡ true
    → e.seq ≡ n
    → cites cited run n ≡ true
unfolding cites
cites-Member [] run e n m o s = absurd m
cites-Member (x ∷ cited) run e n (inl same) o s =
    let here : (of_machine run x && x.seq == n) ≡ true =
      subst (λ y. (of_machine run y && y.seq == n) ≡ true) same (rw (o, s) (==_refl n)) in
    rw here refl
  where
    ==_refl : (k : ℕ) → (k == k) ≡ true
    ==_refl k = ground arith
cites-Member (x ∷ cited) run e n (inr m) o s = elim (Bool-cases (of_machine run x && x.seq == n)) [
  | inl here ↦ rw here refl
  | inr other ↦ rw other (cites-Member cited run e n m o s)
]

missing_from-nil :
    (has : ℕ → Bool) (first count : ℕ)
    → ((n : ℕ) → first ≤ n → n < first + count → has n ≡ true)
    → missing_from has first count ≡ []
unfolding missing_from
missing_from-nil has first zero h = refl
missing_from-nil has first (suc count) h =
    rw (h first (omega arith) (omega arith))
      (missing_from-nil has (first + 1) count (λ n low high. h n (omega arith) (omega arith)))

in_range : (a n b : ℕ) → a ≤ n → n ≤ b → (leb a n && leb n b) ≡ true
in_range a n b h k = ground arith

-- Every check that these runs can pass, passes.
abbrev pub Passes : Primitives → Envelope → List Envelope → Type 0
Passes p run bundle =
    (check_completeness (cited_by run bundle) run
      ≡ done (record { passed = some true; findings = [] }))
    × ((check_integrity p (cited_by run bundle)).passed ≡ some true)

module _ (p : Primitives) (setup : Setup) (m : Machine) (v : IsNumbered p setup m) (run : Envelope)
    (sent : Member run m.out) (first last : ℕ) (range : range_of run.body ≡ between first last)
    (from_one : 1 ≤ first) (to_last : last ≤ m.seq) where
  own : (e : Envelope) → Member e m.out → IsOf p setup e
  own e k = all_numbered (IsOf p setup) 1 m.seq m.out e v k

  one_machine : (e : Envelope) → IsOf p setup e → of_machine run e ≡ true
  one_machine e q =
      let r = own run sent in
      rw
        (
          q.gateway ∙ sym r.gateway,
          q.machine ∙ sym r.machine,
          eq_refl run.gateway_id,
          eq_refl run.machine_id,
        )
        refl

  cited_number : (n : ℕ) → first ≤ n → n ≤ last → cites (cited_by run m.out) run n ≡ true
  unfolding cited_by
  cited_number n low high =
      let (e, k, s, q) = find_number (IsOf p setup) 1 m.seq m.out n v (omega arith) (omega arith) in
      let inside : within (range_of run.body) e.seq ≡ true =
        rw (range, s) (in_range first n last low high) in
      let chosen =
        Member-select (λ x. of_machine run x && within (range_of run.body) x.seq) e m.out k
          (rw (one_machine e q) inside) in
      elim (Bool-cases (within (range_of run.body) run.seq)) [
        | inl with_run ↦ rw with_run (cites-Member _ run e n chosen (one_machine e q) s)
        | inr without ↦
            rw without (
              cites-Member _ run e n (Member-append_left e _ (run ∷ []) chosen) (one_machine e q) s)
      ]

  completeness_passes :
      check_completeness (cited_by run m.out) run
      ≡ done (record { passed = some true; findings = [] })
  unfolding check_completeness
  completeness_passes =
      ap (completeness_in (cited_by run m.out) run) range
      ∙ ap (λ missing. done (completeness_of missing))
          (missing_from-nil (cites (cited_by run m.out) run) first (last + 1 - first)
            (λ n low high. cited_number n low (omega arith)))

  pub numbered-Passes : Passes p run m.out
  numbered-Passes = (
    completeness_passes,
    (check_integrity-passed p (cited_by run m.out)).1 (
        All-of_Member (λ e. checksum p e.body ≡ ok e.checksum) (cited_by run m.out)
          (λ e k. (own e (cited-Member run e m.out sent k)).digest)),
  )

-- A run of a cyclic machine, for draws that take time, and a batch, for any draws, end with a summary among
-- the envelopes that they emitted, and the audit of that summary on these envelopes passes the checks of
-- completeness and of integrity.
pub simulated-Passes :
    (p : Primitives) (setup : Setup) (end_us fuel : ℕ) (draws : ℕ → Draw) (batch : Draws)
    → ((i : ℕ) → (0 < (draws i).cycle_us) × (0 < (draws i).stop_us))
    → end_us < fuel
    → ((m : Machine) × (run_cyclic_machine p setup end_us draws fuel ≡ ok (some m))
        × (summary : Envelope) × Member summary m.out
        × Passes p summary m.out)
      × ((m : Machine) × (run_dye_machine p setup batch ≡ ok m)
          × (summary : Envelope) × Member summary m.out
          × Passes p summary m.out)
simulated-Passes p setup end_us fuel draws batch positive enough =
    let (m, e, v, summary, sent, range) =
      run_cyclic_machine_complete p setup end_us fuel draws positive enough in
    let (m', e', v', summary', sent', range') = run_dye_machine_complete p setup batch in
    (
      (
        m,
        e,
        summary,
        sent,
        numbered-Passes p setup m v summary sent 2 (m.seq - 1) range (omega arith) (omega arith),
      ),
      (
        m',
        e',
        summary',
        sent',
        numbered-Passes p setup m' v' summary' sent' 2 (m'.seq - 1) range' (omega arith)
            (omega arith),
      ),
    )
