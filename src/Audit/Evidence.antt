-- ===== src/Audit/Evidence.antt =====
-- What a citation block stands for whose five flags are all set.
use open_machine_protocol.Prelude.{
  ℕ, ◌≤◌, ◌≡◌, ◌⊎◌, refl, sym, subst, ap, ◌∙◌, String, Bool, true, false, Option, some, List, [],
  arith, select, All, Member, inl, inr,
}
use open_machine_protocol.Envelope.{Envelope, Primitives, ok, checksum}
use open_machine_protocol.Spec.{Spec, validate_envelope}
use open_machine_protocol.Audit.{
  Check, Audited, done, error, AuditError, between, range_of, Verifier, is_signed, of_machine,
  check_completeness, check_integrity, check_authenticity, check_conformance, select_run, cited_by,
  records_hash,
}
use open_machine_protocol.Audit.Completeness.{
  IsCited, CompletenessMeans, Verdict, check_completeness-means,
}
use open_machine_protocol.Audit.Flags.{
  AllVerify, check_integrity-passed, check_authenticity-passed, check_conformance-passed,
}
use open_machine_protocol.Audit.Consistency.{check_consistency}
use open_machine_protocol.Audit.Facts.{Facts, facts_of}
use open_machine_protocol.Audit.Telling.{Tells}
use open_machine_protocol.Audit.Comparisons.{Agrees}
use open_machine_protocol.Audit.Agreement.{ConsistencyMeans, check_consistency-means}
use open_machine_protocol.Audit.Bundle.{
  Checks, Citation, run_checks, cite, run_id_of, audit_run, audit_bundle,
}
use open_machine_protocol.Audit.Cited.{
  done_eq, two_done, select_run-Member, run-cited, cited-Member,
}

-- What the evidence of a run comes to: the bundle holds every number of its range, and each cited
-- envelope, the run's among them, has the checksum of its body, is valid and, if it is signed, verifies.
pub record Proves (p : Primitives) (spec : Spec) (verify : Verifier) (envelopes : List Envelope)
    (pubkey : Option String) (citation : Citation) (run : Envelope) : Type 0 where
  pub is_run : run.schema ≡ "process_run"
  pub cited : Member run (cited_by run envelopes)
  pub complete :
      (first : ℕ) × (last : ℕ) × (range_of run.body ≡ between first last)
      × ((n : ℕ) → first ≤ n → n ≤ last → IsCited envelopes run n)
  pub intact : All (λ e. checksum p e.body ≡ ok e.checksum) (cited_by run envelopes)
  pub signed : AllVerify verify (select is_signed (cited_by run envelopes)) pubkey
  pub valid : All (λ e. validate_envelope p spec e false ≡ []) (cited_by run envelopes)
  pub agrees :
      (f : Facts) × (facts_of (cited_by run envelopes) run ≡ some f)
      × Tells (select (of_machine run) (cited_by run envelopes)) run f
      × Agrees f
  pub hash : citation.records_hash ≡ records_hash p (cited_by run envelopes)

-- The citation sets a flag for each check.
pub record IsFull (c : Citation) : Type 0 where
  pub seq_complete : c.seq_complete ≡ some true
  pub checksums_valid : c.checksums_valid ≡ some true
  pub signatures_valid : c.signatures_valid ≡ some true
  pub consistent : c.consistent ≡ some true
  pub conformant : c.conformant ≡ some true

-- The verdict of a completed check that is known to be `true`.
Verdict-of :
    (P : Option Bool → Type 0) (a : Audited Check) (c : Check)
    → Verdict P a
    → a ≡ done c
    → c.passed ≡ some true
    → P (some true)
Verdict-of P (done c') c h e t = subst P (ap (λ x. x.passed) (done_eq c' c e) ∙ t) h
Verdict-of P (error x) c h e t = absurd (ground arith)

complete_in :
    (run : Envelope) (envelopes : List Envelope)
    → Member run envelopes
    → CompletenessMeans (cited_by run envelopes) run (some true)
    → (first : ℕ) × (last : ℕ) × (range_of run.body ≡ between first last)
      × ((n : ℕ) → first ≤ n → n ≤ last → IsCited envelopes run n)
complete_in run envelopes m (first, last, e, all) = (
  first,
  last,
  e,
  λ n low high.
      let (x, k, g, i, s) = all n low high in (x, cited-Member run x envelopes m k, g, i, s),
)

module _ (p : Primitives) (spec : Spec) (verify : Verifier) (envelopes : List Envelope)
    (pubkey : Option String) (run : Envelope) where
  abbrev checks_of : Check → Check → Checks
  checks_of completeness consistency = record {
    completeness = completeness;
    integrity = check_integrity p (cited_by run envelopes);
    authenticity = check_authenticity verify (cited_by run envelopes) pubkey;
    consistency = consistency;
    conformance = check_conformance p spec (cited_by run envelopes);
  }

  run_checks-done :
      (checks : Checks)
      → run_checks p spec verify (cited_by run envelopes) run pubkey ≡ done checks
      → (x : Check) × (y : Check) × (check_completeness (cited_by run envelopes) run ≡ done x)
        × (check_consistency (cited_by run envelopes) run ≡ done y)
        × (checks_of x y ≡ checks)
  unfolding run_checks
  run_checks-done checks h =
      two_done (check_completeness (cited_by run envelopes) run)
        (check_consistency (cited_by run envelopes) run) checks_of checks h

  audit_run-done :
      (checks : Checks) (citation : Citation)
      → audit_run p spec verify envelopes run pubkey ≡ done (checks, citation)
      → (c : Checks) × (run_id : String) × (run_checks p spec verify
            (cited_by run envelopes)
            run
            pubkey
          ≡ done c)
        × (cite p envelopes (cited_by run envelopes) run pubkey c run_id ≡ citation)
  unfolding audit_run
  audit_run-done checks citation h =
      let (c, run_id, e, f, g) =
        two_done (run_checks p spec verify (cited_by run envelopes) run pubkey) (run_id_of run)
          (λ c i. (c, cite p envelopes (cited_by run envelopes) run pubkey c i)) (checks, citation)
          h in
      (c, run_id, e, ap (λ q. q.1) g)

  -- Once every flag of a citation built from these checks is set.
  cite-Proves :
      (x y : Check) (run_id : String)
      → Member run envelopes
      → run.schema ≡ "process_run"
      → check_completeness (cited_by run envelopes) run ≡ done x
      → check_consistency (cited_by run envelopes) run ≡ done y
      → IsFull (cite p envelopes (cited_by run envelopes) run pubkey (checks_of x y) run_id)
      → Proves p spec verify envelopes pubkey
          (cite p envelopes (cited_by run envelopes) run pubkey (checks_of x y) run_id)
          run
  unfolding cite
  cite-Proves x y run_id m s e f full =
      let cited = cited_by run envelopes in
      record {
        is_run = s;
        cited = run-cited run envelopes m;
        complete = complete_in run envelopes m (
            Verdict-of (CompletenessMeans cited run) _ x (check_completeness-means cited run) e
              full.seq_complete);
        intact = (check_integrity-passed p cited).0 full.checksums_valid;
        signed = (check_authenticity-passed verify cited pubkey).0 full.signatures_valid;
        valid = (check_conformance-passed p spec cited).0 full.conformant;
        agrees =
            Verdict-of (ConsistencyMeans cited run) _ y (check_consistency-means cited run) f
              full.consistent;
        hash = refl;
      }

  audit_run-Proves :
      (checks : Checks) (citation : Citation)
      → Member run envelopes
      → run.schema ≡ "process_run"
      → audit_run p spec verify envelopes run pubkey ≡ done (checks, citation)
      → IsFull citation
      → Proves p spec verify envelopes pubkey citation run
  audit_run-Proves checks citation m s h full =
      let (c, run_id, e, g) = audit_run-done checks citation h in
      let (x, y, e1, e2, k) = run_checks-done c e in
      let same : cite p envelopes (cited_by run envelopes) run pubkey (checks_of x y) run_id
          ≡ citation =
        ap (λ q. cite p envelopes (cited_by run envelopes) run pubkey q run_id) k ∙ g in
      subst (λ q. Proves p spec verify envelopes pubkey q run) same
        (cite-Proves x y run_id m s e1 e2 (subst IsFull (sym same) full))

Audited-cases :
    {A : Type 0} (a : Audited A) → ((x : A) × (a ≡ done x)) ⊎ ((e : AuditError) × (a ≡ error e))
Audited-cases (done x) = inl (x, refl)
Audited-cases (error e) = inr (e, refl)

-- A citation whose five flags are all set is one of a run in the bundle that proves it: each number of the
-- run's range is there, and every envelope that the run cites, itself included, has the checksum of its
-- body, is valid and, if signed, verifies under the given key, some being signed; the summary agrees with
-- its events; and the hash is that of these envelopes.
pub audit_bundle-Proves :
    (p : Primitives) (spec : Spec) (verify : Verifier) (envelopes : List Envelope)
    (pubkey run_id : Option String) (checks : Checks) (citation : Citation)
    → audit_bundle p spec verify envelopes pubkey run_id ≡ done (checks, citation)
    → IsFull citation
    → (run : Envelope) × Proves p spec verify envelopes pubkey citation run
unfolding audit_bundle
audit_bundle-Proves p spec verify envelopes pubkey run_id checks citation h full =
    elim (Audited-cases (select_run envelopes run_id)) [
      | inl (run, e) ↦
          let (m, s) = select_run-Member envelopes run_id run e in
          (
            run,
            audit_run-Proves p spec verify envelopes pubkey run checks citation m s
                (rw (audit_bundle, e) at h) full,
          )
      | inr (x, e) ↦ absurd (error_done x checks citation (rw (audit_bundle, e) at h))
    ]
  where
    error_done :
        (x : AuditError) (c : Checks) (d : Citation)
        → ◌≡◌ {A = Audited (Checks × Citation)} (error x) (done (c, d))
        → ⊥
    error_done x c d q = cc
