-- ===== src/Audit/Cited.antt =====
-- The run that an audit selects is one of the bundle, and what it cites is of the bundle.
use text.Mathlib.TextPositions.{eq_refl}
use open_machine_protocol.Prelude.{
  ◌≡◌, ◌⊎◌, refl, sym, subst, String, Bool, true, ◌&&◌, Option, none, some, List, [], ◌∷◌, arith,
  str_eq, eq_iff, select, Member, Member-select, Member-of_select, Member-append_right,
  Member-append_cases, Bool-cases, inl, inr,
}
use open_machine_protocol.Envelope.{Envelope}
use open_machine_protocol.Audit.{
  Audited, done, error, AuditError, range_of, has_run_id, only_run, select_run, of_machine, within,
  cited_by,
}
use open_machine_protocol.Audit.Bundle.{◌>>=◌}

pub done_eq : {A : Type 0} (a b : A) → done a ≡ done b → a ≡ b
done_eq a b h = cc

-- Two steps that both succeed, and what is made of their results.
pub two_done :
    {A B C : Type 0} (a : Audited A) (b : Audited B) (make : A → B → C) (c : C)
    → (a >>= λ x. b >>= λ y. done (make x y)) ≡ done c
    → (x : A) × (y : B) × (a ≡ done x) × (b ≡ done y) × (make x y ≡ c)
two_done (done x) (done y) make c h = (x, y, refl, refl, done_eq _ c h)
two_done (done x) (error e) make c h = absurd (ground arith)
two_done (error e) b make c h = absurd (ground arith)

-- ------------------------------------------------------------------------- the run
only_run-Member :
    (e : AuditError) (rs : List Envelope) (r : Envelope) → only_run e rs ≡ done r → Member r rs
only_run-Member e [] r h = absurd (ground arith)
only_run-Member e (x ∷ []) r h = inl (sym (done_eq x r h))
only_run-Member e (x ∷ y ∷ rs) r h = absurd (ground arith)

abbrev pub is_run : Envelope → Bool
is_run e = str_eq e.schema "process_run"

pub select_run-Member :
    (envelopes : List Envelope) (run_id : Option String) (r : Envelope)
    → select_run envelopes run_id ≡ done r
    → Member r envelopes × (r.schema ≡ "process_run")
unfolding select_run
select_run-Member envelopes run_id r h = found (run_of run_id h)
  where
    found : Member r (select is_run envelopes) → Member r envelopes × (r.schema ≡ "process_run")
    found m =
        let k = Member-of_select is_run r envelopes m in
        (k.0, (eq_iff r.schema "process_run").0 k.1)

    run_of :
        (o : Option String) → select_run envelopes o ≡ done r → Member r (select is_run envelopes)
    run_of none e = only_run-Member AuditError.no_run (select is_run envelopes) r e
    run_of (some name) e = elim (Bool-cases (str_eq name "")) [
      | inl blank ↦
          only_run-Member AuditError.no_run (select is_run envelopes) r
            (rw (blank, select_run) at e)
      | inr given ↦
          (Member-of_select (has_run_id name) r (select is_run envelopes) (
            only_run-Member AuditError.no_such_run
              (select (has_run_id name) (select is_run envelopes)) r
              (rw (given, select_run) at e))).0
    ]

abbrev cites_it : Envelope → Envelope → Bool
cites_it run x = of_machine run x && within (range_of run.body) x.seq

cites_it_self :
    (run : Envelope) → within (range_of run.body) run.seq ≡ true → cites_it run run ≡ true
cites_it_self run inside = rw (eq_refl run.gateway_id, eq_refl run.machine_id, inside) refl

-- The run is among the envelopes that it cites, and all of these are in the bundle.
pub run-cited :
    (run : Envelope) (envelopes : List Envelope)
    → Member run envelopes
    → Member run (cited_by run envelopes)
unfolding cited_by
run-cited run envelopes m = elim (Bool-cases (within (range_of run.body) run.seq)) [
  | inl inside ↦ rw inside (Member-select (cites_it run) run envelopes m (cites_it_self run inside))
  | inr outside ↦
      rw outside (Member-append_right run (select (cites_it run) envelopes) (run ∷ []) (inl refl))
]

pub cited-Member :
    (run e : Envelope) (envelopes : List Envelope)
    → Member run envelopes
    → Member e (cited_by run envelopes)
    → Member e envelopes
unfolding cited_by
cited-Member run e envelopes m c = elim (Bool-cases (within (range_of run.body) run.seq)) [
  | inl inside ↦ (Member-of_select (cites_it run) e envelopes (rw (cited_by, inside) at c)).0
  | inr outside ↦ from (
      Member-append_cases e (select (cites_it run) envelopes) (run ∷ [])
        (rw (cited_by, outside) at c))
]
  where
    from : Member e (select (cites_it run) envelopes) ⊎ Member e (run ∷ []) → Member e envelopes
    from (inl k) = (Member-of_select (cites_it run) e envelopes k).0
    from (inr (inl same)) = subst (λ x. Member x envelopes) (sym same) m
    from (inr (inr no_more)) = absurd no_more
