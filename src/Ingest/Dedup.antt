-- ===== src/Ingest/Dedup.antt =====
-- At-least-once delivery becomes exactly-once storage: a stored envelope is never overwritten, and a
-- stream that is delivered again stores nothing.
use open_machine_protocol.Prelude.{
  ◌≡◌, ◌≢◌, refl, ap, subst, ◌∙◌, String, Bool, true, Option, none, some, List, [], ◌∷◌, ◌++◌,
  arith, inl, inr, List-cases, Option-cases, Bool-cases, is_empty, All, All-map, str_eq, eq_iff,
  if◌then◌else◌,
}
use open_machine_protocol.Envelope.{Envelope, Primitives, Result-cases, checksum}
use open_machine_protocol.Spec.{Spec, validate_envelope}
use open_machine_protocol.Ingest.{
  Consumer, RawRow, Line, blank, not_json, not_object, malformed, object, raw_row, same_key,
  find_row, note_unknown_vocabulary, store_raw, fits_integer, resolve, dedup, ingest_line,
  ingest_all,
}
use open_machine_protocol.Ingest.Counts.{project-SameCounts}
use open_machine_protocol.Ingest.Quiet.{
  find_row-append, some_eq, Same, Same-refl, Same-trans, note-Same, quarantine-Same, Did,
}

module _ (p : Primitives) (spec : Spec) where
  -- The envelope of a valid line.
  abbrev pub carried : Line → Option Envelope
  carried (object e) = if is_empty (validate_envelope p spec e true) then some e else none
  carried _ = none

  resolve-Did : (e : Envelope) (c : Consumer) → Did (some e) c (resolve p spec e c)
  unfolding resolve store_raw
  resolve-Did e c = elim (Option-cases (find_row e c.raw_envelopes)) [
    | inl new ↦ elim (Result-cases (checksum p e.body)) [
      | inl (digest, ok_digest) ↦
          let b = str_eq digest e.checksum in
          rw (new, ok_digest, resolve, store_raw)
            (inr (new, b, (project-SameCounts e _).raw_envelopes))
      | inr (err, raises) ↦ rw (new, raises, resolve, store_raw) tt
    ]
    | inr (prior, found) ↦ elim (Bool-cases (str_eq prior.envelope.checksum e.checksum)) [
      | inl same ↦
          rw (found, same, resolve)
            (inl (
              (λ gone. cc (found, gone)),
              record { raw_envelopes = refl; machines = refl; runs = refl },
            ))
      | inr differs ↦
          rw (found, differs, resolve)
            (inl (
              (λ gone. cc (found, gone)),
              record { raw_envelopes = refl; machines = refl; runs = refl },
            ))
    ]
  ]

  dedup-Did : (e : Envelope) (c : Consumer) → Did (some e) c (dedup p spec e c)
  unfolding dedup
  dedup-Did e c = elim (Bool-cases (fits_integer e.seq)) [
    | inl fits ↦ rw (fits, dedup) (resolve-Did e c)
    | inr large ↦ rw (large, dedup) tt
  ]

  Did-shift :
      (e : Envelope) (c c₁ : Consumer) (o : Option Consumer)
      → Same c c₁
      → Did (some e) c₁ o
      → Did (some e) c o
  Did-shift e c c₁ none s d = tt
  Did-shift e c c₁ (some c') s (inl (there, same)) =
      inl (subst (λ rows. find_row e rows ≢ none) s.raw_envelopes there, Same-trans c c₁ c' s same)
  Did-shift e c c₁ (some c') s (inr (new, b, added)) = inr (
    subst (λ rows. find_row e rows ≡ none) s.raw_envelopes new,
    b,
    added ∙ ap (λ rows. rows ++ raw_row e b ∷ []) s.raw_envelopes,
  )

  ingest_line-Did :
      (raw : String) (line : Line) (c : Consumer)
      → Did (carried line) c (ingest_line p spec raw line c)
  unfolding ingest_line
  ingest_line-Did raw blank c = Same-refl c
  ingest_line-Did raw not_json c = quarantine-Same raw _ c
  ingest_line-Did raw not_object c = quarantine-Same raw _ c
  ingest_line-Did raw (malformed m) c = quarantine-Same raw _ c
  ingest_line-Did raw (object e) c = elim (List-cases (validate_envelope p spec e true)) [
    | inl valid ↦
        rw (valid, ingest_line)
          (Did-shift e c (note_unknown_vocabulary spec e c) _ (note-Same spec e c)
            (dedup-Did e (note_unknown_vocabulary spec e c)))
    | inr (x, xs, errors) ↦ rw (errors, ingest_line) (quarantine-Same raw _ c)
  ]

  -- One step at a time.
  find_row-Did :
      (o : Option Envelope) (c c' : Consumer) (e : Envelope) (r : RawRow)
      → Did o c (some c')
      → find_row e c.raw_envelopes ≡ some r
      → find_row e c'.raw_envelopes ≡ some r
  find_row-Did none c c' e r d h = rw (d.raw_envelopes) h
  find_row-Did (some x) c c' e r (inl (there, same)) h = rw (same.raw_envelopes) h
  find_row-Did (some x) c c' e r (inr (new, b, added)) h =
      rw (added, find_row-append e c.raw_envelopes (raw_row x b), h)

  abbrev Covered : Consumer → Option Envelope → Type 0
  Covered c none = Unit
  Covered c (some e) = find_row e c.raw_envelopes ≢ none

  same_key_self : (e : Envelope) (b : Bool) → same_key e (raw_row e b) ≡ true
  same_key_self e b =
      ground (arith, eq_iff e.gateway_id e.gateway_id, eq_iff e.machine_id e.machine_id)

  Did-Covered : (o : Option Envelope) (c c' : Consumer) → Did o c (some c') → Covered c' o
  Did-Covered none c c' d = tt
  Did-Covered (some e) c c' (inl (there, same)) =
      λ gone. there (subst (λ rows. find_row e rows ≡ none) same.raw_envelopes gone)
  Did-Covered (some e) c c' (inr (new, b, added)) = λ gone.
      let found : find_row e c'.raw_envelopes ≡ some (raw_row e b) =
        rw (added, find_row-append e c.raw_envelopes (raw_row e b), new, same_key_self e b) in
      cc (found, gone)

  Covered-Did :
      (o x : Option Envelope) (c c' : Consumer) → Did o c (some c') → Covered c x → Covered c' x
  Covered-Did o none c c' d h = tt
  Covered-Did o (some e) c c' d h = elim (Option-cases (find_row e c.raw_envelopes)) [
    | inl gone ↦ absurd (h gone)
    | inr (r, found) ↦ λ gone. cc (find_row-Did o c c' e r d found, gone)
  ]

  Did-quiet : (o : Option Envelope) (c c' : Consumer) → Did o c (some c') → Covered c o → Same c c'
  Did-quiet none c c' d h = d
  Did-quiet (some e) c c' (inl (there, same)) h = same
  Did-quiet (some e) c c' (inr (new, b, added)) h = absurd (h new)

  -- The first line of a stream, and the lines behind it.
  ingest_all-cons :
      (raw : String) (line : Line) (lines : List (String × Line)) (c c' : Consumer)
      → ingest_all p spec ((raw, line) ∷ lines) c ≡ some c'
      → (c₁ : Consumer) × Did (carried line) c (some c₁) × (ingest_all p spec lines c₁ ≡ some c')
  unfolding ingest_all
  ingest_all-cons raw line lines c c' h = elim (Option-cases (ingest_line p spec raw line c)) [
    | inl fails ↦ absurd (ground (arith, fails))
    | inr (c₁, e) ↦
        (c₁, subst (Did (carried line) c) e (ingest_line-Did raw line c), rw (e, ingest_all) at h)
  ]

  -- A stored envelope is never overwritten, whatever arrives later.
  pub raw_immutable :
      (lines : List (String × Line)) (c c' : Consumer) (e : Envelope) (r : RawRow)
      → ingest_all p spec lines c ≡ some c'
      → find_row e c.raw_envelopes ≡ some r
      → find_row e c'.raw_envelopes ≡ some r
  unfolding ingest_all
  raw_immutable [] c c' e r h found = ground arith
  raw_immutable ((raw, line) ∷ lines) c c' e r h found =
      let (c₁, d, later) = ingest_all-cons raw line lines c c' h in
      raw_immutable lines c₁ c' e r later (find_row-Did (carried line) c c₁ e r d found)

  Covered-ingest_all :
      (lines : List (String × Line)) (c c' : Consumer) (x : Option Envelope)
      → ingest_all p spec lines c ≡ some c'
      → Covered c x
      → Covered c' x
  unfolding ingest_all
  Covered-ingest_all [] c c' x h k = subst (λ (d : Consumer). Covered d x) (some_eq c c' h) k
  Covered-ingest_all ((raw, line) ∷ lines) c c' x h k =
      let (c₁, d, later) = ingest_all-cons raw line lines c c' h in
      Covered-ingest_all lines c₁ c' x later (Covered-Did (carried line) x c c₁ d k)

  ingest_all-Covered :
      (lines : List (String × Line)) (c c' : Consumer)
      → ingest_all p spec lines c ≡ some c'
      → All (λ (l : String × Line). Covered c' (carried l.1)) lines
  ingest_all-Covered [] c c' h = tt
  ingest_all-Covered ((raw, line) ∷ lines) c c' h =
      let (c₁, d, later) = ingest_all-cons raw line lines c c' h in
      (
        Covered-ingest_all lines c₁ c' (carried line) later (Did-Covered (carried line) c c₁ d),
        ingest_all-Covered lines c₁ c' later,
      )

  Covered-Same : (c c' : Consumer) (x : Option Envelope) → Same c c' → Covered c x → Covered c' x
  Covered-Same c c' none s h = tt
  Covered-Same c c' (some e) s h = rw (s.raw_envelopes) h

  ingest_all-Same :
      (lines : List (String × Line)) (c c' : Consumer)
      → All (λ (l : String × Line). Covered c (carried l.1)) lines
      → ingest_all p spec lines c ≡ some c'
      → Same c c'
  unfolding ingest_all
  ingest_all-Same [] c c' k h = subst (Same c) (some_eq c c' h) (Same-refl c)
  ingest_all-Same ((raw, line) ∷ lines) c c' k h =
      let (c₁, d, later) = ingest_all-cons raw line lines c c' h in
      let s = Did-quiet (carried line) c c₁ d k.0 in
      Same-trans c c₁ c' s (
        ingest_all-Same lines c₁ c' (All-map _ _ lines (λ l. Covered-Same c c₁ (carried l.1) s) k.1)
          later)

  -- A stream that is delivered a second time adds no envelope, no machine period and no run.
  pub replay_stores_nothing :
      (lines : List (String × Line)) (c c' d : Consumer)
      → ingest_all p spec lines c ≡ some c'
      → ingest_all p spec lines c' ≡ some d
      → (d.raw_envelopes ≡ c'.raw_envelopes) × (d.machines ≡ c'.machines) × (d.runs ≡ c'.runs)
  replay_stores_nothing lines c c' d first second =
      let s = ingest_all-Same lines c' d (ingest_all-Covered lines c c' first) second in
      (s.raw_envelopes, s.machines, s.runs)
