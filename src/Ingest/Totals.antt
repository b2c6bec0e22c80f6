-- ===== src/Ingest/Totals.antt =====
-- Every line is accounted for: of lines with numbers that SQLite takes each one that is not blank
-- adds one to exactly one of its four counts, with a row in the table that the count is about.
use open_machine_protocol.Prelude.{
  ℕ, ◌+◌, ◌^◌, ◌<◌, All, ◌≡◌, refl, String, true, some, List, [], ◌∷◌, ◌++◌, arith, length,
  length-append, inl, inr, Bool-cases, List-cases, Option-cases, str_eq, All-append, ap, subst,
  eq_iff,
}
use open_machine_protocol.Envelope.{Envelope, Primitives, ok, checksum}
use open_machine_protocol.Spec.{Spec, validate_envelope}
use open_machine_protocol.Spec.Validity.{validate_envelope-checksum}
use open_machine_protocol.Ingest.{
  Consumer, Line, blank, not_json, not_object, malformed, object, raw_row, alarm_row, find_row,
  note_unknown_vocabulary, store_raw, fits_integer, resolve, dedup, ingest_line, ingest_all,
}
use open_machine_protocol.Ingest.Counts.{
  IsCounted, total, counts, note-SameCounts, project-SameCounts, SameCounts-IsCounted, Counted,
  Counted-shift, quarantine-Counted,
}

module _ (p : Primitives) (spec : Spec) where
  store_raw-Counted :
      (e : Envelope) (c : Consumer)
      → checksum p e.body ≡ ok e.checksum
      → IsCounted c
      → Counted c 1 (store_raw p spec e c)
  unfolding store_raw
  store_raw-Counted e c h k =
      let row = raw_row e (str_eq e.checksum e.checksum) in
      let before = record c { raw_envelopes = c.raw_envelopes ++ row ∷ [] } in
      let s = project-SameCounts e before in
      rw (h, store_raw)
        (
          record {
            stored = omega (
              arith,
              s.stored,
              k.stored,
              ap length s.raw_envelopes,
              length-append c.raw_envelopes (row ∷ []),
            );
            quarantined = rw (s.quarantined, s.quarantine) k.quarantined;
            alarms = rw (s.alarms, s.integrity_alarms) k.alarms;
            verified = rw (s.raw_envelopes) (
                All-append (λ r. r.checksums_valid ≡ true) c.raw_envelopes _ k.verified
                  ((eq_iff e.checksum e.checksum).1 refl, tt));
          },
          omega (arith, s.stored, s.duplicates, s.quarantined, s.alarms),
        )

  resolve-Counted :
      (e : Envelope) (c : Consumer)
      → checksum p e.body ≡ ok e.checksum
      → IsCounted c
      → Counted c 1 (resolve p spec e c)
  unfolding resolve
  resolve-Counted e c h k = elim (Option-cases (find_row e c.raw_envelopes)) [
    | inl new ↦ rw (new, resolve) (store_raw-Counted e c h k)
    | inr (prior, found) ↦ elim (Bool-cases (str_eq prior.envelope.checksum e.checksum)) [
      | inl same ↦
          rw (found, same, resolve)
            (
              record {
                stored = k.stored;
                quarantined = k.quarantined;
                alarms = k.alarms;
                verified = k.verified;
              },
              omega arith,
            )
      | inr differs ↦
          rw (found, differs, resolve)
            (
              record {
                stored = k.stored;
                quarantined = k.quarantined;
                alarms = omega (
                  arith,
                  k.alarms,
                  length-append c.integrity_alarms (alarm_row e prior.envelope ∷ []),
                );
                verified = k.verified;
              },
              omega arith,
            )
    ]
  ]

  -- An envelope that is looked up has a sequence number that SQLite takes.
  abbrev pub IsStorable : Line → Type 0
  IsStorable (object e) = e.seq < 2 ^ 63
  IsStorable _ = Unit

  dedup-Counted :
      (e : Envelope) (c : Consumer)
      → checksum p e.body ≡ ok e.checksum
      → e.seq < 2 ^ 63
      → IsCounted c
      → Counted c 1 (dedup p spec e c)
  unfolding dedup
  dedup-Counted e c h small k = rw (fits e.seq small, dedup) (resolve-Counted e c h k)
    where
      fits : (n : ℕ) → n < 2 ^ 63 → fits_integer n ≡ true
      fits n lt = ground arith

  ingest_line-Counted :
      (raw : String) (line : Line) (c : Consumer)
      → IsStorable line
      → IsCounted c
      → Counted c (counts line) (ingest_line p spec raw line c)
  unfolding ingest_line
  ingest_line-Counted raw blank c s k = (k, omega arith)
  ingest_line-Counted raw not_json c s k = quarantine-Counted raw _ c k
  ingest_line-Counted raw not_object c s k = quarantine-Counted raw _ c k
  ingest_line-Counted raw (malformed m) c s k = quarantine-Counted raw _ c k
  ingest_line-Counted raw (object e) c small k =
      elim (List-cases (validate_envelope p spec e true)) [
        | inl valid ↦
            let s = note-SameCounts spec e c in
            rw (valid, ingest_line)
              (Counted-shift c (note_unknown_vocabulary spec e c) _ s (
                dedup-Counted e (note_unknown_vocabulary spec e c)
                  (validate_envelope-checksum p spec e true valid) small
                  (SameCounts-IsCounted c _ s k)))
        | inr (x, xs, errors) ↦ rw (errors, ingest_line) (quarantine-Counted raw _ c k)
      ]

  -- The lines that are not blank.
  abbrev pub lines_counted : List (String × Line) → ℕ
  lines_counted [] = 0
  lines_counted ((raw, line) ∷ lines) = counts line + lines_counted lines

  -- From a counted consumer, any stream of lines whose sequence numbers fit the 64 bits of SQLite is ingested
  -- to its end with no exception: each line that is not blank is stored, a duplicate, quarantined or an
  -- alarm, and the counts and tables agree.
  pub ingest_all-total :
      (lines : List (String × Line)) (c : Consumer)
      → All (λ l. IsStorable l.1) lines
      → IsCounted c
      → (c' : Consumer) × (ingest_all p spec lines c ≡ some c')
        × IsCounted c'
        × (total c' ≡ total c + lines_counted lines)
  unfolding ingest_all
  ingest_all-total [] c s k = (c, refl, k, omega arith)
  ingest_all-total ((raw, line) ∷ lines) c s k =
      elim (Option-cases (ingest_line p spec raw line c)) [
        | inl fails ↦
            absurd (subst (Counted c (counts line)) fails (ingest_line-Counted raw line c s.0 k))
        | inr (c₁, e) ↦
            let h = subst (Counted c (counts line)) e (ingest_line-Counted raw line c s.0 k) in
            let (c', done, k', n) = ingest_all-total lines c₁ s.1 h.0 in
            (c', rw (e, ingest_all) done, k', omega arith)
      ]
