-- ===== src/Store/Prune/Age.antt =====
-- What the pass by age of `Store.prune` leaves.
use open_machine_protocol.Prelude.{
  ℕ, ◌+◌, ◌≤◌, ◌≡◌, refl, String, true, false, inl, inr, Option, none, some, List, [], ◌∷◌, ◌∙◌,
  arith, select, Member, Member-of_select, Bool-cases, Option-cases, ◌==◌, subst,
}
use open_machine_protocol.Store.{Store, BufferRow}
use open_machine_protocol.Store.Prune.{
  Summary, min_cursor, is_expired, prune_upto, passes, iso_minus, prune,
}
use open_machine_protocol.Store.Prune.Retention.{is_kept, passes-rows}
use open_machine_protocol.Store.Prune.Outcome.{over, some_eq, record_pass-fields}

is_kept-fresh :
    (safe cutoff : ℕ) (over : Option ℕ) (r : BufferRow)
    → is_kept safe cutoff over r ≡ true
    → is_expired safe cutoff r ≡ false
is_kept-fresh safe cutoff none r h = ground arith
is_kept-fresh safe cutoff (some b) r h = ground arith

module _ (db_bytes : Store → ℕ) (retention : ℕ) (max_bytes : Option ℕ) (now : ℕ) (s : Store) where
  prune_upto-fresh :
      (safe cutoff : ℕ) (r : BufferRow)
      → Member r (prune_upto db_bytes safe cutoff retention max_bytes now s).1.buffer
      → is_expired safe cutoff r ≡ false
  unfolding prune_upto over
  prune_upto-fresh safe cutoff r m =
      let rows =
        (record_pass-fields now (select (is_expired safe cutoff) s.buffer)
          (passes db_bytes safe cutoff retention max_bytes s) s).0
        ∙ passes-rows safe cutoff retention (over db_bytes retention max_bytes now s safe cutoff)
            s.buffer in
      is_kept-fresh safe cutoff (over db_bytes retention max_bytes now s safe cutoff) r
        (Member-of_select _ r s.buffer (subst (λ l. Member r l) rows m)).1

  -- The age of a row that a pass with bound `b` has left.
  abbrev Fresh : BufferRow → ℕ → Summary × Store → Type 0
  Fresh r b z =
      (t : ℕ)
      → z.0.safe_upto ≡ some b
      → Member r z.1.buffer
      → r.rowid_pk ≤ b
      → r.stored_at ≡ some t
      → now ≤ t + retention

  expired_lem :
      (safe cutoff t : ℕ) (r : BufferRow)
      → iso_minus now retention ≡ some cutoff
      → is_expired safe cutoff r ≡ false
      → r.rowid_pk ≤ safe
      → r.stored_at ≡ some t
      → now ≤ t + retention
  expired_lem safe cutoff t r e fresh within stored = ground arith

  prune_upto-safe_upto :
      (safe cutoff : ℕ)
      → (prune_upto db_bytes safe cutoff retention max_bytes now s).0.safe_upto ≡ some safe
  unfolding prune_upto
  prune_upto-safe_upto safe cutoff = refl

  prune_upto-Fresh :
      (r : BufferRow) (b safe cutoff : ℕ)
      → iso_minus now retention ≡ some cutoff
      → Fresh r b (prune_upto db_bytes safe cutoff retention max_bytes now s)
  prune_upto-Fresh r b safe cutoff e t bound m within stored =
      let same : safe ≡ b = cc (prune_upto-safe_upto safe cutoff) in
      expired_lem safe cutoff t r e (prune_upto-fresh safe cutoff r m) (rw same within) stored

  -- After a pass with bound `b`, no row up to `b` is older than the retention.
  pub prune_drops_expired :
      (exporters : List String) (sm : Summary) (s' : Store) (r : BufferRow) (b t : ℕ)
      → prune db_bytes exporters retention max_bytes now s ≡ some (sm, s')
      → sm.safe_upto ≡ some b
      → Member r s'.buffer
      → r.rowid_pk ≤ b
      → r.stored_at ≡ some t
      → now ≤ t + retention
  unfolding prune
  prune_drops_expired [] sm s' r b t h bound m within stored = absurd (ground arith)
  prune_drops_expired (name ∷ names) sm s' r b t h bound m within stored =
      elim (Bool-cases (min_cursor s name names == 0)) [
        | inl zero_cursor ↦ absurd (ground (arith, zero_cursor))
        | inr some_cursor ↦ elim (Option-cases (iso_minus now retention)) [
          | inl early ↦ absurd (ground (arith, some_cursor, early))
          | inr (cutoff, e) ↦
              let safe = min_cursor s name names in
              subst (Fresh r b) (some_eq _ _ (rw e at (rw some_cursor at h)))
                (prune_upto-Fresh r b safe cutoff e) t bound m within stored
        ]
      ]
