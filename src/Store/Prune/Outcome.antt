-- ===== src/Store/Prune/Outcome.antt =====
-- What a call of `Store.prune` does to the tables, on every way it can return.
use open_machine_protocol.Prelude.{
  ℕ, ◌+◌, ◌≤◌, ◌<◌, ◌≡◌, refl, sym, String, Bool, true, false, inl, inr, Option, none, some, List,
  [], ◌∷◌, ◌∙◌, arith, All-map, All-select, select, select-all, length, length-append, Member,
  Member-select, Bool-cases, Option-cases, ◌==◌, if◌then◌else◌, subst, ap,
}
use open_machine_protocol.Dict.{lookup}
use open_machine_protocol.Store.{Store, BufferRow, Reason, cursor, last_seq, or_zero}
use open_machine_protocol.Store.Invariant.{
  IsValid, WithinRowid, WithinSeq, Ascending-select, Distinct-select,
}
use open_machine_protocol.Store.Prune.{
  Summary, Pass, min_cursor, is_expired, age_pass, over_limit, prune_upto, record_pass, passes,
  iso_minus, prune,
}
use open_machine_protocol.Store.Prune.Retention.{
  min_cursor-le, is_kept, passes-rows, passes-deleted,
}

-- The rows go through a test, and what fails it has reached every exporter; the summary counts what
-- is gone, the prune log has a row more exactly if something is, and no other table changes.
pub record Deletes (exporters : List String) (s : Store) (sm : Summary) (s' : Store) : Type 0 where
  pub keep : BufferRow → Bool
  pub buffer : s'.buffer ≡ select keep s.buffer
  pub safe :
      (r : BufferRow) (e : String) → keep r ≡ false → Member e exporters → r.rowid_pk ≤ cursor s e
  pub counted : sm.pruned + length s'.buffer ≡ length s.buffer
  pub logged : length s'.prune_log ≡ length s.prune_log + (if sm.pruned == 0 then 0 else 1)
  pub seq_counters : s'.seq_counters ≡ s.seq_counters
  pub last_rowid : s'.last_rowid ≡ s.last_rowid
  pub exporter_cursors : s'.exporter_cursors ≡ s.exporter_cursors
  pub dead : s'.dead ≡ s.dead

keeps_all :
    (exporters : List String) (s : Store) (reason : Reason)
    → Deletes exporters s (record { pruned = 0; reason = reason; safe_upto = none }) s
keeps_all exporters s reason = record {
  keep = λ _. true;
  buffer = sym (select-all s.buffer);
  safe = λ r e h m. absurd (ground arith);
  counted = omega arith;
  logged = omega arith;
  seq_counters = refl;
  last_rowid = refl;
  exporter_cursors = refl;
  dead = refl;
}

is_kept-safe :
    (safe cutoff : ℕ) (over : Option ℕ) (r : BufferRow)
    → is_kept safe cutoff over r ≡ false
    → r.rowid_pk ≤ safe
is_kept-safe safe cutoff none r h = ground arith
is_kept-safe safe cutoff (some b) r h = ground arith

-- The last step of `prune`, over any pass.
module _ (now : ℕ) (hit : List BufferRow) (p : Pass) (s : Store) where
  pub record_pass-fields :
      ((record_pass now hit p s).buffer ≡ p.rows)
      × ((record_pass now hit p s).seq_counters ≡ s.seq_counters)
      × ((record_pass now hit p s).last_rowid ≡ s.last_rowid)
      × ((record_pass now hit p s).exporter_cursors ≡ s.exporter_cursors)
      × ((record_pass now hit p s).dead ≡ s.dead)
  unfolding record_pass
  record_pass-fields = elim (Bool-cases (p.deleted == 0)) [
    | inl e ↦ rw e (refl, refl, refl, refl, refl)
    | inr e ↦ rw e (refl, refl, refl, refl, refl)
  ]

  record_pass-logged :
      length (record_pass now hit p s).prune_log
      ≡ length s.prune_log + (if p.deleted == 0 then 0 else 1)
  unfolding record_pass
  record_pass-logged = elim (Bool-cases (p.deleted == 0)) [
    | inl e ↦ rw e (omega arith)
    | inr e ↦ rw e (length-append s.prune_log _)
  ]

module _ (db_bytes : Store → ℕ) (retention : ℕ) (max_bytes : Option ℕ) (now : ℕ) (s : Store) where
  unfoldable pub over : ℕ → ℕ → Option ℕ
  unfolding age_pass
  over safe cutoff =
      over_limit (db_bytes (record s { buffer = (age_pass safe cutoff retention s.buffer).rows }))
        max_bytes

  prune_upto-Deletes :
      (name : String) (names : List String) (cutoff : ℕ)
      → let (sm, s') =
          prune_upto db_bytes (min_cursor s name names) cutoff retention max_bytes now s in
        Deletes (name ∷ names) s sm s'
  unfolding prune_upto over
  prune_upto-Deletes name names cutoff =
      let safe = min_cursor s name names in
      let p = passes db_bytes safe cutoff retention max_bytes s in
      let hit = select (is_expired safe cutoff) s.buffer in
      let same = record_pass-fields now hit p s in
      record {
        keep = is_kept safe cutoff (over safe cutoff);
        buffer = same.0 ∙ passes-rows safe cutoff retention (over safe cutoff) s.buffer;
        safe = λ r e h m. omega (
          arith,
          is_kept-safe safe cutoff (over safe cutoff) r h,
          min_cursor-le s name names e m,
        );
        counted = rw (same.0) (passes-deleted safe cutoff retention (over safe cutoff) s.buffer);
        logged = record_pass-logged now hit p s;
        seq_counters = same.1;
        last_rowid = same.2;
        exporter_cursors = same.3;
        dead = same.4;
      }

pub some_eq : (x y : Summary × Store) → some x ≡ some y → x ≡ y
some_eq x y e = cc

-- A statement of what a call returned, moved along the equation of the call.
returned :
    (exporters : List String) (s : Store) (x y : Summary × Store)
    → some x ≡ some y
    → Deletes exporters s x.0 x.1
    → Deletes exporters s y.0 y.1
returned exporters s x y e d =
    subst (λ (z : Summary × Store). Deletes exporters s z.0 z.1) (some_eq x y e) d

module _ (db_bytes : Store → ℕ) (retention : ℕ) (max_bytes : Option ℕ) (now : ℕ) (s : Store) where
  -- However `prune` returns, it deletes only what every configured exporter has received.
  pub prune-Deletes :
      (exporters : List String) (sm : Summary) (s' : Store)
      → prune db_bytes exporters retention max_bytes now s ≡ some (sm, s')
      → Deletes exporters s sm s'
  unfolding prune
  prune-Deletes [] sm s' h = returned [] s _ _ h (keeps_all [] s Reason.no_exporters)
  prune-Deletes (name ∷ names) sm s' h = elim (Bool-cases (min_cursor s name names == 0)) [
    | inl zero_cursor ↦
        returned (name ∷ names) s _ _ (rw zero_cursor at h)
          (keeps_all (name ∷ names) s Reason.nothing_delivered)
    | inr some_cursor ↦ elim (Option-cases (iso_minus now retention)) [
      | inl early ↦ absurd (ground (arith, some_cursor, early))
      | inr (cutoff, e) ↦
          returned (name ∷ names) s _ _ (rw e at (rw some_cursor at h))
            (prune_upto-Deletes db_bytes retention max_bytes now s name names cutoff)
    ]
  ]

  -- A row that one configured exporter has yet to receive is still there after `prune`.
  pub prune_keeps_undelivered :
      (exporters : List String) (sm : Summary) (s' : Store) (r : BufferRow) (e : String)
      → prune db_bytes exporters retention max_bytes now s ≡ some (sm, s')
      → Member e exporters
      → cursor s e < r.rowid_pk
      → Member r s.buffer
      → Member r s'.buffer
  prune_keeps_undelivered exporters sm s' r e h m late held =
      let d = prune-Deletes exporters sm s' h in
      elim (Bool-cases (d.keep r)) [
        | inl kept ↦ rw (d.buffer) (Member-select d.keep r s.buffer held kept)
        | inr gone ↦ absurd (omega (arith, d.safe r e gone m))
      ]

  -- The invariant survives `prune`.
  pub prune-IsValid :
      (exporters : List String) (sm : Summary) (s' : Store)
      → prune db_bytes exporters retention max_bytes now s ≡ some (sm, s')
      → IsValid s
      → IsValid s'
  unfolding last_seq cursor
  prune-IsValid exporters sm s' h v =
      let d = prune-Deletes exporters sm s' h in
      record {
        ascending = rw (d.buffer) (Ascending-select d.keep 0 s.buffer v.ascending);
        within_rowid =
            rw (d.buffer, d.last_rowid)
              (All-select (WithinRowid s.last_rowid) d.keep s.buffer v.within_rowid);
        within_seq = rw (d.buffer) (
            All-map (WithinSeq s) (WithinSeq s') _
              (λ r b. rw (last_seq-of d.seq_counters r.machine_id) b)
              (All-select (WithinSeq s) d.keep s.buffer v.within_seq));
        distinct = rw (d.buffer) (Distinct-select d.keep s.buffer v.distinct);
        cursors = λ e. rw (d.last_rowid, cursor-of d.exporter_cursors e) (v.cursors e);
      }
    where
      last_seq-of : s'.seq_counters ≡ s.seq_counters → (m : String) → last_seq s' m ≡ last_seq s m
      last_seq-of e m = ap (λ c. or_zero (lookup m c)) e

      cursor-of : s'.exporter_cursors ≡ s.exporter_cursors → (e : String) → cursor s' e ≡ cursor s e
      cursor-of e n = ap (λ c. or_zero (lookup n c)) e
