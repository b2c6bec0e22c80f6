-- ===== src/Store/Prune.antt =====
-- `Store.prune`: the safe bound of the configured exporters, the pass by age and the pass by size.
pub mod Retention
pub mod Outcome
pub mod Age
use open_machine_protocol.Prelude.{
  ℕ, ◌+◌, ◌-◌, String, Bool, false, not, ◌&&◌, Option, none, some, List, [], ◌∷◌, ◌++◌, ◌==◌, ltb,
  leb, min, max, select, length, if◌then◌else◌,
}
use open_machine_protocol.Store.{Store, BufferRow, PruneRow, Reason, cursor}

-- `min(cursors.get(name, 0) for name in exporters)`, on the first name and the others
unfoldable pub min_cursor : Store → String → List String → ℕ
unfolding cursor
min_cursor s name [] = cursor s name
min_cursor s name (other ∷ names) = min (cursor s name) (min_cursor s other names)

-- `stored_at IS NOT NULL AND stored_at < cutoff`
abbrev pub is_older : ℕ → Option ℕ → Bool
is_older cutoff none = false
is_older cutoff (some t) = ltb t cutoff

abbrev pub is_expired : ℕ → ℕ → BufferRow → Bool
is_expired safe_upto cutoff r = leb r.rowid_pk safe_upto && is_older cutoff r.stored_at

abbrev pub is_delivered : ℕ → BufferRow → Bool
is_delivered safe_upto r = leb r.rowid_pk safe_upto

-- MIN(seq) and MAX(seq); NULL over no rows
abbrev pub min_seq : List BufferRow → Option ℕ
min_seq [] = none
min_seq (r ∷ rs) = elim (min_seq rs) [ none ↦ some r.seq | some m ↦ some (min r.seq m) ]

abbrev pub max_seq : List BufferRow → Option ℕ
max_seq [] = none
max_seq (r ∷ rs) = elim (max_seq rs) [ none ↦ some r.seq | some m ↦ some (max r.seq m) ]

pub record Summary : Type 0 where
  pub pruned : ℕ
  pub reason : Reason
  pub safe_upto : Option ℕ

-- `(reason + " + " if reason else "") + f"disk over {max_bytes}B"`
abbrev pub add_disk_over : Option Reason → ℕ → Reason
add_disk_over (some (Reason.older_than d)) bytes = Reason.older_than_and_disk_over d bytes
add_disk_over _ bytes = Reason.disk_over bytes

-- `deleted` and `reason` (`none` is the empty text), and the rows that are left.
pub record Pass : Type 0 where
  pub deleted : ℕ
  pub reason : Option Reason
  pub rows : List BufferRow

-- the age pass: SELECT COUNT(*), then DELETE with the same condition
unfoldable pub age_pass : ℕ → ℕ → ℕ → List BufferRow → Pass
age_pass safe_upto cutoff retention rows =
    let n = length (select (is_expired safe_upto cutoff) rows) in
    if n == 0 then record { deleted = 0; reason = none; rows = rows } else record {
      deleted = n;
      reason = some (Reason.older_than retention);
      rows = select (λ r. not (is_expired safe_upto cutoff r)) rows;
    }

-- the disk pass; `over` is `max_bytes` where the database is larger than that
unfoldable pub disk_pass : ℕ → Option ℕ → Pass → Pass
disk_pass safe_upto none p = p
disk_pass safe_upto (some max_bytes) p =
    let extra = length (select (is_delivered safe_upto) p.rows) in
    if extra == 0 then p else record {
      deleted = p.deleted + extra;
      reason = some (add_disk_over p.reason max_bytes);
      rows = select (λ r. not (is_delivered safe_upto r)) p.rows;
    }

-- `max_bytes is not None and self._db_bytes() > max_bytes`
abbrev pub over_limit : ℕ → Option ℕ → Option ℕ
over_limit db_bytes none = none
over_limit db_bytes (some max_bytes) = if ltb max_bytes db_bytes then some max_bytes else none

-- `_iso_minus_days`; `none` is OverflowError, before the first date
abbrev pub iso_minus : ℕ → ℕ → Option ℕ
iso_minus now retention = if ltb now retention then none else some (now - retention)

abbrev pub or_nothing_eligible : Option Reason → Reason
or_nothing_eligible none = Reason.nothing_eligible
or_nothing_eligible (some r) = r

-- The row of the prune log, if anything was deleted; `hit` are the rows of the age pass.
unfoldable pub record_pass : ℕ → List BufferRow → Pass → Store → Store
record_pass now hit done s =
    if done.deleted == 0 then record s { buffer = done.rows } else record s {
      buffer = done.rows;
      prune_log =
          s.prune_log
          ++ record {
            pruned_at = now;
            rows = done.deleted;
            reason = or_nothing_eligible done.reason;
            oldest_seq = min_seq hit;
            newest_seq = max_seq hit;
          }
            ∷ [];
    }

-- The size of the database file is SQLite's: a function of what the tables hold.
module _ (db_bytes : Store → ℕ) where
  -- both passes; the size is read after the first
  unfoldable pub passes : ℕ → ℕ → ℕ → Option ℕ → Store → Pass
  unfolding age_pass disk_pass
  passes safe_upto cutoff retention max_bytes s =
      let aged = age_pass safe_upto cutoff retention s.buffer in
      let size = db_bytes (record s { buffer = aged.rows }) in
      disk_pass safe_upto (over_limit size max_bytes) aged

  -- the body of `prune` once the cutoff is there
  unfoldable pub prune_upto : ℕ → ℕ → ℕ → Option ℕ → ℕ → Store → Summary × Store
  unfolding passes record_pass
  prune_upto safe_upto cutoff retention max_bytes now s =
      let done = passes safe_upto cutoff retention max_bytes s in
      (
        record {
          pruned = done.deleted;
          reason = or_nothing_eligible done.reason;
          safe_upto = some safe_upto;
        },
        record_pass now (select (is_expired safe_upto cutoff) s.buffer) done s,
      )

  -- `none` is the OverflowError of the cutoff, raised before anything is deleted.
  unfoldable pub prune : List String → ℕ → Option ℕ → ℕ → Store → Option (Summary × Store)
  unfolding prune_upto min_cursor
  prune [] retention max_bytes now s =
      some (record { pruned = 0; reason = Reason.no_exporters; safe_upto = none }, s)
  prune (name ∷ names) retention max_bytes now s =
      let safe_upto = min_cursor s name names in
      if safe_upto == 0
      then some (record { pruned = 0; reason = Reason.nothing_delivered; safe_upto = none }, s)
      else elim (iso_minus now retention) [
        | none ↦ none
        | some cutoff ↦ some (prune_upto safe_upto cutoff retention max_bytes now s)
      ]
