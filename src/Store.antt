-- ===== src/Store.antt =====
-- `Store` of gateway/omp/core/store.py: one record field per SQLite table, and a function for each
-- method. A method runs under the lock and in one transaction, so it is one step. A time is its count
-- of milliseconds: the fixed-width texts of `_now_iso` order like these counts.
pub mod Seq
pub mod Invariant
pub mod Delivery
pub mod Prune
pub mod Tests
use open_machine_protocol.Prelude.{
  ℕ, suc, ◌+◌, ◌-◌, ◌≡◌, String, Bool, true, false, not, ◌&&◌, Option, none, some, List, [], ◌∷◌,
  ◌++◌, str_eq, ◌==◌, ltb, leb, min, max, any, select, take, length, reverse_onto, if◌then◌else◌,
}
use open_machine_protocol.Dict.{Dict, lookup, insert}
use open_machine_protocol.Json.{Fields}
use open_machine_protocol.Envelope.{Envelope, ValueError}
use open_machine_protocol.Spec.{Invalid}

pub record BufferRow : Type 0 where
  pub rowid_pk : ℕ
  pub machine_id : String
  pub seq : ℕ
  pub envelope : Envelope
  pub stored_at : Option ℕ

-- `reason` in the prune log and in the summary of `prune`, with the numbers that it shows.
pub data Reason : Type 0 where
  no_exporters nothing_delivered nothing_eligible : Reason
  older_than : ℕ → Reason
  disk_over : ℕ → Reason
  older_than_and_disk_over : ℕ → ℕ → Reason

pub record PruneRow : Type 0 where
  pub pruned_at : ℕ
  pub rows : ℕ
  pub reason : Reason
  pub oldest_seq : Option ℕ
  pub newest_seq : Option ℕ

-- The `error` column: `str(exc)`, or the joined errors of the validator.
pub data DeadReason : Type 0 where
  value_error : ValueError → DeadReason
  invalid : List Invalid → DeadReason

pub record DeadLetter : Type 0 where
  pub machine_id : String
  pub received_ts : String
  pub body : Fields
  pub error : DeadReason

-- Rows stand in the order of their rowids; `last_rowid` is the AUTOINCREMENT counter of `buffer`.
pub record Store : Type 0 where
  pub seq_counters : Dict ℕ
  pub buffer : List BufferRow
  pub last_rowid : ℕ
  pub prune_log : List PruneRow
  pub dead : List DeadLetter
  pub exporter_cursors : Dict ℕ

abbrev pub empty : Store
empty = record {
  seq_counters = [];
  buffer = [];
  last_rowid = 0;
  prune_log = [];
  dead = [];
  exporter_cursors = [];
}

-- `row[0] if row else 0`
abbrev pub or_zero : Option ℕ → ℕ
or_zero none = 0
or_zero (some n) = n

unfoldable pub last_seq : Store → String → ℕ
last_seq s machine_id = or_zero (lookup machine_id s.seq_counters)

unfoldable pub next_seq : String → Store → ℕ × Store
unfolding last_seq
next_seq machine_id s =
    let seq = last_seq s machine_id + 1 in
    (seq, record s { seq_counters = insert machine_id seq s.seq_counters })

-- the index of UNIQUE (machine_id, seq)
unfoldable pub has_key : String → ℕ → List BufferRow → Bool
has_key machine_id seq rows = any (λ r. str_eq r.machine_id machine_id && r.seq == seq) rows

abbrev pub new_row : Envelope → ℕ → Store → BufferRow
new_row envelope stored_at s = record {
  rowid_pk = s.last_rowid + 1;
  machine_id = envelope.machine_id;
  seq = envelope.seq;
  envelope = envelope;
  stored_at = some stored_at;
}

-- The INSERT of `append`, where the index allows it.
unfoldable pub appended : Envelope → ℕ → Store → Store
appended envelope stored_at s = record s {
  buffer = s.buffer ++ new_row envelope stored_at s ∷ [];
  last_rowid = s.last_rowid + 1;
}

-- `none` is sqlite3.IntegrityError; `stored_at` is the argument, or the clock in a call without it.
unfoldable pub append : Envelope → ℕ → Store → Option Store
unfolding has_key appended
append envelope stored_at s =
    if has_key envelope.machine_id envelope.seq s.buffer
    then none
    else some (appended envelope stored_at s)

unfoldable pub cursor : Store → String → ℕ
cursor s exporter = or_zero (lookup exporter s.exporter_cursors)

abbrev pub is_after : ℕ → BufferRow → Bool
is_after after r = ltb after r.rowid_pk

unfoldable pub pending : String → ℕ → Store → List BufferRow
unfolding cursor
pending exporter limit s = take limit (select (is_after (cursor s exporter)) s.buffer)

unfoldable pub ack : String → ℕ → Store → Store
ack exporter rowid s = record s { exporter_cursors = insert exporter rowid s.exporter_cursors }

-- ORDER BY rowid_pk DESC LIMIT
unfoldable pub newest_first : {A : Type 0} → ℕ → List A → List A
newest_first limit rows = take limit (reverse_onto rows [])

unfoldable pub prune_history : ℕ → Store → List PruneRow
unfolding newest_first
prune_history limit s = newest_first limit s.prune_log

pub record Snapshot : Type 0 where
  pub machines : Dict ℕ
  pub buffered : ℕ
  pub dead_letters : ℕ
  pub cursors : Dict ℕ
  pub db_bytes : ℕ
  pub recent_prunes : List PruneRow

unfoldable pub snapshot : (Store → ℕ) → Store → Snapshot
unfolding prune_history
snapshot db_bytes s = record {
  machines = s.seq_counters;
  buffered = length s.buffer;
  dead_letters = length s.dead;
  cursors = s.exporter_cursors;
  db_bytes = db_bytes s;
  recent_prunes = prune_history 3 s;
}

unfoldable pub dead_letter : String → String → Fields → DeadReason → Store → Store
dead_letter machine_id received_ts body error s = record s {
  dead =
      s.dead
      ++ record { machine_id = machine_id; received_ts = received_ts; body = body; error = error }
        ∷ [];
}

unfoldable pub dead_letters : ℕ → Store → List DeadLetter
unfolding newest_first
dead_letters limit s = newest_first limit s.dead
