-- ===== src/Store/Tests.antt =====
-- A store with two rows and two exporters, one of which is behind, before and after `prune`.
use open_machine_protocol.Prelude.{
  ◌≡◌, refl, inl, inr, String, ℕ, List, [], ◌∷◌, arith, some, none, ◌≤◌, ◌*◌, ◌+◌, Member,
}
use open_machine_protocol.Fixture.{envelope_of, alarm_body}
use open_machine_protocol.Dict.{lookup}
use open_machine_protocol.Store.{Store, BufferRow, Reason, cursor, last_seq, has_key}
use open_machine_protocol.Store.Invariant.{IsValid}
use open_machine_protocol.Store.Prune.{
  Summary, prune, prune_upto, passes, age_pass, disk_pass, record_pass, min_cursor,
}
use open_machine_protocol.Store.Prune.Age.{prune_drops_expired}
use open_machine_protocol.Store.Prune.Outcome.{Deletes, prune-Deletes, prune_keeps_undelivered}

abbrev size_of : Store → ℕ
size_of s = 100

abbrev names : List String
names = "mqtt" ∷ "rest" ∷ []

abbrev row : ℕ → BufferRow
row n = record {
  rowid_pk = n;
  machine_id = "press";
  seq = n;
  envelope = envelope_of alarm_body "d1";
  stored_at = some (n * 10);
}

abbrev before : Store
before = record {
  seq_counters = ("press", 2) ∷ [];
  buffer = row 1 ∷ row 2 ∷ [];
  last_rowid = 2;
  prune_log = [];
  dead = [];
  exporter_cursors = ("mqtt", 2) ∷ ("rest", 1) ∷ [];
}

abbrev after : Store
after = record before {
  buffer = row 2 ∷ [];
  prune_log =
      record {
        pruned_at = 50;
        rows = 1;
        reason = Reason.older_than 20;
        oldest_seq = some 1;
        newest_seq = some 1;
      }
      ∷ [];
}

abbrev summary : Summary
summary = record { pruned = 1; reason = Reason.older_than 20; safe_upto = some 1 }

call : prune size_of names 20 none 50 before ≡ some (summary, after)
unfolding prune prune_upto passes age_pass disk_pass record_pass min_cursor cursor lookup
call = refl

before-IsValid : IsValid before
unfolding cursor lookup last_seq has_key
before-IsValid = record {
  ascending = omega arith;
  within_rowid = omega arith;
  within_seq = omega arith;
  distinct = (refl, (refl, tt));
  cursors = λ e. ground arith;
}

prune_keeps_undelivered_example : Member (row 2) after.buffer
unfolding cursor lookup
prune_keeps_undelivered_example =
    prune_keeps_undelivered size_of 20 none 50 before names summary after (row 2) "rest" call
      (inr (inl refl)) (omega arith) (inr (inl refl))

prune-Deletes_example : Deletes names before summary after
prune-Deletes_example = prune-Deletes size_of 20 none 50 before names summary after call

-- A second pass one tick later, whose bound is past the row.
abbrev caught_up : Store
caught_up = record after { exporter_cursors = ("mqtt", 2) ∷ ("rest", 2) ∷ [] }

abbrev idle_summary : Summary
idle_summary = record { pruned = 0; reason = Reason.nothing_eligible; safe_upto = some 2 }

quiet_call : prune size_of names 35 none 51 caught_up ≡ some (idle_summary, caught_up)
unfolding prune prune_upto passes age_pass disk_pass record_pass min_cursor cursor lookup
quiet_call = refl

prune_drops_expired_example : 51 ≤ 20 + 35
prune_drops_expired_example =
    prune_drops_expired size_of 35 none 51 caught_up names idle_summary caught_up (row 2) 2 20
      quiet_call refl (inl refl) (omega arith) refl
