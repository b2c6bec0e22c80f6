-- ===== src/Gateway/Tests.antt =====
-- A run of the gateway with one exporter: an envelope is accepted, fetched, published, acknowledged
-- and deleted.
use open_machine_protocol.Prelude.{
  refl, inl, String, ℕ, List, [], ◌∷◌, arith, some, none, ◌<◌, ◌⊎◌, Member, All,
}
use open_machine_protocol.Fixture.{primitives, gateway, alarm, envelope_of, alarm_body}
use open_machine_protocol.Dict.{lookup, insert}
use open_machine_protocol.Json.{get}
use open_machine_protocol.Envelope.{checksum, canonicalize, check_numbers, make_envelope}
use open_machine_protocol.Spec.{validate_envelope, profile_errors, before_slash, event_errors}
use open_machine_protocol.Store.{
  Store, BufferRow, Reason, next_seq, last_seq, append, appended, has_key, pending, cursor, ack,
}
use open_machine_protocol.Store.Invariant.{Distinct}
use open_machine_protocol.Store.Prune.{
  prune, prune_upto, passes, age_pass, disk_pass, record_pass, min_cursor,
}
use open_machine_protocol.Engine.{process, admit, sign}
use open_machine_protocol.Gateway.{
  System, Reach, begin, step, emit, fetch, publish, acknowledge, retain, sending, published,
  set_phase, start,
}
use open_machine_protocol.Gateway.Loss.{accepted_never_lost, cursor_after_publish}
use open_machine_protocol.Gateway.Keys.{accepted_keys_unique}

abbrev size_of : Store → ℕ
size_of s = 0

abbrev exporters : List String
exporters = "mqtt" ∷ []

abbrev row : BufferRow
row = record {
  rowid_pk = 1;
  machine_id = "press";
  seq = 1;
  envelope = envelope_of alarm_body "d1";
  stored_at = some 5;
}

abbrev Reached : System → Type 0
Reached σ = Reach primitives gateway size_of exporters σ

-- The system after the run: the buffer is empty, the cursor and the prune log remain.
abbrev final_store : Store
final_store = record {
  seq_counters = ("press", 1) ∷ [];
  buffer = [];
  last_rowid = 1;
  prune_log =
      record {
        pruned_at = 10;
        rows = 1;
        reason = Reason.older_than 2;
        oldest_seq = some 1;
        newest_seq = some 1;
      }
      ∷ [];
  dead = [];
  exporter_cursors = ("mqtt", 1) ∷ [];
}

abbrev final : System
final = record {
  store = final_store;
  phase =
      set_phase
        (set_phase (set_phase start.phase "mqtt" (sending (row ∷ []))) "mqtt" (published row []))
        "mqtt" (sending []);
  accepted = row ∷ [];
  delivered = ("mqtt", 1) ∷ [];
}

final_run : Reached final
unfolding process next_seq last_seq lookup insert admit validate_envelope profile_errors
    before_slash event_errors make_envelope checksum canonicalize check_numbers sign append appended
    has_key pending cursor get ack prune prune_upto passes age_pass disk_pass record_pass min_cursor
final_run =
    let a = step begin (emit "press" alarm "now" 5) in
    let b = step a (fetch "mqtt" 10 (inl refl)) in
    let c = step b (publish "mqtt" row [] refl) in
    let d = step c (acknowledge "mqtt" row [] refl) in
    step d (
      retain 2 10 none (record { pruned = 1; reason = Reason.older_than 2; safe_upto = some 1 })
        final_store refl)

accepted_never_lost_example :
    Member row final.store.buffer ⊎ All (λ e. Member (e, row.rowid_pk) final.delivered) exporters
accepted_never_lost_example =
    accepted_never_lost primitives gateway size_of exporters final_run row (inl refl)

cursor_after_publish_example : Member ("mqtt", 1) final.delivered
unfolding cursor lookup
cursor_after_publish_example =
    cursor_after_publish primitives gateway size_of exporters final_run "mqtt" row (inl refl)
      (omega arith)

accepted_keys_unique_example :
    Distinct final.accepted
    × All (λ r. r.seq < (next_seq r.machine_id final.store).0) final.accepted
accepted_keys_unique_example = accepted_keys_unique primitives gateway size_of exporters final_run
