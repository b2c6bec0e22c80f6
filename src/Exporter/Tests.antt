-- ===== src/Exporter/Tests.antt =====
-- A drain whose destination takes one envelope and fails at the second.
use open_machine_protocol.Prelude.{
  ◌≡◌, ◌≢◌, refl, ℕ, zero, String, eq_iff, suc, [], ◌∷◌, arith, some, none, Option, length,
  is_empty, if◌then◌else◌,
}
use open_machine_protocol.Fixture.{envelope_of, alarm_body}
use open_machine_protocol.Dict.{lookup}
use open_machine_protocol.Envelope.{Envelope}
use open_machine_protocol.Store.{Store, BufferRow, cursor, last_seq, has_key}
use open_machine_protocol.Store.Invariant.{IsValid}
use open_machine_protocol.Store.Delivery.{unread}
use open_machine_protocol.Exporter.{drain, returned, stopped}
use open_machine_protocol.Exporter.Drain.{deliver, drain-Delivers}
use open_machine_protocol.Exporter.Fanout.{Destination, drain_all}
use open_machine_protocol.Exporter.Independent.{
  DistinctNames, fan, drain_all-fan, drain_all-starved,
}

-- The world is the number of envelopes that the destination still takes.
abbrev takes : ℕ → Envelope → Option ℕ
takes zero e = none
takes (suc n) e = some n

abbrev row : ℕ → BufferRow
row n = record {
  rowid_pk = n;
  machine_id = "press";
  seq = n;
  envelope = envelope_of alarm_body "d1";
  stored_at = some 5;
}

abbrev store : Store
store = record {
  seq_counters = ("press", 3) ∷ [];
  buffer = row 1 ∷ row 2 ∷ row 3 ∷ [];
  last_rowid = 3;
  prune_log = [];
  dead = [];
  exporter_cursors = ("mqtt", 1) ∷ [];
}

store-IsValid : IsValid store
unfolding cursor lookup last_seq has_key
store-IsValid = record {
  ascending = omega arith;
  within_rowid = omega arith;
  within_seq = omega arith;
  distinct = (refl, (refl, (refl, tt)));
  cursors = λ e. ground arith;
}

enough : length (unread "mqtt" store) ≡ 2
unfolding unread cursor lookup
enough = refl

drain-Delivers_example :
    let run = drain takes "mqtt" 5 1 1 store in
    let d = deliver takes (unread "mqtt" store) 1 in
    (run.world ≡ d.0)
    × (unread "mqtt" run.store ≡ d.1)
    × (run.ended ≡ (if is_empty d.1 then returned (length (unread "mqtt" store)) else stopped))
    × (run.store.buffer ≡ store.buffer)
drain-Delivers_example =
    drain-Delivers takes "mqtt" 5 1 1 store store-IsValid (omega arith) (omega (arith, enough))

abbrev to : String → Destination ℕ
to name = record { name = name; publish = takes; world = 5 }

three_rows : length (unread "stdout" store) ≡ 3
unfolding unread cursor lookup
three_rows = refl

two_names : DistinctNames (to "mqtt" ∷ to "stdout" ∷ [])
two_names = ((mqtt_ne_stdout, tt), (tt, tt))
  where
    mqtt_ne_stdout : ◌≢◌ {A = String} "mqtt" "stdout"
    mqtt_ne_stdout h = absurd (ground (arith, eq_iff "mqtt" "stdout"))

drain_all-fan_example :
    (drain_all 5 (to "mqtt" ∷ to "stdout" ∷ []) store).open_still
      ≡ (fan (to "mqtt" ∷ to "stdout" ∷ []) store).0
    × (drain_all 5 (to "mqtt" ∷ to "stdout" ∷ []) store).worlds
      ≡ (fan (to "mqtt" ∷ to "stdout" ∷ []) store).1
drain_all-fan_example =
    drain_all-fan 5 (to "mqtt" ∷ to "stdout" ∷ []) store store-IsValid.ascending two_names
      (omega (arith, enough), (omega (arith, three_rows), tt))

all_taken : (deliver takes (unread "mqtt" store) 5).1 ≡ []
unfolding deliver unread cursor lookup
all_taken = refl

drain_all-starved_example :
    (drain_all 5 (to "mqtt" ∷ to "mqtt" ∷ []) store).worlds
    ≡ (deliver takes (unread "mqtt" store) 5).0 ∷ 5 ∷ []
drain_all-starved_example =
    drain_all-starved 5 (to "mqtt") (to "mqtt") store store-IsValid.ascending refl
      (omega (arith, enough)) all_taken
