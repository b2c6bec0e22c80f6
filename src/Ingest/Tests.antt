-- ===== src/Ingest/Tests.antt =====
-- A stream with a blank line, a line that is not JSON, an envelope, and the same envelope again.
use open_machine_protocol.Prelude.{◌≡◌, refl, ◌+◌, String, List, [], ◌∷◌, some, true, All, arith}
use open_machine_protocol.Fixture.{primitives, specification, envelope_of, alarm_body}
use open_machine_protocol.Dict.{lookup}
use open_machine_protocol.Json.{get}
use open_machine_protocol.Envelope.{checksum, canonicalize, check_numbers}
use open_machine_protocol.Spec.{validate_envelope, profile_errors, before_slash, event_errors}
use open_machine_protocol.Ingest.{
  Consumer, Line, blank, not_json, object, Fault, fresh, raw_row, find_row, ingest_all, ingest_line,
  quarantine_line, note_unknown_vocabulary, note_type, dedup, resolve, store_raw, project,
}
use open_machine_protocol.Ingest.Totals.{IsStorable, lines_counted, ingest_all-total}
use open_machine_protocol.Ingest.Counts.{IsCounted, total}
use open_machine_protocol.Ingest.Dedup.{raw_immutable, replay_stores_nothing}

abbrev lines : List (String × Line)
lines =
    ("", blank)
    ∷ ("{", not_json)
    ∷ ("a", object (envelope_of alarm_body "d1"))
    ∷ ("a", object (envelope_of alarm_body "d1"))
    ∷ []

abbrev once : Consumer
once = record fresh {
  raw_envelopes = raw_row (envelope_of alarm_body "d1") true ∷ [];
  quarantine = ("{", Fault.parse) ∷ [];
  stored = 1;
  duplicates = 1;
  quarantined = 1;
}

abbrev twice : Consumer
twice = record once {
  quarantine = ("{", Fault.parse) ∷ ("{", Fault.parse) ∷ [];
  duplicates = 3;
  quarantined = 2;
}

first_pass : ingest_all primitives specification lines fresh ≡ some once
unfolding ingest_all ingest_line quarantine_line note_unknown_vocabulary note_type dedup resolve
    store_raw project find_row validate_envelope profile_errors before_slash event_errors checksum
    canonicalize check_numbers get lookup
first_pass = refl

second_pass : ingest_all primitives specification lines once ≡ some twice
unfolding ingest_all ingest_line quarantine_line note_unknown_vocabulary note_type dedup resolve
    store_raw project find_row validate_envelope profile_errors before_slash event_errors checksum
    canonicalize check_numbers get lookup
second_pass = refl

fresh-IsCounted : IsCounted fresh
fresh-IsCounted = record { stored = refl; quarantined = refl; alarms = refl; verified = tt }

small : All (λ l. IsStorable primitives specification l.1) lines
small = (tt, (tt, (omega arith, (omega arith, tt))))

found :
    find_row (envelope_of alarm_body "d1") once.raw_envelopes
    ≡ some (raw_row (envelope_of alarm_body "d1") true)
unfolding find_row
found = refl

ingest_all-total_example :
    (c' : Consumer) × (ingest_all primitives specification lines fresh ≡ some c')
    × IsCounted c'
    × (total c' ≡ total fresh + lines_counted primitives specification lines)
ingest_all-total_example =
    ingest_all-total primitives specification lines fresh small fresh-IsCounted

raw_immutable_example :
    find_row (envelope_of alarm_body "d1") twice.raw_envelopes
    ≡ some (raw_row (envelope_of alarm_body "d1") true)
raw_immutable_example =
    raw_immutable primitives specification lines once twice (envelope_of alarm_body "d1")
      (raw_row (envelope_of alarm_body "d1") true) second_pass found

replay_stores_nothing_example :
    (twice.raw_envelopes ≡ once.raw_envelopes)
    × (twice.machines ≡ once.machines)
    × (twice.runs ≡ once.runs)
replay_stores_nothing_example =
    replay_stores_nothing primitives specification lines fresh once twice first_pass second_pass
