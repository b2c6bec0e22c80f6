-- ===== src/Validate/Tests.antt =====
-- A blank line, a signed envelope and a line that is not JSON, with a key.
use open_machine_protocol.Prelude.{◌+◌, ◌≡◌, ◌↔◌, List, [], ◌∷◌, some, true, All}
use open_machine_protocol.Fixture.{primitives, specification, envelope_of, alarm_body}
use open_machine_protocol.Ingest.{Line, blank, not_json, object}
use open_machine_protocol.Audit.{Verifier}
use open_machine_protocol.Validate.{exit_code, tally_all, zero_tally}
use open_machine_protocol.Validate.Exit.{IsFine, lines_seen, exit_code_iff}

abbrev verifier : Verifier
verifier pubkey sig m = true

abbrev lines : List Line
lines = blank ∷ object (record (envelope_of alarm_body "d1") { sig = some "c2ln" }) ∷ not_json ∷ []

exit_code_iff_example :
    ((exit_code primitives specification verifier (some "key") lines ≡ 0)
      ↔ All (IsFine primitives specification verifier (some "key")) lines)
    × ((tally_all primitives specification verifier (some "key") lines zero_tally).valid
          + (tally_all primitives specification verifier
              (some "key")
              lines
              zero_tally).invalid_count
        ≡ lines_seen primitives specification verifier (some "key") lines)
exit_code_iff_example = exit_code_iff primitives specification verifier (some "key") lines
