-- ===== src/Serial/Tests.antt =====
-- A captured group in a payload, and a replay of lines.
use open_machine_protocol.Prelude.{
  All, if◌then◌else◌, ℕ, ◌≡◌, refl, String, Bool, true, false, some, List, [], ◌∷◌, str_eq,
}
use open_machine_protocol.Adapter.{fresh_base}
use open_machine_protocol.Prelude.Int.{pos}
use open_machine_protocol.Dict.{Dict, lookup}
use open_machine_protocol.Json.{Value}
use open_machine_protocol.Serial.{Groups, Emit, Num, payload_of, parse_line}
use open_machine_protocol.Serial.Loop.{Tick, Setup, replay}
use open_machine_protocol.Serial.Tally.{samples_in}
use open_machine_protocol.Serial.Replay.{IsInteger, IsReplayed, replay-Told}
use open_machine_protocol.Serial.Payload.{payload_of-captured}

abbrev groups : Groups
groups = ("n", some "7") ∷ []

abbrev refs : Dict Value
refs = ("cycle_count", Value.text "n") ∷ []

refs_known : lookup "cycle_count" refs ≡ some (Value.text "n")
unfolding lookup
refs_known = refl

groups_known : lookup "n" groups ≡ some (some "7")
unfolding lookup
groups_known = refl

payload_of-captured_example : lookup "cycle_count" (payload_of groups refs) ≡ some (Value.text "7")
payload_of-captured_example =
    payload_of-captured groups refs "cycle_count" "n" "7" refs_known groups_known

-- Three lines of one channel, the second no number, and a stop before the fourth.
abbrev replayed : Setup
replayed = record {
  num = λ s. if str_eq s "nan" then Num.nan else Num.written (Value.int (pos 7));
  strip = λ s. s;
  patterns = (λ line. some (("c", some line) ∷ []), Emit.telemetry "temp" "Cel" "c") ∷ [];
  error_text = λ e. "bad";
  window = 60;
}

abbrev at : Bool → ℕ → Tick
at stop mono = record { stop = stop; data_ts = "d"; sample_ts = "s"; mono = mono }

abbrev replay_lines : List (String × Tick)
replay_lines =
    ("60", at false 0) ∷ ("nan", at false 1) ∷ ("61", at false 2) ∷ ("62", at true 3) ∷ []

two_samples : samples_in replayed "temp" replay_lines ≡ pos 7 ∷ pos 7 ∷ []
unfolding samples_in parse_line lookup
two_samples = refl

all_integers :
    All (λ l. IsInteger (parse_line replayed.num replayed.strip replayed.patterns l.0)) replay_lines
unfolding parse_line
all_integers = ((pos 7, refl), (tt, ((pos 7, refl), ((pos 7, refl), tt))))

replay-Told_example :
    IsReplayed replayed replay_lines (replay replayed "now" "end" replay_lines fresh_base)
replay-Told_example = replay-Told replayed "now" "end" replay_lines fresh_base all_integers
