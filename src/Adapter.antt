-- ===== src/Adapter.antt =====
-- gateway/omp/adapter.py: the health of an adapter and its retry delay; `_supervise` of
-- gateway/omp/cli.py. Delays are whole seconds: the code's floats are 1, 2, 4, ..., 256, 300.
pub mod Backoff
pub mod Supervise
pub mod Tests
use open_machine_protocol.Prelude.{
  ℕ, zero, suc, ◌+◌, ◌*◌, String, Bool, true, false, Option, none, some, List, [], ◌∷◌, min, ltb,
  if◌then◌else◌,
}

pub data State : Type 0 where
  ok degraded disconnected failed : State

pub record Health : Type 0 where
  pub state : State
  pub connected_since : Option String
  pub last_data_ts : Option String
  pub reconnect_count : ℕ
  pub error_count : ℕ
  pub detail : Option String

-- The state of `AdapterBase`; `backoff_s` is the next delay.
pub record Base : Type 0 where
  pub current : Health
  pub backoff_s : ℕ

abbrev pub fresh_base : Base
fresh_base = record {
  current = record {
    state = disconnected;
    connected_since = none;
    last_data_ts = none;
    reconnect_count = 0;
    error_count = 0;
    detail = none;
  };
  backoff_s = 1;
}

-- The increment of `reconnect_count`: a connection after a lost one counts, the first one does not.
abbrev pub reconnects : State → Option String → ℕ
reconnects ok since = 0
reconnects _ none = 0
reconnects _ (some t) = 1

unfoldable pub mark_connected : String → Base → Base
mark_connected now b =
    let h = b.current in
    record {
      current = record h {
        state = ok;
        connected_since = some now;
        reconnect_count = h.reconnect_count + reconnects h.state h.connected_since;
        detail = none;
      };
      backoff_s = 1;
    }

unfoldable pub mark_data : String → Base → Base
mark_data now b = let h = b.current in record b { current = record h { last_data_ts = some now } }

unfoldable pub mark_degraded : String → Base → Base
mark_degraded why b =
    let h = b.current in
    record b {
      current = record h { state = degraded; error_count = h.error_count + 1; detail = some why };
    }

unfoldable pub mark_disconnected : String → Base → Base
mark_disconnected why b =
    let h = b.current in
    record b {
      current = record h {
        state = disconnected;
        error_count = h.error_count + 1;
        detail = some why;
      };
    }

unfoldable pub mark_failed : String → Base → Base
mark_failed why b =
    let h = b.current in record b { current = record h { state = failed; detail = some why } }

-- The delay, and the state with the next one.
unfoldable pub backoff : Base → ℕ × Base
backoff b = (b.backoff_s, record b { backoff_s = min (b.backoff_s * 2) 300 })

-- What an adapter's own code calls of its base while `start` runs.
pub data Mark : Type 0 where
  connected : String → Mark
  received : String → Mark
  degrades : String → Mark
  disconnects : String → Mark
  fails : String → Mark
  backs_off : Mark

unfoldable pub apply_mark : Mark → Base → Base
unfolding mark_connected mark_data mark_degraded mark_disconnected mark_failed backoff
apply_mark (connected now) b = mark_connected now b
apply_mark (received now) b = mark_data now b
apply_mark (degrades why) b = mark_degraded why b
apply_mark (disconnects why) b = mark_disconnected why b
apply_mark (fails why) b = mark_failed why b
apply_mark backs_off b = (backoff b).1

unfoldable pub apply_marks : List Mark → Base → Base
unfolding apply_mark
apply_marks [] b = b
apply_marks (m ∷ marks) b = apply_marks marks (apply_mark m b)

-- One call of `start`: what it marks, and the exception that escapes it, if any.
pub record Attempt : Type 0 where
  pub marks : List Mark
  pub raised : Option String

-- How the supervision ends: `start` returned, the crashes reached the limit, the stop event was set,
-- or the fuel was used up.
pub data Ended : Type 0 where
  returned gave_up stopped out_of_fuel : Ended

pub record Supervised : Type 0 where
  pub ended : Ended
  pub base : Base
  pub starts : ℕ
  pub delays : List ℕ

-- The texts of the two calls that the supervisor makes, over the number of crashes and the exception.
module _ (stopped_after crash_text : ℕ → String → String) (max_crashes : ℕ) where
  -- `attempts` are the calls of `start` to come, `at_test` and `at_wait` what the stop event is found
  -- to be at the loop's test and at the end of a wait, both by the number of crashes so far.
  unfoldable pub supervise : (ℕ → Attempt) → (ℕ → Bool) → (ℕ → Bool) → ℕ → ℕ → Base → Supervised
  unfolding apply_marks mark_failed mark_disconnected backoff
  supervise attempts at_test at_wait zero crashes b = record {
    ended = out_of_fuel;
    base = b;
    starts = 0;
    delays = [];
  }
  supervise attempts at_test at_wait (suc fuel) crashes b =
      let a = attempts crashes in
      let ran = apply_marks a.marks b in
      elim (at_test crashes) [
        | true ↦ record { ended = stopped; base = b; starts = 0; delays = [] }
        | false ↦ elim a.raised [
          | none ↦ record { ended = returned; base = ran; starts = 1; delays = [] }
          | some exc ↦
              let n = crashes + 1 in
              elim (ltb n max_crashes) [
                | false ↦ record {
                  ended = gave_up;
                  base = mark_failed (stopped_after n exc) ran;
                  starts = 1;
                  delays = [];
                }
                | true ↦
                    let (delay, waiting) = backoff (mark_disconnected (crash_text n exc) ran) in
                    elim (at_wait n) [
                      | true ↦ record {
                        ended = stopped;
                        base = waiting;
                        starts = 1;
                        delays = delay ∷ [];
                      }
                      | false ↦
                          let rest = supervise attempts at_test at_wait fuel n waiting in
                          record rest { starts = rest.starts + 1; delays = delay ∷ rest.delays }
                    ]
              ]
        ]
      ]
