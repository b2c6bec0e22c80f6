-- ===== src/Poll/Bounds.antt =====
-- The bounds on what a polling run has sent and waited, and the cases of its steps.
use open_machine_protocol.Prelude.{
  ℕ, ◌+◌, ◌≤◌, ◌<◌, ◌≡◌, refl, ◌⊎◌, inl, inr, String, List, arith, All,
}
use open_machine_protocol.Modbus.{Fault, Result, ok, raised}
use open_machine_protocol.Poll.Requests.{IsReadRequest}
use open_machine_protocol.Poll.Poller.{Setup, Poller, Ended, all_read, modbus_error, link_dropped}

-- A wait between one second and five minutes.
abbrev pub IsDelay : ℕ → Type 0
IsDelay d = (1 ≤ d) × (d ≤ 300)

-- Every request was a read, every wait is in range, and so are the next transaction and the next wait.
pub record IsPolling (setup : Setup) (s : Poller) : Type 0 where
  pub reads : All (IsReadRequest setup) s.asked
  pub waits : All IsDelay s.delays
  pub transaction : s.tid < 65536
  pub next_wait : IsDelay s.base.backoff_s

-- A state that agrees with another in what the invariant is about.
pub record Same (s t : Poller) : Type 0 where
  pub asked : t.asked ≡ s.asked
  pub delays : t.delays ≡ s.delays
  pub tid : t.tid ≡ s.tid
  pub backoff_s : t.base.backoff_s ≡ s.base.backoff_s

pub Same-IsPolling :
    (setup : Setup) (s t : Poller) → Same s t → IsPolling setup s → IsPolling setup t
Same-IsPolling setup s t e h = record {
  reads = rw e.asked h.reads;
  waits = rw e.delays h.waits;
  transaction = rw e.tid h.transaction;
  next_wait = rw e.backoff_s h.next_wait;
}

pub request_cases :
    (r : Result (ℕ × List ℕ))
    → ((f : Fault) × (r ≡ raised f)) ⊎ ((func : ℕ) × (frame : List ℕ) × (r ≡ ok (func, frame)))
request_cases (raised f) = inl (f, refl)
request_cases (ok (func, frame)) = inr (func, frame, refl)

pub Ended-cases :
    (e : Ended)
    → (e ≡ all_read)
      ⊎ ((why : String) × (e ≡ modbus_error why))
      ⊎ ((why : String) × (e ≡ link_dropped why))
Ended-cases all_read = inl refl
Ended-cases (modbus_error why) = inr (inl (why, refl))
Ended-cases (link_dropped why) = inr (inr (why, refl))

pub add_zero : (n : ℕ) → n + 0 ≡ n
add_zero n = omega arith
