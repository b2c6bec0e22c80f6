-- ===== src/Poll/Polling.antt =====
-- What holds of a run of the polling loop, and that it ends.
use open_machine_protocol.Prelude.{
  ℕ, zero, suc, ◌+◌, ◌-◌, ◌<◌, ◌≡◌, refl, subst, inl, inr, String, true, false, some, List, [], ◌∷◌,
  ◌++◌, arith, All, All-append, Bool-cases, Option-cases,
}
use open_machine_protocol.Prelude.Int.{ℤ}
use open_machine_protocol.Modbus.{Result, ok, raised}
use open_machine_protocol.Adapter.{
  Base, mark_connected, mark_data, mark_degraded, mark_disconnected, backoff,
}
use open_machine_protocol.Poll.{next_tid}
use open_machine_protocol.Poll.Requests.{IsReadRequest, request_of-IsReadRequest}
use open_machine_protocol.Poll.Loop.{
  got_value, got_answer, poll_register, poll_registers, lose_link, after_round, poll, round,
  is_last, run_loop, start,
}
use open_machine_protocol.Poll.Poller.{
  Register, Setup, Answer, answers, raises, Device, Poller, idle, Ended, all_read, modbus_error,
  link_dropped, request_of, value_of, is_stats, emit_register,
}
use open_machine_protocol.Poll.Bounds.{
  IsDelay, IsPolling, Same, Same-IsPolling, request_cases, Ended-cases, add_zero,
}

module _ (setup : Setup) (device : Device) where
  emit_register-Same :
      (reg : Register) (value : ℤ) (s : Poller) → Same s (emit_register setup device reg value s)
  unfolding emit_register
  emit_register-Same reg value s = elim (Bool-cases (is_stats reg.mode)) [
    | inl is ↦
        rw (is, emit_register)
          (record { asked = refl; delays = refl; tid = refl; backoff_s = refl })
    | inr other ↦
        rw (other, emit_register)
          (record { asked = refl; delays = refl; tid = refl; backoff_s = refl })
  ]

  got_value-IsPolling :
      (reg : Register) (r : Result ℤ) (s : Poller)
      → IsPolling setup s
      → IsPolling setup (got_value setup device reg r s).1
  unfolding got_value mark_data
  got_value-IsPolling reg (ok value) s h =
      Same-IsPolling setup _ _ (emit_register-Same reg value _) (
        Same-IsPolling setup s _
          (record { asked = refl; delays = refl; tid = refl; backoff_s = refl }) h)
  got_value-IsPolling reg (raised f) s h = h

  got_answer-IsPolling :
      (reg : Register) (func : ℕ) (a : Answer) (s : Poller)
      → IsPolling setup s
      → IsPolling setup (got_answer setup device reg func a s).1
  unfolding got_answer
  got_answer-IsPolling reg func (raises why) s h = h
  got_answer-IsPolling reg func (answers frame) s h =
      got_value-IsPolling reg (value_of setup s.tid reg func frame) s h

  poll_register-IsPolling :
      (reg : Register) (s : Poller)
      → IsPolling setup s
      → IsPolling setup (poll_register setup device reg s).1
  unfolding poll_register
  poll_register-IsPolling reg s h = elim (request_cases (request_of setup (next_tid s.tid) reg)) [
    | inl (f, e) ↦
        rw (e, poll_register)
          (record {
            reads = h.reads;
            waits = h.waits;
            transaction = omega arith;
            next_wait = h.next_wait;
          })
    | inr (func, frame, e) ↦
        rw (e, poll_register)
          (got_answer-IsPolling reg func (device.asks s.asks_made frame)
            (record s {
              tid = next_tid s.tid;
              asked = s.asked ++ frame ∷ [];
              asks_made = s.asks_made + 1;
            })
            (record {
              reads =
                  All-append (IsReadRequest setup) s.asked (frame ∷ []) h.reads
                    (request_of-IsReadRequest setup (next_tid s.tid) reg func frame e, tt);
              waits = h.waits;
              transaction = omega arith;
              next_wait = h.next_wait;
            }))
  ]

  poll_registers-IsPolling :
      (regs : List Register) (s : Poller)
      → IsPolling setup s
      → IsPolling setup (poll_registers setup device regs s).1
  unfolding poll_registers
  poll_registers-IsPolling [] s h = h
  poll_registers-IsPolling (reg ∷ regs) s h =
      let h' = poll_register-IsPolling reg s h in
      elim (Ended-cases (poll_register setup device reg s).0) [
        | inl done ↦ rw (done, poll_registers) (poll_registers-IsPolling regs _ h')
        | inr (inl (why, left)) ↦ rw (left, poll_registers) h'
        | inr (inr (why, left)) ↦ rw (left, poll_registers) h'
      ]

  lose_link-IsPolling :
      (why : String) (s : Poller)
      → IsPolling setup s
      → IsPolling setup (lose_link setup device why s)
  unfolding lose_link mark_disconnected backoff
  lose_link-IsPolling why s h = record {
    reads = h.reads;
    waits = All-append IsDelay s.delays (s.base.backoff_s ∷ []) h.waits (h.next_wait, tt);
    transaction = h.transaction;
    next_wait = omega (arith, h.next_wait.0, h.next_wait.1);
  }

  after_round-IsPolling :
      (e : Ended) (s : Poller) → IsPolling setup s → IsPolling setup (after_round setup device e s)
  unfolding after_round mark_degraded
  after_round-IsPolling all_read s h =
      Same-IsPolling setup s _
        (record { asked = refl; delays = refl; tid = refl; backoff_s = refl }) h
  after_round-IsPolling (modbus_error why) s h =
      Same-IsPolling setup s _
        (record { asked = refl; delays = refl; tid = refl; backoff_s = refl }) h
  after_round-IsPolling (link_dropped why) s h = lose_link-IsPolling why s h

  poll-IsPolling : (s : Poller) → IsPolling setup s → IsPolling setup (poll setup device s)
  unfolding poll
  poll-IsPolling s h =
      after_round-IsPolling (poll_registers setup device setup.registers s).0 _
        (poll_registers-IsPolling setup.registers s h)

  round-IsPolling : (s : Poller) → IsPolling setup s → IsPolling setup (round setup device s)
  unfolding round mark_connected
  round-IsPolling s h = elim (Bool-cases s.linked) [
    | inl linked ↦ simp linked (poll-IsPolling s h)
    | inr apart ↦ elim (Option-cases (device.connects s.attempts)) [
      | inl connected ↦ simp (apart, connected) (poll-IsPolling _ (connected_IsPolling s h))
      | inr (why, refused) ↦
          simp (apart, refused)
            (lose_link-IsPolling why (record s { attempts = s.attempts + 1 })
              (Same-IsPolling setup s (record s { attempts = s.attempts + 1 })
                (record { asked = refl; delays = refl; tid = refl; backoff_s = refl }) h))
    ]
  ]
    where
      connected_IsPolling :
          (s' : Poller)
          → IsPolling setup s'
          → IsPolling setup (record s' {
            base = mark_connected (device.now s'.asks_made) s'.base;
            linked = true;
            attempts = s'.attempts + 1;
          })
      connected_IsPolling s' k = record {
        reads = k.reads;
        waits = k.waits;
        transaction = k.transaction;
        next_wait = (omega arith, omega arith);
      }

  stops_now : {i : ℕ} → device.stops (i + 0) ≡ true → device.stops i ≡ false → ⊥
  stops_now {i} e f = absurd (ground (arith, subst (λ j. device.stops j ≡ true) (add_zero i) e))

  -- From a state in range the loop ends, with the state in range, before the stop is over.
  run_loop-IsPolling :
      (fuel i n : ℕ) (s : Poller)
      → device.stops (i + n) ≡ true
      → n < fuel
      → IsPolling setup s
      → (t : Poller) × (run_loop setup device fuel i s ≡ some t) × IsPolling setup t
  unfolding run_loop
  run_loop-IsPolling zero i n s stop enough h = absurd (omega arith)
  run_loop-IsPolling (suc fuel) i n s stop enough h = elim (Bool-cases (device.stops i)) [
    | inl now ↦ rw (now, run_loop) (s, refl, h)
    | inr later ↦ elim (Bool-cases (is_last setup device (round setup device s))) [
      | inl last ↦ rw (later, run_loop, last) (round setup device s, refl, round-IsPolling s h)
      | inr more ↦
          rw (later, run_loop, more)
            (run_loop-IsPolling fuel (i + 1) (n - 1) (round setup device s)
              (later_stop n stop later) (still_enough n stop later enough) (round-IsPolling s h))
    ]
  ]
    where
      later_stop :
          (k : ℕ)
          → device.stops (i + k) ≡ true
          → device.stops i ≡ false
          → device.stops (i + 1 + (k - 1)) ≡ true
      later_stop zero e f = absurd (stops_now e f)
      later_stop (suc k) e f = subst (λ j. device.stops j ≡ true) (omega arith) e

      still_enough :
          (k : ℕ)
          → device.stops (i + k) ≡ true
          → device.stops i ≡ false
          → k < suc fuel
          → k - 1 < fuel
      still_enough zero e f lt = absurd (stops_now e f)
      still_enough (suc k) e f lt = omega arith

-- A run of the polling loop ends, if the stop event is found set at some round: more fuel than rounds
-- before it is enough, whatever connecting, the device and the registers give. Every request that it has
-- sent is, in bytes, a read of one or two registers by function 3 or 4, and every wait after a lost link
-- is between one second and five minutes.
pub start-IsPolling :
    (setup : Setup) (device : Device) (fuel n : ℕ) (end_ts : String) (b : Base)
    → device.stops n ≡ true
    → n < fuel
    → IsDelay b.backoff_s
    → (t : Poller) × (start setup device fuel end_ts b ≡ some t)
      × All (IsReadRequest setup) t.asked
      × All IsDelay t.delays
unfolding start
start-IsPolling setup device fuel n end_ts b stop enough h =
    let (t, e, p) =
      run_loop-IsPolling setup device fuel 0 n (idle b)
        (subst (λ j. device.stops j ≡ true) (omega arith) stop) enough
        (record { reads = tt; waits = tt; transaction = omega arith; next_wait = h }) in
    rw (e, start) (_, refl, p.reads, p.waits)
