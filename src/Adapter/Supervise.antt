-- ===== src/Adapter/Supervise.antt =====
-- `_supervise` of gateway/omp/cli.py always ends, whatever the adapter does.
use open_machine_protocol.Prelude.{
  ℕ, zero, suc, ◌+◌, ◌≤◌, ◌<◌, ◌≡◌, refl, max, ltb, arith, String, Bool, ◌∷◌, length, All,
  Bool-cases, Option-cases, inl, inr,
}
use open_machine_protocol.Adapter.{
  Base, State, Attempt, Ended, returned, gave_up, stopped, out_of_fuel, Supervised, supervise,
  apply_marks, mark_disconnected, mark_failed, backoff,
}
use open_machine_protocol.Adapter.Backoff.{InRange, apply_marks-InRange}

-- The number of crashes that ends the supervision.
abbrev pub limit : ℕ → ℕ
limit max_crashes = max max_crashes 1

abbrev IsDelay : ℕ → Type 0
IsDelay d = (1 ≤ d) × (d ≤ 300)

-- What each ending says of the calls of `start` and of the state, from `crashes` crashes on.
abbrev pub EndsWith : ℕ → ℕ → Supervised → Ended → Type 0
EndsWith max_crashes crashes r returned =
    (r.starts ≡ length r.delays + 1) × (crashes + r.starts ≤ limit max_crashes)
EndsWith max_crashes crashes r gave_up =
    (r.starts ≡ length r.delays + 1)
    × (crashes + r.starts ≡ limit max_crashes)
    × (r.base.current.state ≡ State.failed)
EndsWith max_crashes crashes r stopped =
    (r.starts ≡ length r.delays) × (crashes + r.starts < limit max_crashes)
EndsWith max_crashes crashes r out_of_fuel = ⊥

pub record Ends (max_crashes crashes : ℕ) (r : Supervised) : Type 0 where
  pub ending : EndsWith max_crashes crashes r r.ended
  pub delays : All IsDelay r.delays
  pub in_range : InRange r.base

mark_failed-InRange : (why : String) (b : Base) → InRange b → InRange (mark_failed why b)
unfolding mark_failed
mark_failed-InRange why b v = record { least = v.least; most = v.most }

backoff-InRange :
    (why : String) (b : Base)
    → InRange b
    → IsDelay (backoff (mark_disconnected why b)).0 × InRange (backoff (mark_disconnected why b)).1
unfolding mark_disconnected backoff
backoff-InRange why b v =
    ((v.least, v.most), record { least = ground (arith, v.least); most = ground arith })

mark_failed-state : (why : String) (b : Base) → (mark_failed why b).current.state ≡ State.failed
unfolding mark_failed
mark_failed-state why b = refl

-- One more crash before the rest of the supervision.
EndsWith-more :
    (max_crashes crashes delay : ℕ) (rest : Supervised) (e : Ended)
    → EndsWith max_crashes (crashes + 1) rest e
    → EndsWith max_crashes crashes
        (record rest { starts = rest.starts + 1; delays = delay ∷ rest.delays })
        e
EndsWith-more max_crashes crashes delay rest returned h = (omega (arith, h.0), omega (arith, h.1))
EndsWith-more max_crashes crashes delay rest gave_up h =
    (omega (arith, h.0), omega (arith, h.1), h.2)
EndsWith-more max_crashes crashes delay rest stopped h = (omega (arith, h.0), omega (arith, h.1))
EndsWith-more max_crashes crashes delay rest out_of_fuel h = h

module _ (stopped_after crash_text : ℕ → String → String) (max_crashes : ℕ) (attempts : ℕ → Attempt)
    (at_test at_wait : ℕ → Bool) where
  supervise_from :
      (fuel crashes : ℕ) (b : Base)
      → InRange b
      → crashes < limit max_crashes
      → limit max_crashes ≤ crashes + fuel
      → Ends max_crashes crashes
          (supervise stopped_after crash_text max_crashes attempts at_test at_wait fuel crashes b)
  unfolding supervise
  supervise_from zero crashes b v below enough = absurd (omega arith)
  supervise_from (suc fuel) crashes b v below enough =
      let ran = apply_marks (attempts crashes).marks b in
      let ran_ok : InRange ran = apply_marks-InRange (attempts crashes).marks b v in
      elim (Bool-cases (at_test crashes)) [
        | inl stop ↦
            rw (stop, supervise)
              (record { ending = (omega arith, omega arith); delays = tt; in_range = v })
        | inr go ↦ elim (Option-cases (attempts crashes).raised) [
          | inl clean ↦
              rw (go, clean, supervise)
                (record { ending = (omega arith, omega arith); delays = tt; in_range = ran_ok })
          | inr (exc, crash) ↦ elim (Bool-cases (ltb (crashes + 1) max_crashes)) [
            | inr last ↦
                rw (go, crash, last, supervise)
                  (record {
                    ending = (
                      omega arith,
                      ground arith,
                      mark_failed-state (stopped_after (crashes + 1) exc) ran,
                    );
                    delays = tt;
                    in_range = mark_failed-InRange (stopped_after (crashes + 1) exc) ran ran_ok;
                  })
            | inl again ↦
                let next = backoff-InRange (crash_text (crashes + 1) exc) ran ran_ok in
                elim (Bool-cases (at_wait (crashes + 1))) [
                  | inl stop ↦
                      rw (go, crash, again, stop, supervise)
                        (record {
                          ending = (omega arith, ground arith);
                          delays = (next.0, tt);
                          in_range = next.1;
                        })
                  | inr wait ↦
                      let after =
                        (backoff (mark_disconnected (crash_text (crashes + 1) exc) ran)) in
                      let r =
                        supervise stopped_after crash_text max_crashes attempts at_test at_wait fuel
                          (crashes + 1) after.1 in
                      let rest =
                        supervise_from fuel (crashes + 1)
                          (backoff (mark_disconnected (crash_text (crashes + 1) exc) ran)).1 next.1
                          (ground arith) (omega arith) in
                      rw (go, crash, again, wait, supervise)
                        (record {
                          ending = EndsWith-more max_crashes crashes after.0 r r.ended rest.ending;
                          delays = (next.0, rest.delays);
                          in_range = rest.in_range;
                        })
                ]
          ]
        ]
      ]

  -- The supervision of an adapter whose delay is in range ends, whatever the adapter marks and raises
  -- and whenever the stop event is set, after at most the limit of calls of `start` (one at least): if it
  -- gives up, at the limit, with the adapter marked as failed. Every delay is between one second and five
  -- minutes, and there is one after each call of `start` but one that ends the supervision.
  pub supervise-Ends :
      (b : Base)
      → InRange b
      → Ends max_crashes 0 (
          supervise stopped_after crash_text max_crashes attempts at_test at_wait
            (limit max_crashes)
            0
            b)
  supervise-Ends b v = supervise_from (limit max_crashes) 0 b v (ground arith) (omega arith)
