-- ===== src/Adapter/Backoff.antt =====
-- The delays of `backoff`.
use open_machine_protocol.Prelude.{
  ℕ, zero, suc, ◌*◌, ◌^◌, ◌≤◌, ◌≡◌, ap, ◌∙◌, min, leb, Bool-cases, inl, inr, arith, List, [], ◌∷◌,
}
use open_machine_protocol.Adapter.{
  Base, Mark, connected, received, degrades, disconnects, fails, backs_off, mark_connected,
  mark_data, mark_degraded, mark_disconnected, mark_failed, backoff, apply_mark, apply_marks,
}

-- The base after `n` delays in a row, and the delay that comes next.
unfoldable after_delays : ℕ → Base → Base
unfolding backoff
after_delays zero b = b
after_delays (suc n) b = after_delays n (backoff b).1

le_mul : (b p : ℕ) → 1 ≤ p → b ≤ b * p
le_mul b zero h = absurd (omega arith)
le_mul b (suc q) h = omega arith

doubled : (b p : ℕ) → 1 ≤ p → min (min (b * 2) 300 * p) 300 ≡ min (b * (2 * p)) 300
doubled b p h = elim (Bool-cases (leb (b * 2) 300)) [
  | inl low ↦
      let e : min (b * 2) 300 ≡ b * 2 = ground arith in
      rw e (ap (λ (n : ℕ). min n 300) (omega arith))
  | inr high ↦ let e : min (b * 2) 300 ≡ 300 = ground arith in rw e (ground (arith, le_mul b p h))
]

pow_pos : (n : ℕ) → 1 ≤ 2 ^ n
pow_pos zero = omega arith
pow_pos (suc n) = omega (arith, pow_pos n)

-- From a delay of at most five minutes, the one after `n` delays in a row is that one doubled `n` times,
-- and at most five minutes.
after_delays-value :
    (n : ℕ) (b : Base)
    → b.backoff_s ≤ 300
    → (after_delays n b).backoff_s ≡ min (b.backoff_s * 2 ^ n) 300
unfolding after_delays backoff
after_delays-value zero b h = ground arith
after_delays-value (suc n) b h =
    after_delays-value n (backoff b).1 (ground arith)
    ∙ doubled b.backoff_s (2 ^ n) (pow_pos n)
    ∙ ap (λ (k : ℕ). min (b.backoff_s * k) 300) (pow_suc n)
  where
    pow_suc : (m : ℕ) → 2 * 2 ^ m ≡ 2 ^ suc m
    pow_suc m = omega arith

-- The delay is between one second and five minutes.
pub record InRange (b : Base) : Type 0 where
  pub least : 1 ≤ b.backoff_s
  pub most : b.backoff_s ≤ 300

pub apply_mark-InRange : (m : Mark) (b : Base) → InRange b → InRange (apply_mark m b)
unfolding apply_mark mark_connected mark_data mark_degraded mark_disconnected mark_failed backoff
apply_mark-InRange (connected now) b v = record { least = omega arith; most = omega arith }
apply_mark-InRange (received now) b v = record { least = v.least; most = v.most }
apply_mark-InRange (degrades why) b v = record { least = v.least; most = v.most }
apply_mark-InRange (disconnects why) b v = record { least = v.least; most = v.most }
apply_mark-InRange (fails why) b v = record { least = v.least; most = v.most }
apply_mark-InRange backs_off b v = record { least = ground (arith, v.least); most = ground arith }

pub apply_marks-InRange : (ms : List Mark) (b : Base) → InRange b → InRange (apply_marks ms b)
unfolding apply_marks
apply_marks-InRange [] b v = v
apply_marks-InRange (m ∷ ms) b v =
    apply_marks-InRange ms (apply_mark m b) (apply_mark-InRange m b v)
