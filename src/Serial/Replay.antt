-- ===== src/Serial/Replay.antt =====
-- A replay loses no sample: what the blocks that it sends stand for.
use native.Mathlib.Nat.{mul_comm}
use native.Mathlib.Omega.{div_fact, mod_fact}
use open_machine_protocol.Json.{Value}
use open_machine_protocol.Prelude.{
  zero, All, false, arith, ◌⊎◌, ◌≡◌, refl, subst, ap, String, List, [], ◌∷◌, ℕ, suc, ◌*◌, ◌/◌, ◌+◌,
  ◌≤◌, ◌<◌, length, inl, inr,
}
use open_machine_protocol.Prelude.Int.{ℤ, pos, negsuc, sub_ℕ}
use open_machine_protocol.Adapter.{Base}
use open_machine_protocol.Serial.{
  Acc, Block, close, truncated, Parsed, nothing, fails, emits, reading, event_body, ParseError,
  parse_line,
}
use open_machine_protocol.Serial.Window.{IsLeast, IsGreatest, total, Summarises, Samples}
use open_machine_protocol.Serial.Loop.{
  Running, Handled, returned, escaped, exception, other_sample, is_value_error, Tick, Setup, replay,
}
use open_machine_protocol.Serial.Tally.{
  blocks_of, samples_in, Summaries, none_sent, one_more, joined,
}
use open_machine_protocol.Serial.Lines.{Raises, SomeRaises, HandlesAll}
use open_machine_protocol.Serial.Flushed.{Told, replay-Told_closed}

-- The quotient toward zero of a sum by a count.
abbrev pub IsQuotient : ℤ → ℕ → ℤ → Type 0
IsQuotient (pos m) n q = (k : ℕ) × (q ≡ pos k) × (k * n ≤ m) × (m < k * n + n)
IsQuotient (negsuc m) n q = (k : ℕ) × (q ≡ sub_ℕ 0 k) × (k * n ≤ m + 1) × (m + 1 < k * n + n)

-- A block of a channel says of some samples how many there are, the least, the greatest and their average.
pub record IsSummary (c : String) (b : Block) (xs : List ℤ) : Type 0 where
  pub channel : b.channel ≡ c
  pub least : IsLeast b.least xs
  pub greatest : IsGreatest b.greatest xs
  pub count : b.count ≡ length xs
  pub avg : IsQuotient (total xs) (length xs) b.avg

quotient : (m n : ℕ) → 0 < n → ((m / n) * n ≤ m) × (m < (m / n) * n + n)
quotient m zero h = absurd (omega arith)
quotient m (suc k) h =
    let whole = div_fact m k in
    let small = mod_fact m k in
    let swap : (m / suc k) * suc k ≡ suc k * (m / suc k) = mul_comm (m / suc k) (suc k) in
    (omega (arith, whole, swap), omega (arith, whole, small, swap))

truncated-IsQuotient : (s : ℤ) (n : ℕ) → 0 < n → IsQuotient s n (truncated s n)
truncated-IsQuotient (pos m) n h = let q = quotient m n h in (m / n, refl, q.0, q.1)
truncated-IsQuotient (negsuc m) n h =
    let q = quotient (suc m) n h in (suc m / n, refl, omega (arith, q.0), omega (arith, q.1))

close-IsSummary :
    (c ts : String) (a : Acc) (xs : List ℤ) → Summarises a xs → IsSummary c (close c ts a) xs
unfolding close
close-IsSummary c ts a [] s = absurd s.least.0
close-IsSummary c ts a (x ∷ xs) s = record {
  channel = refl;
  least = s.least;
  greatest = s.greatest;
  count = s.count;
  avg = rw (s.sum, s.count) (truncated-IsQuotient (total (x ∷ xs)) (length (x ∷ xs)) (omega arith));
}

-- Block by block, each is the summary of one part.
abbrev pub Summarise : String → List Block → List (List ℤ) → Type 0
Summarise c [] [] = Unit
Summarise c [] (xs ∷ parts) = ⊥
Summarise c (b ∷ bs) [] = ⊥
Summarise c (b ∷ bs) (xs ∷ parts) = IsSummary c b xs × Summarise c bs parts

Summaries-Summarise :
    {c : String} {bs : List Block} {parts : List (List ℤ)}
    → Summaries c bs parts
    → Summarise c bs parts
Summaries-Summarise none_sent = tt
Summaries-Summarise {c} (one_more a ts xs s rest) =
    (close-IsSummary c ts a xs s, Summaries-Summarise rest)

-- Of each channel the samples can be split into parts in order, and the blocks sent summarise them.
abbrev pub IsTold : Samples → Running → Type 0
IsTold seen r =
    (c : String)
    → (parts : List (List ℤ)) × (joined parts ≡ seen c) × Summarise c (blocks_of c r.sent) parts

-- The samples of the lines are integers.
abbrev pub IsInteger : Parsed → Type 0
IsInteger (emits (reading channel unit v)) = (n : ℤ) × (v ≡ Value.int n)
IsInteger _ = Unit

-- A line is parsed with an exception that is no ValueError.
abbrev pub SomeFails : Setup → List (String × Tick) → ParseError → Type 0
SomeFails setup [] e = ⊥
SomeFails setup ((line, tick) ∷ lines) e =
    ((parse_line setup.num setup.strip setup.patterns line ≡ fails e) × (is_value_error e ≡ false))
    ⊎ SomeFails setup lines e

abbrev pub IsReplayed : Setup → List (String × Tick) → Handled → Type 0
IsReplayed setup lines (returned r) = IsTold (λ c. samples_in setup c lines) r
IsReplayed setup lines (escaped (exception e) r) = SomeFails setup lines e
IsReplayed setup lines (escaped (other_sample v) r) = ⊥

abbrev AreIntegers : Setup → List (String × Tick) → Type 0
AreIntegers setup lines =
    All (λ l. IsInteger (parse_line setup.num setup.strip setup.patterns l.0)) lines

Raises-fails :
    (parsed : Parsed) (e : ParseError)
    → Raises parsed (exception e)
    → (parsed ≡ fails e) × (is_value_error e ≡ false)
Raises-fails nothing e h = absurd h
Raises-fails (fails p) e h = (ap fails h.0, subst (λ q. is_value_error q ≡ false) h.0 h.1)
Raises-fails (emits (reading channel unit v)) e h = absurd h
Raises-fails (emits (event_body event_type payload)) e h = absurd h

Raises-integer :
    (parsed : Parsed) (v : Value) → IsInteger parsed → Raises parsed (other_sample v) → ⊥
Raises-integer nothing v k h = h
Raises-integer (fails p) v k h = h
Raises-integer (emits (reading channel unit w)) v (n, e) h = h.1 n e
Raises-integer (emits (event_body event_type payload)) v k h = h

SomeRaises-fails :
    (setup : Setup) (lines : List (String × Tick)) (e : ParseError)
    → SomeRaises setup lines (exception e)
    → SomeFails setup lines e
SomeRaises-fails setup [] e h = h
SomeRaises-fails setup ((line, tick) ∷ lines) e (inl h) = inl (Raises-fails _ e h)
SomeRaises-fails setup ((line, tick) ∷ lines) e (inr h) = inr (SomeRaises-fails setup lines e h)

SomeRaises-integer :
    (setup : Setup) (lines : List (String × Tick)) (v : Value)
    → AreIntegers setup lines
    → SomeRaises setup lines (other_sample v)
    → ⊥
SomeRaises-integer setup [] v k h = h
SomeRaises-integer setup ((line, tick) ∷ lines) v k (inl h) = Raises-integer _ v k.0 h
SomeRaises-integer setup ((line, tick) ∷ lines) v k (inr h) = SomeRaises-integer setup lines v k.1 h

HandlesAll-IsReplayed :
    (setup : Setup) (lines : List (String × Tick)) (h : Handled)
    → AreIntegers setup lines
    → HandlesAll setup lines (Told (λ c. samples_in setup c lines)) h
    → IsReplayed setup lines h
HandlesAll-IsReplayed setup lines (returned r) k t =
    λ c. let (parts, e, s) = t c in (parts, e, Summaries-Summarise s)
HandlesAll-IsReplayed setup lines (escaped (exception e) r) k t = SomeRaises-fails setup lines e t
HandlesAll-IsReplayed setup lines (escaped (other_sample v) r) k t =
    SomeRaises-integer setup lines v k t

-- A replay whose samples are integers, if it returns, loses no sample and counts none twice: the samples of
-- each channel, from the lines before the stop event was found set, can be split into parts in order such
-- that the channel's blocks, the flushed one included, give one by one for each part its number of samples,
-- the least and the greatest of them, and their average, rounded toward zero. A replay that does not return
-- was left at a line whose parse fails with another exception than a ValueError.
pub replay-Told :
    (setup : Setup) (now end_ts : String) (lines : List (String × Tick)) (b : Base)
    → All (λ l. IsInteger (parse_line setup.num setup.strip setup.patterns l.0)) lines
    → IsReplayed setup lines (replay setup now end_ts lines b)
replay-Told setup now end_ts lines b integers =
    HandlesAll-IsReplayed setup lines _ integers (replay-Told_closed setup now end_ts lines b)
