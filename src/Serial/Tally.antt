-- ===== src/Serial/Tally.antt =====
-- The samples so far, the blocks that were sent and the open windows of the serial adapter.
use mathlib.Core.List.{append-nil, append_assoc}
use text.Mathlib.TextPositions.{eq_refl}
use open_machine_protocol.Prelude.{
  ℕ, ◌≡◌, refl, sym, subst, ap, ◌∙◌, String, false, Option, none, some, List, [], ◌∷◌, ◌++◌, arith,
  str_eq, eq_iff, Bool-cases, inl, inr, if◌then◌else◌,
}
use open_machine_protocol.Prelude.Int.{ℤ}
use open_machine_protocol.Dict.{Dict, lookup}
use open_machine_protocol.Json.{Value}
use open_machine_protocol.Serial.{reading, Parsed, emits, parse_line, Acc, Block, close, add}
use open_machine_protocol.Serial.Window.{Summarises, Samples, Window, put, Follows, add-Follows}
use open_machine_protocol.Serial.Loop.{
  Message, telemetry, event, Running, Tick, Setup, take_sample, with_block,
}
use open_machine_protocol.Serial.Distinct.{add-Distinct}
use open_machine_protocol.Dict.{Distinct}

-- The blocks of a channel, in the order in which they were sent.
unfoldable pub blocks_of : String → List Message → List Block
blocks_of c [] = []
blocks_of c (telemetry b ∷ sent) =
    let rest = blocks_of c sent in if str_eq b.channel c then b ∷ rest else rest
blocks_of c (event event_type payload ∷ sent) = blocks_of c sent

pub blocks_of-append :
    (c : String) (xs ys : List Message) → blocks_of c (xs ++ ys) ≡ blocks_of c xs ++ blocks_of c ys
unfolding blocks_of
blocks_of-append c [] ys = refl
blocks_of-append c (telemetry b ∷ xs) ys = ground (arith, blocks_of-append c xs ys)
blocks_of-append c (event event_type payload ∷ xs) ys = blocks_of-append c xs ys

blocks_of-snoc :
    (c : String) (sent : List Message) (a : Acc) (ts : String)
    → blocks_of c (sent ++ telemetry (close c ts a) ∷ []) ≡ blocks_of c sent ++ close c ts a ∷ []
unfolding blocks_of close
blocks_of-snoc c sent a ts =
    blocks_of-append c sent (telemetry (close c ts a) ∷ []) ∙ rw (eq_refl c) refl

blocks_of-snoc_other :
    (channel c : String) (sent : List Message) (a : Acc) (ts : String)
    → str_eq channel c ≡ false
    → blocks_of c (sent ++ telemetry (close channel ts a) ∷ []) ≡ blocks_of c sent
unfolding blocks_of close
blocks_of-snoc_other channel c sent a ts other =
    blocks_of-append c sent (telemetry (close channel ts a) ∷ []) ∙ rw other (append-nil _)

-- The samples of a channel that a parsed line gives, and those of the lines before the stop.
abbrev pub samples_of : String → Parsed → List ℤ
samples_of c (emits (reading channel unit (Value.int v))) = if str_eq channel c then v ∷ [] else []
samples_of c _ = []

unfoldable pub samples_in : Setup → String → List (String × Tick) → List ℤ
samples_in setup c [] = []
samples_in setup c ((line, tick) ∷ lines) =
    let rest = samples_in setup c lines in
    if tick.stop
    then []
    else samples_of c (parse_line setup.num setup.strip setup.patterns line) ++ rest

-- Block by block, each is the summary of one part.
pub data Summaries (c : String) : List Block → List (List ℤ) → Type 0 where
  none_sent : Summaries c [] []
  one_more :
      {bs : List Block} {parts : List (List ℤ)} (a : Acc) (ts : String) (xs : List ℤ)
      → Summarises a xs
      → Summaries c bs parts
      → Summaries c (close c ts a ∷ bs) (xs ∷ parts)

pub Summaries-snoc :
    {c : String} {bs : List Block} {parts : List (List ℤ)} (a : Acc) (ts : String) (xs : List ℤ)
    → Summaries c bs parts
    → Summarises a xs
    → Summaries c (bs ++ close c ts a ∷ []) (parts ++ xs ∷ [])
Summaries-snoc a ts xs none_sent s = one_more a ts xs s none_sent
Summaries-snoc a ts xs (one_more a' ts' xs' s' rest) s =
    one_more a' ts' xs' s' (Summaries-snoc a ts xs rest s)

unfoldable pub joined : List (List ℤ) → List ℤ
joined [] = []
joined (xs ∷ parts) = xs ++ joined parts

pub joined-snoc :
    (parts : List (List ℤ)) (xs : List ℤ) → joined (parts ++ xs ∷ []) ≡ joined parts ++ xs
unfolding joined
joined-snoc [] xs = append-nil xs
joined-snoc (ys ∷ parts) xs = ap (λ l. ys ++ l) (joined-snoc parts xs) ∙ sym (append_assoc ys _ xs)

-- After the samples `seen`: the parts that were closed and those of the open windows make them up.
pub record Tally (seen : Samples) (r : Running) : Type 0 where
  pub opens : Samples
  pub parts : String → List (List ℤ)
  pub windows : (c : String) → Window (lookup c r.acc) (opens c)
  pub whole : (c : String) → joined (parts c) ++ opens c ≡ seen c
  pub told : (c : String) → Summaries c (blocks_of c r.sent) (parts c)
  pub distinct : Distinct r.acc

-- One more sample of a channel.
abbrev pub with_sample : Samples → String → ℤ → Samples
with_sample seen channel v c = seen c ++ (if str_eq channel c then v ∷ [] else [])

joins_on : (xs ys zs : List ℤ) (v : ℤ) → xs ++ ys ≡ zs → xs ++ (ys ++ v ∷ []) ≡ zs ++ v ∷ []
joins_on xs ys zs v e = sym (append_assoc xs ys (v ∷ [])) ∙ ap (λ l. l ++ v ∷ []) e

module _ (channel : String) (v : ℤ) (seen : Samples) (r : Running) (t : Tally seen r) where
  open t use {opens, parts, windows, whole, told, distinct}

  abbrev closed_parts : String → List (List ℤ)
  closed_parts c =
      if str_eq channel c then parts channel ++ (opens channel ++ v ∷ []) ∷ [] else parts c

  whole-kept :
      (c : String)
      → joined (parts c) ++ put opens channel (opens channel ++ v ∷ []) c
        ≡ with_sample seen channel v c
  whole-kept c = elim (Bool-cases (str_eq channel c)) [
    | inl same ↦
        let e : channel ≡ c = (eq_iff channel c).0 same in
        rw same (
          subst (λ d. joined (parts c) ++ (opens d ++ v ∷ []) ≡ seen c ++ v ∷ []) (sym e)
            (joins_on (joined (parts c)) (opens c) (seen c) v (whole c)))
    | inr other ↦ rw (other, append-nil) (whole c)
  ]

  whole-closed :
      (c : String)
      → joined (closed_parts c) ++ put opens channel [] c ≡ with_sample seen channel v c
  whole-closed c = elim (Bool-cases (str_eq channel c)) [
    | inl same ↦
        let e : channel ≡ c = (eq_iff channel c).0 same in
        rw same (
          append-nil _
          ∙ joined-snoc (parts channel) (opens channel ++ v ∷ [])
          ∙ subst (λ d. joined (parts d) ++ (opens d ++ v ∷ []) ≡ seen c ++ v ∷ []) (sym e)
              (joins_on (joined (parts c)) (opens c) (seen c) v (whole c)))
    | inr other ↦ rw (other, append-nil) (whole c)
  ]

  told-closed :
      (a : Acc) (ts : String)
      → Summarises a (opens channel ++ v ∷ [])
      → (c : String)
      → Summaries c (blocks_of c (r.sent ++ telemetry (close channel ts a) ∷ [])) (closed_parts c)
  told-closed a ts s c = elim (Bool-cases (str_eq channel c)) [
    | inl same ↦
        subst
          (λ d.
            Summaries d (blocks_of d (r.sent ++ telemetry (close channel ts a) ∷ []))
              (closed_parts d))
          ((eq_iff channel c).0 same) here
    | inr other ↦ rw (blocks_of-snoc_other channel c r.sent a ts other, other) (told c)
  ]
    where
      here :
          Summaries channel
            (blocks_of channel (r.sent ++ telemetry (close channel ts a) ∷ []))
            (closed_parts channel)
      here =
          rw (blocks_of-snoc channel r.sent a ts, eq_refl channel)
            (Summaries-snoc a ts (opens channel ++ v ∷ []) (told channel) s)

  take_result :
      (o : Option Block × Dict Acc)
      → Follows opens channel v o
      → Distinct o.1
      → Tally (with_sample seen channel v) (record r { acc = o.1; sent = with_block o.0 r.sent })
  take_result (none, acc) f d = record {
    opens = put opens channel (opens channel ++ v ∷ []);
    parts = parts;
    windows = f;
    whole = whole-kept;
    told = told;
    distinct = d;
  }
  take_result (some block, acc) ((a, ts, e, s), f) d = record {
    opens = put opens channel [];
    parts = closed_parts;
    windows = f;
    whole = whole-closed;
    told = λ c.
        subst (λ b. Summaries c (blocks_of c (r.sent ++ telemetry b ∷ [])) (closed_parts c)) (sym e)
          (told-closed a ts s c);
    distinct = d;
  }

  pub take_sample-Tally :
      (window : ℕ) (unit : String) (tick : Tick)
      → Tally (with_sample seen channel v) (take_sample window channel unit v tick r)
  unfolding take_sample
  take_sample-Tally window unit tick =
      take_result (add window channel unit v tick.sample_ts tick.mono r.acc)
        (add-Follows window channel unit tick.sample_ts v tick.mono r.acc opens windows)
        (add-Distinct window channel unit tick.sample_ts v tick.mono r.acc distinct)
