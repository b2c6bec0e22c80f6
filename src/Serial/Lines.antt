-- ===== src/Serial/Lines.antt =====
-- The lines of a replay keep the tally of the samples.
use mathlib.Core.List.{append-nil, append_assoc}
use open_machine_protocol.Prelude.{
  ◌≡◌, ◌≢◌, refl, sym, subst, ◌∙◌, String, false, List, [], ◌∷◌, ◌++◌, arith, Bool-cases, inl, inr,
  ◌⊎◌,
}
use open_machine_protocol.Prelude.Int.{ℤ}
use open_machine_protocol.Dict.{Dict}
use open_machine_protocol.Json.{Value}
use open_machine_protocol.Adapter.{Base}
use open_machine_protocol.Serial.{
  Emission, reading, event_body, Parsed, emits, nothing, fails, parse_line,
}
use open_machine_protocol.Serial.Window.{Samples}
use open_machine_protocol.Serial.Loop.{
  event, Running, Escape, exception, other_sample, Handled, returned, escaped, Tick, Setup,
  handle_emission, handle_parsed, handle, handle_lines, is_value_error,
}
use open_machine_protocol.Serial.Tally.{
  blocks_of, blocks_of-append, samples_of, samples_in, Summaries, Tally, take_sample-Tally,
}

-- The same samples, told another way.
Tally-eq :
    (seen seen' : Samples) (r : Running)
    → ((c : String) → seen c ≡ seen' c)
    → Tally seen r
    → Tally seen' r
Tally-eq seen seen' r e t = record {
  opens = t.opens;
  parts = t.parts;
  windows = t.windows;
  whole = λ c. t.whole c ∙ e c;
  told = t.told;
  distinct = t.distinct;
}

-- What is parsed makes `handle` escape: an exception that is no ValueError, or a sample that is no integer.
abbrev pub Raises : Parsed → Escape → Type 0
Raises (fails p) (exception q) = (p ≡ q) × (is_value_error p ≡ false)
Raises (emits (reading channel unit v)) (other_sample w) = (v ≡ w) × ((n : ℤ) → v ≢ Value.int n)
Raises _ _ = ⊥

abbrev Handles : Parsed → (Running → Type 0) → Handled → Type 0
Handles parsed P (returned r) = P r
Handles parsed P (escaped e r) = Raises parsed e

event-Tally :
    (seen : Samples) (r : Running) (event_type : String) (payload : Dict Value)
    → Tally seen r
    → Tally seen (record r { sent = r.sent ++ event event_type payload ∷ [] })
unfolding blocks_of
event-Tally seen r event_type payload t = record {
  opens = t.opens;
  parts = t.parts;
  windows = t.windows;
  whole = t.whole;
  told = λ c.
      subst (λ bs. Summaries c bs (t.parts c))
        (sym (blocks_of-append c r.sent (event event_type payload ∷ []) ∙ append-nil _)) (t.told c);
  distinct = t.distinct;
}

base-Tally :
    (seen : Samples) (r : Running) (b : Base) → Tally seen r → Tally seen (record r { base = b })
base-Tally seen r b t = record {
  opens = t.opens;
  parts = t.parts;
  windows = t.windows;
  whole = t.whole;
  told = t.told;
  distinct = t.distinct;
}

-- The samples so far with those of one more line.
abbrev pub after_line : Samples → Parsed → Samples
after_line seen parsed c = seen c ++ samples_of c parsed

module _ (setup : Setup) (seen : Samples) (tick : Tick) (r : Running) (t : Tally seen r) where
  handle_emission-Tally :
      (emission : Emission)
      → Handles
          (emits emission)
          (Tally (after_line seen (emits emission)))
          (handle_emission setup.window emission tick r)
  unfolding handle_emission
  handle_emission-Tally (event_body event_type payload) =
      Tally-eq seen _ _ (λ c. sym (append-nil (seen c))) (event-Tally seen r event_type payload t)
  handle_emission-Tally (reading channel unit (Value.int v)) =
      take_sample-Tally channel v seen r t setup.window unit tick
  handle_emission-Tally (reading channel unit Value.null) = (refl, λ n. ground arith)
  handle_emission-Tally (reading channel unit (Value.boolean b)) = (refl, λ n. ground arith)
  handle_emission-Tally (reading channel unit (Value.float f)) = (refl, λ n. ground arith)
  handle_emission-Tally (reading channel unit (Value.text s)) = (refl, λ n. ground arith)
  handle_emission-Tally (reading channel unit (Value.list vs)) = (refl, λ n. ground arith)
  handle_emission-Tally (reading channel unit (Value.dict fs)) = (refl, λ n. ground arith)

module _ (setup : Setup) (tick : Tick) (seen : Samples) (r : Running) (t : Tally seen r) where
  handle_parsed-Tally :
      (parsed : Parsed)
      → Handles parsed (Tally (after_line seen parsed)) (handle_parsed setup parsed tick r)
  unfolding handle_parsed
  handle_parsed-Tally nothing = Tally-eq seen _ r (λ c. sym (append-nil (seen c))) t
  handle_parsed-Tally (fails e) = elim (Bool-cases (is_value_error e)) [
    | inl caught ↦
        rw (caught, handle_parsed)
          (Tally-eq seen _ _ (λ c. sym (append-nil (seen c))) (base-Tally seen r _ t))
    | inr uncaught ↦ rw (uncaught, handle_parsed) (refl, uncaught)
  ]
  handle_parsed-Tally (emits emission) =
      handle_emission-Tally setup seen tick _ (base-Tally seen r _ t) emission

-- Some line makes `handle` escape.
abbrev pub SomeRaises : Setup → List (String × Tick) → Escape → Type 0
SomeRaises setup [] e = ⊥
SomeRaises setup ((line, tick) ∷ lines) e =
    Raises (parse_line setup.num setup.strip setup.patterns line) e ⊎ SomeRaises setup lines e

abbrev pub HandlesAll : Setup → List (String × Tick) → (Running → Type 0) → Handled → Type 0
HandlesAll setup lines P (returned r) = P r
HandlesAll setup lines P (escaped e r) = SomeRaises setup lines e

-- The rest of the lines, after one that was handled.
HandlesAll-cons :
    (setup : Setup) (l : String × Tick) (lines : List (String × Tick)) (P Q : Running → Type 0)
    (h : Handled)
    → ((r : Running) → P r → Q r)
    → HandlesAll setup lines P h
    → HandlesAll setup (l ∷ lines) Q h
HandlesAll-cons setup l lines P Q (returned r) f p = f r p
HandlesAll-cons setup l lines P Q (escaped e r) f p = inr p

Handled-cases :
    (h : Handled)
    → ((r : Running) × (h ≡ returned r)) ⊎ ((e : Escape) × (r : Running) × (h ≡ escaped e r))
Handled-cases (returned r) = inl (r, refl)
Handled-cases (escaped e r) = inr (e, r, refl)

handle-Tally :
    (setup : Setup) (line : String) (tick : Tick) (seen : Samples) (r : Running)
    → Tally seen r
    → Handles
        (parse_line setup.num setup.strip setup.patterns line)
        (Tally (after_line seen (parse_line setup.num setup.strip setup.patterns line)))
        (handle setup line tick r)
unfolding handle
handle-Tally setup line tick seen r t =
    handle_parsed-Tally setup tick seen r t (parse_line setup.num setup.strip setup.patterns line)

pub handle_lines-Tally :
    (setup : Setup) (lines : List (String × Tick)) (seen : Samples) (r : Running)
    → Tally seen r
    → HandlesAll setup lines
        (Tally (λ c. seen c ++ samples_in setup c lines))
        (handle_lines setup lines r)
unfolding handle_lines samples_in
handle_lines-Tally setup [] seen r t = Tally-eq seen _ r (λ c. sym (append-nil (seen c))) t
handle_lines-Tally setup ((line, tick) ∷ lines) seen r t = elim (Bool-cases tick.stop) [
  | inl stops ↦ simp stops (Tally-eq seen _ r (λ c. sym (append-nil (seen c))) t)
  | inr goes_on ↦
      let h = handle-Tally setup line tick seen r t in
      elim (Handled-cases (handle setup line tick r)) [
        | inl (r', e) ↦
            let t' : Tally _ r' = subst (Handles _ _) e h in
            simp (goes_on, e)
              (HandlesAll-cons setup (line, tick) lines _ _ (handle_lines setup lines r')
                (λ s. Tally-eq _ _ s (λ c. append_assoc (seen c) _ _))
                (handle_lines-Tally setup lines _ r' t'))
        | inr (x, r', e) ↦ simp (goes_on, e) (inl (subst (Handles _ _) e h))
      ]
]
