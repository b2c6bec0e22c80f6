-- ===== src/Serial/Flushed.antt =====
-- A replay tells its samples by the windows that it closes.
use mathlib.Core.List.{append-nil}
use open_machine_protocol.Prelude.{
  ◌≡◌, refl, sym, subst, ap, ◌∙◌, String, Option, none, some, List, [], ◌∷◌, ◌++◌, str_eq, eq_iff,
  Bool-cases, inl, inr,
}
use open_machine_protocol.Prelude.Int.{ℤ}
use open_machine_protocol.Dict.{Dict, lookup}
use open_machine_protocol.Adapter.{Base, mark_connected}
use open_machine_protocol.Serial.{Acc, Block, close, flush}
use open_machine_protocol.Serial.Window.{Samples, Window}
use open_machine_protocol.Serial.Loop.{
  Running, Handled, returned, escaped, Tick, Setup, run_lines, blocks_sent, flush_all, replay,
}
use open_machine_protocol.Dict.{Distinct}
use open_machine_protocol.Serial.Tally.{
  blocks_of, blocks_of-append, samples_in, Summaries, none_sent, Summaries-snoc, joined,
  joined-snoc, Tally,
}
use open_machine_protocol.Serial.Lines.{HandlesAll, handle_lines-Tally}

abbrev pub flushed : String → String → Option Acc → List Block
flushed c ts none = []
flushed c ts (some a) = close c ts a ∷ []

flush-eq :
    (c ts : String) (acc : Dict Acc)
    → Distinct acc
    → blocks_of c (blocks_sent (flush ts acc)) ≡ flushed c ts (lookup c acc)
unfolding flush blocks_sent blocks_of lookup close
flush-eq c ts [] d = refl
flush-eq c ts ((k, a) ∷ acc) d = elim (Bool-cases (str_eq k c)) [
  | inl same ↦
      let e : k ≡ c = (eq_iff k c).0 same in
      let gone : lookup c acc ≡ none = subst (λ j. lookup j acc ≡ none) e d.0 in
      rw same (
        ap (λ bs. close k ts a ∷ bs) (flush-eq c ts acc d.1 ∙ ap (flushed c ts) gone)
        ∙ ap (λ j. close j ts a ∷ []) e)
  | inr other ↦ rw other (flush-eq c ts acc d.1)
]

-- Of each channel the blocks sent summarise, one after the other, the parts of a split of its samples.
abbrev pub Told : Samples → Running → Type 0
Told seen r =
    (c : String)
    → (parts : List (List ℤ)) × (joined parts ≡ seen c) × Summaries c (blocks_of c r.sent) parts

module _ (seen : Samples) (r : Running) (t : Tally seen r) (ts : String) (c : String) where
  open t use {opens, parts, windows, whole, told, distinct}

  flush_sent :
      blocks_of c (flush_all ts r).sent ≡ blocks_of c r.sent ++ flushed c ts (lookup c r.acc)
  unfolding flush_all
  flush_sent =
      blocks_of-append c r.sent (blocks_sent (flush ts r.acc))
      ∙ ap (λ bs. blocks_of c r.sent ++ bs) (flush-eq c ts r.acc distinct)

  flushed-Told :
      (o : Option Acc) (xs : List ℤ)
      → joined (parts c) ++ xs ≡ seen c
      → Window o xs
      → (split : List (List ℤ)) × (joined split ≡ seen c)
        × Summaries c (blocks_of c r.sent ++ flushed c ts o) split
  flushed-Told none xs e w = (
    parts c,
    sym (append-nil _) ∙ subst (λ ys. joined (parts c) ++ ys ≡ seen c) w e,
    subst (λ bs. Summaries c bs (parts c)) (sym (append-nil _)) (told c),
  )
  flushed-Told (some a) [] e w = absurd w
  flushed-Told (some a) (x ∷ xs) e w = (
    parts c ++ (x ∷ xs) ∷ [],
    joined-snoc (parts c) (x ∷ xs) ∙ e,
    Summaries-snoc a ts (x ∷ xs) (told c) w,
  )

flush_all-Told :
    (seen : Samples) (r : Running) (ts : String) → Tally seen r → Told seen (flush_all ts r)
flush_all-Told seen r ts t c =
    let (split, e, s) =
      flushed-Told seen r t ts c (lookup c r.acc) (t.opens c) (t.whole c) (t.windows c) in
    (split, e, subst (λ bs. Summaries c bs split) (sym (flush_sent seen r t ts c)) s)

flushed_or-Told :
    (setup : Setup) (lines : List (String × Tick)) (seen : Samples) (ts : String) (h : Handled)
    → HandlesAll setup lines (Tally seen) h
    → HandlesAll setup lines
        (Told seen)
        (elim h [ returned r ↦ returned (flush_all ts r) | escaped e r ↦ escaped e r ])
flushed_or-Told setup lines seen ts (returned r) t = flush_all-Told seen r ts t
flushed_or-Told setup lines seen ts (escaped e r) x = x

pub replay-Told_closed :
    (setup : Setup) (now end_ts : String) (lines : List (String × Tick)) (b : Base)
    → HandlesAll setup lines
        (Told (λ c. samples_in setup c lines))
        (replay setup now end_ts lines b)
unfolding replay run_lines joined blocks_of
replay-Told_closed setup now end_ts lines b =
    flushed_or-Told setup lines _ end_ts _
      (handle_lines-Tally setup lines (λ c. []) _ (fresh (mark_connected now b)))
  where
    fresh : (b' : Base) → Tally (λ c. []) (record { base = b'; acc = []; sent = [] })
    fresh b' = record {
      opens = λ c. [];
      parts = λ c. [];
      windows = λ c. refl;
      whole = λ c. refl;
      told = λ c. none_sent;
      distinct = tt;
    }
