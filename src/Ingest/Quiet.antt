-- ===== src/Ingest/Quiet.antt =====
-- What leaves the stored envelopes alone: notes of unknown vocabulary and quarantined lines.
use open_machine_protocol.Prelude.{
  ◌≡◌, ◌≢◌, refl, ◌∙◌, String, Bool, Option, none, some, List, [], ◌∷◌, ◌++◌, inl, inr, ◌⊎◌,
  Option-cases, Bool-cases, str_eq, if◌then◌else◌,
}
use open_machine_protocol.Dict.{lookup}
use open_machine_protocol.Json.{get}
use open_machine_protocol.Envelope.{Envelope}
use open_machine_protocol.Spec.{Spec, Profile, before_slash, as_text}
use open_machine_protocol.Ingest.{
  Consumer, RawRow, Fault, raw_row, same_key, quarantine_line, find_row, is_new_type, note_type,
  note_unknown_vocabulary,
}

pub find_row-append :
    (e : Envelope) (rows : List RawRow) (r : RawRow)
    → find_row e (rows ++ r ∷ [])
      ≡ elim (find_row e rows) [ none ↦ if same_key e r then some r else none | some x ↦ some x ]
unfolding find_row
find_row-append e [] r = refl
find_row-append e (x ∷ rows) r = elim (Bool-cases (same_key e x)) [
  | inl same ↦ rw same
  | inr other ↦ rw other (find_row-append e rows r)
]

pub some_eq : (c c' : Consumer) → some c ≡ some c' → c ≡ c'
some_eq c c' h = cc

-- The raw envelopes and what is projected from them are as they were.
pub record Same (c c' : Consumer) : Type 0 where
  pub raw_envelopes : c'.raw_envelopes ≡ c.raw_envelopes
  pub machines : c'.machines ≡ c.machines
  pub runs : c'.runs ≡ c.runs

pub Same-refl : (c : Consumer) → Same c c
Same-refl c = record { raw_envelopes = refl; machines = refl; runs = refl }

pub Same-trans : (a b c : Consumer) → Same a b → Same b c → Same a c
Same-trans a b c h k = record {
  raw_envelopes = k.raw_envelopes ∙ h.raw_envelopes;
  machines = k.machines ∙ h.machines;
  runs = k.runs ∙ h.runs;
}

note_type-Same :
    (name : String) (et : Option String) (prof : Profile) (c : Consumer)
    → Same c (note_type name et prof c)
unfolding note_type
note_type-Same name et prof c = elim (Bool-cases (is_new_type et prof)) [
  | inl new ↦ rw (new, note_type) (record { raw_envelopes = refl; machines = refl; runs = refl })
  | inr known ↦ rw (known, note_type) (Same-refl c)
]

pub note-Same :
    (spec : Spec) (e : Envelope) (c : Consumer) → Same c (note_unknown_vocabulary spec e c)
unfolding note_unknown_vocabulary
note-Same spec e c = elim (Bool-cases (str_eq e.schema "event")) [
  | inr other ↦ rw (other, note_unknown_vocabulary) (Same-refl c)
  | inl event ↦
      rw (event, note_unknown_vocabulary)
        (elim (Option-cases (lookup (before_slash e.profile) spec.profiles)) [
          | inl unknown ↦ rw unknown (Same-refl c)
          | inr (prof, found) ↦
              rw found
                (note_type-Same (before_slash e.profile) (as_text (get "event_type" e.body)) prof c)
        ])
]

pub quarantine-Same : (raw : String) (f : Fault) (c : Consumer) → Same c (quarantine_line raw f c)
unfolding quarantine_line
quarantine-Same raw f c = record { raw_envelopes = refl; machines = refl; runs = refl }

-- What a step does with the envelope that it lets through: nothing, if the key is there, or a new row.
abbrev pub Did : Option Envelope → Consumer → Option Consumer → Type 0
Did e c none = Unit
Did none c (some c') = Same c c'
Did (some e) c (some c') =
    ((find_row e c.raw_envelopes ≢ none) × Same c c')
    ⊎ ((find_row e c.raw_envelopes ≡ none)
        × (b : Bool) × (c'.raw_envelopes ≡ c.raw_envelopes ++ raw_row e b ∷ []))
