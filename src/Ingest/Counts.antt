-- ===== src/Ingest/Counts.antt =====
-- The counters of a consumer: what they count, and the steps that leave them alone.
use open_machine_protocol.Prelude.{
  ℕ, ◌+◌, ◌≡◌, refl, String, true, Option, none, some, [], ◌∷◌, arith, length, length-append, inl,
  inr, Bool-cases, Option-cases, str_eq, All,
}
use open_machine_protocol.Json.{get}
use open_machine_protocol.Dict.{lookup}
use open_machine_protocol.Envelope.{Envelope}
use open_machine_protocol.Spec.{Spec, Profile, before_slash, as_text}
use open_machine_protocol.Ingest.{
  Consumer, Line, blank, Fault, quarantine_line, is_new_type, note_type, note_unknown_vocabulary,
  project,
}

-- The counts agree with the tables, and every stored checksum was right.
pub record IsCounted (c : Consumer) : Type 0 where
  pub stored : c.stored ≡ length c.raw_envelopes
  pub quarantined : c.quarantined ≡ length c.quarantine
  pub alarms : c.alarms ≡ length c.integrity_alarms
  pub verified : All (λ r. r.checksums_valid ≡ true) c.raw_envelopes

abbrev pub total : Consumer → ℕ
total c = c.stored + c.duplicates + c.quarantined + c.alarms

abbrev pub counts : Line → ℕ
counts blank = 0
counts _ = 1

-- All but the projections and the unknown vocabulary is as it was.
pub record SameCounts (c c' : Consumer) : Type 0 where
  pub raw_envelopes : c'.raw_envelopes ≡ c.raw_envelopes
  pub quarantine : c'.quarantine ≡ c.quarantine
  pub integrity_alarms : c'.integrity_alarms ≡ c.integrity_alarms
  pub stored : c'.stored ≡ c.stored
  pub duplicates : c'.duplicates ≡ c.duplicates
  pub quarantined : c'.quarantined ≡ c.quarantined
  pub alarms : c'.alarms ≡ c.alarms

SameCounts-refl : (c : Consumer) → SameCounts c c
SameCounts-refl c = record {
  raw_envelopes = refl;
  quarantine = refl;
  integrity_alarms = refl;
  stored = refl;
  duplicates = refl;
  quarantined = refl;
  alarms = refl;
}

note_type-SameCounts :
    (name : String) (et : Option String) (prof : Profile) (c : Consumer)
    → SameCounts c (note_type name et prof c)
unfolding note_type
note_type-SameCounts name et prof c = elim (Bool-cases (is_new_type et prof)) [
  | inl new ↦
      rw (new, note_type)
        (record {
          raw_envelopes = refl;
          quarantine = refl;
          integrity_alarms = refl;
          stored = refl;
          duplicates = refl;
          quarantined = refl;
          alarms = refl;
        })
  | inr known ↦ rw (known, note_type) (SameCounts-refl c)
]

pub note-SameCounts :
    (spec : Spec) (e : Envelope) (c : Consumer) → SameCounts c (note_unknown_vocabulary spec e c)
unfolding note_unknown_vocabulary
note-SameCounts spec e c = elim (Bool-cases (str_eq e.schema "event")) [
  | inr other ↦ rw (other, note_unknown_vocabulary) (SameCounts-refl c)
  | inl event ↦
      rw (event, note_unknown_vocabulary)
        (elim (Option-cases (lookup (before_slash e.profile) spec.profiles)) [
          | inl unknown ↦ rw unknown (SameCounts-refl c)
          | inr (prof, found) ↦ rw found (
              note_type-SameCounts (before_slash e.profile) (as_text (get "event_type" e.body)) prof
                c)
        ])
]

pub project-SameCounts : (e : Envelope) (c : Consumer) → SameCounts c (project e c)
unfolding project
project-SameCounts e c = ground arith

pub SameCounts-IsCounted : (c c' : Consumer) → SameCounts c c' → IsCounted c → IsCounted c'
SameCounts-IsCounted c c' s k = record {
  stored = rw (s.stored, s.raw_envelopes) k.stored;
  quarantined = rw (s.quarantined, s.quarantine) k.quarantined;
  alarms = rw (s.alarms, s.integrity_alarms) k.alarms;
  verified = rw (s.raw_envelopes) k.verified;
}

SameCounts-total : (c c' : Consumer) → SameCounts c c' → total c' ≡ total c
SameCounts-total c c' s = omega (arith, s.stored, s.duplicates, s.quarantined, s.alarms)

-- What one line leads to: a consumer that is counted, with one line more.
abbrev pub Counted : Consumer → ℕ → Option Consumer → Type 0
Counted c n none = ⊥
Counted c n (some c') = IsCounted c' × (total c' ≡ total c + n)

pub Counted-shift :
    (c c' : Consumer) (o : Option Consumer) → SameCounts c c' → Counted c' 1 o → Counted c 1 o
Counted-shift c c' none s h = h
Counted-shift c c' (some d) s h = (h.0, omega (arith, h.1, SameCounts-total c c' s))

pub quarantine-Counted :
    (raw : String) (f : Fault) (c : Consumer)
    → IsCounted c
    → Counted c 1 (some (quarantine_line raw f c))
unfolding quarantine_line
quarantine-Counted raw f c k = (
  record {
    stored = k.stored;
    quarantined = omega (arith, k.quarantined, length-append c.quarantine ((raw, f) ∷ []));
    alarms = k.alarms;
    verified = k.verified;
  },
  omega arith,
)
