-- ===== src/Engine/Totality.antt =====
-- `Engine.process`: every call ends with a buffered envelope or a dead letter, and what each leaves.
use open_machine_protocol.Prelude.{
  ℕ, ◌+◌, ◌≡◌, refl, sym, ap, subst, ◌∙◌, String, true, false, inl, inr, Option, none, some, [],
  ◌∷◌, ◌++◌, arith, str_eq, length, length-append, List-cases, any,
}
use open_machine_protocol.Json.{Fields}
use open_machine_protocol.Envelope.{
  Envelope, Primitives, Result-cases, ok, make_envelope, checksum, core_schemas,
}
use open_machine_protocol.Spec.{validate_envelope}
use open_machine_protocol.Store.{
  Store, DeadReason, next_seq, last_seq, append, appended, has_key, dead_letter, new_row,
}
use open_machine_protocol.Store.Seq.{last_seq-next_seq_self}
use open_machine_protocol.Store.Invariant.{
  IsValid, next_seq-IsValid, dead_letter-IsValid, append-IsValid, has_key-fresh,
}
use open_machine_protocol.Engine.{
  Body, Engine, Signer, Outcome, buffered, dead_lettered, integrity_error, sign, ts_or_now, admit,
  process,
}

-- What `make_envelope` puts into the envelope that it returns.
pub make_envelope-fields :
    (p : Primitives) (schema : String) (body : Fields) (profile gateway_id machine_id : String)
    (seq : ℕ) (ts : String) (e : Envelope)
    → make_envelope p schema body profile gateway_id machine_id seq ts ≡ ok e
    → (e.machine_id ≡ machine_id)
      × (e.seq ≡ seq)
      × (e.gateway_id ≡ gateway_id)
      × (e.body ≡ body)
      × (checksum p body ≡ ok e.checksum)
      × (any (λ s. str_eq schema s) core_schemas ≡ true)
unfolding make_envelope
make_envelope-fields p schema body profile gateway_id machine_id seq ts e h = ground arith

-- Signing changes `sig` alone.
sign-fields :
    (key : Option Signer) (e : Envelope)
    → ((sign key e).machine_id ≡ e.machine_id)
      × ((sign key e).seq ≡ e.seq)
      × ((sign key e).gateway_id ≡ e.gateway_id)
      × ((sign key e).body ≡ e.body)
unfolding sign
sign-fields none e = (refl, refl, refl, refl)
sign-fields (some key) e = (refl, refl, refl, refl)

module _ (p : Primitives) (engine : Engine) (machine_id : String) (t : ℕ) (s : Store) where
  -- What is common to every ending: the counter has moved on by one, and exporters see no change.
  pub record Numbered (s' : Store) : Type 0 where
    pub valid : IsValid s'
    pub seq_counters : s'.seq_counters ≡ (next_seq machine_id s).1.seq_counters
    pub exporter_cursors : s'.exporter_cursors ≡ s.exporter_cursors

  -- An envelope is valid, carries the next number of its machine, and is the one new row.
  pub record Accepted (e : Envelope) (s' : Store) : Type 0 where
    pub numbered : Numbered s'
    pub machine : e.machine_id ≡ machine_id
    pub number : e.seq ≡ last_seq s machine_id + 1
    pub gateway : e.gateway_id ≡ engine.gateway_id
    pub conforming : validate_envelope p engine.spec e false ≡ []
    pub buffer : s'.buffer ≡ s.buffer ++ new_row e t s ∷ []
    pub last_rowid : s'.last_rowid ≡ s.last_rowid + 1
    pub dead : s'.dead ≡ s.dead

  -- A dead letter is one more of them, and touches no row.
  pub record Refused (s' : Store) : Type 0 where
    pub numbered : Numbered s'
    pub buffer : s'.buffer ≡ s.buffer
    pub last_rowid : s'.last_rowid ≡ s.last_rowid
    pub dead : length s'.dead ≡ length s.dead + 1

  abbrev pub Processed : Outcome × Store → Type 0
  Processed (buffered e, s') = Accepted e s'
  Processed (dead_lettered reason, s') = Refused s'
  Processed (integrity_error, s') = ⊥

  -- The index never refuses a number just drawn.
  append_drawn :
      (e : Envelope)
      → IsValid s
      → e.machine_id ≡ machine_id
      → e.seq ≡ last_seq s machine_id + 1
      → append e t (next_seq machine_id s).1 ≡ some (appended e t (next_seq machine_id s).1)
  unfolding append next_seq
  append_drawn e v hm hs = rw (
      subst (λ m. has_key m e.seq s.buffer ≡ false) (sym hm)
        (has_key-fresh s machine_id e.seq s.buffer v.within_seq (omega arith)))

  refused :
      (body : Body) (ts : String) (reason : DeadReason)
      → IsValid s
      → Refused (dead_letter machine_id ts body.body reason (next_seq machine_id s).1)
  unfolding dead_letter next_seq
  refused body ts reason v = record {
    numbered = record {
      valid =
          dead_letter-IsValid machine_id ts body.body reason _ (next_seq-IsValid machine_id s v);
      seq_counters = refl;
      exporter_cursors = refl;
    };
    buffer = refl;
    last_rowid = refl;
    dead = length-append s.dead _;
  }

  -- The validation and the append, for an envelope that carries the number just drawn.
  admit-Processed :
      (body : Body) (ts : String) (e : Envelope)
      → IsValid s
      → e.machine_id ≡ machine_id
      → e.seq ≡ last_seq s machine_id + 1
      → e.gateway_id ≡ engine.gateway_id
      → Processed (admit p engine machine_id body ts t e (next_seq machine_id s).1)
  unfolding admit next_seq appended dead_letter
  admit-Processed body ts e v hm hs hg =
      elim (List-cases (validate_envelope p engine.spec e false)) [
        | inl valid ↦
            let s₁ = (next_seq machine_id s).1 in
            let v₁ = next_seq-IsValid machine_id s v in
            let kept =
              append-IsValid e t s₁ (appended e t s₁) v₁
                (omega (arith, last_seq-next_seq_self machine_id s, ap (last_seq s₁) hm))
                (append_drawn e v hm hs) in
            rw (valid, append_drawn e v hm hs, admit)
              (record {
                numbered = record { valid = kept; seq_counters = refl; exporter_cursors = refl };
                machine = hm;
                number = hs;
                gateway = hg;
                conforming = valid;
                buffer = refl;
                last_rowid = refl;
                dead = refl;
              })
        | inr (x, xs, errors) ↦ rw (errors, admit) (refused body ts _ v)
      ]

  -- A call of `process` on a well-formed store ends with an envelope or a dead letter.
  pub process-Processed :
      (body : Body) (now : String)
      → IsValid s
      → Processed (process p engine machine_id body now t s)
  unfolding process next_seq dead_letter
  process-Processed body now v =
      let ts = ts_or_now body.event_ts now in
      let made =
        make_envelope p body.schema body.body body.profile engine.gateway_id machine_id
          (last_seq s machine_id + 1) ts in
      elim (Result-cases made) [
        | inl (e, h) ↦
            let f = make_envelope-fields p _ _ _ _ _ _ _ e h in
            let g = sign-fields engine.signer e in
            rw (h, process)
              (admit-Processed body ts (sign engine.signer e) v (g.0 ∙ f.0) (g.1 ∙ f.1) (g.2 ∙ f.2))
        | inr (e, h) ↦ rw (h, process) (refused body ts _ v)
      ]
