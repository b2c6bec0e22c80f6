-- ===== src/Engine.antt =====
-- `Engine.process` of gateway/omp/core/engine.py, and the signature input of gateway/omp/core/keys.py.
pub mod Totality
pub mod Tests
use open_machine_protocol.Prelude.{
  ℕ, String, ◌≡◌, Bool, false, Option, none, some, List, [], ◌∷◌, ◌++◌, str_eq, is_empty,
  if◌then◌else◌,
}
use open_machine_protocol.Json.{Fields}
use open_machine_protocol.Json.Dumps.{codes, decimal}
use open_machine_protocol.Envelope.{
  Envelope, Primitives, Result, ok, raised, ValueError, make_envelope,
}
use open_machine_protocol.Spec.{Spec, Invalid, validate_envelope}
use open_machine_protocol.Store.{Store, DeadReason, next_seq, append, dead_letter}

-- `Body` of gateway/omp/adapter.py
pub record Body : Type 0 where
  pub schema : String
  pub profile : String
  pub body : Fields
  pub event_ts : Option String

-- f"{gateway_id}\n{machine_id}\n{seq}\n{checksum}", as code points
unfoldable pub sig_input : String → String → ℕ → String → List ℕ
unfolding decimal
sig_input gateway_id machine_id seq checksum =
    codes gateway_id ++ 10 ∷ (codes machine_id ++ 10 ∷ (decimal seq ++ 10 ∷ codes checksum))

-- A gateway key signs these code points (as UTF-8) and writes the signature in base64.
abbrev pub Signer : Type 0
Signer = List ℕ → String

pub record Engine : Type 0 where
  pub gateway_id : String
  pub spec : Spec
  pub signer : Option Signer

-- `envelope["sig"] = ...`, where there is a signer
unfoldable pub sign : Option Signer → Envelope → Envelope
unfolding sig_input
sign none e = e
sign (some key) e = record e {
  sig = some (key (sig_input e.gateway_id e.machine_id e.seq e.checksum));
}

-- `body.event_ts or now_iso()`
abbrev pub ts_or_now : Option String → String → String
ts_or_now none now = now
ts_or_now (some ts) now = if str_eq ts "" then now else ts

-- What a call of `process` does: it returns an envelope or None, or SQLite raises IntegrityError.
pub data Outcome : Type 0 where
  buffered : Envelope → Outcome
  dead_lettered : DeadReason → Outcome
  integrity_error : Outcome

module _ (p : Primitives) (engine : Engine) where
  -- validation, and the buffer or the dead letters
  unfoldable pub admit : String → Body → String → ℕ → Envelope → Store → Outcome × Store
  admit machine_id body ts stored_at envelope s =
      let errors = validate_envelope p engine.spec envelope false in
      if is_empty errors
      then elim (append envelope stored_at s) [
        | none ↦ (integrity_error, s)
        | some s' ↦ (buffered envelope, s')
      ]
      else (
        dead_lettered (DeadReason.invalid errors),
        dead_letter machine_id ts body.body (DeadReason.invalid errors) s,
      )

  -- `now` is the clock as a text, `stored_at` the same clock for the buffer.
  unfoldable pub process : String → Body → String → ℕ → Store → Outcome × Store
  unfolding admit
  process machine_id body now stored_at s =
      let ts = ts_or_now body.event_ts now in
      let (seq, s') = next_seq machine_id s in
      elim (make_envelope p body.schema body.body body.profile engine.gateway_id machine_id seq
        ts) [
          | ok envelope ↦ admit machine_id body ts stored_at (sign engine.signer envelope) s'
          | raised e ↦ (
            dead_lettered (DeadReason.value_error e),
            dead_letter machine_id ts body.body (DeadReason.value_error e) s',
          )
        ]
