-- ===== src/Fixture.antt =====
-- Small concrete data that the tests share: a specification with one profile, a gateway and a body.
use open_machine_protocol.Prelude.{String, [], ◌∷◌, none}
use open_machine_protocol.Json.{Value, Fields}
use open_machine_protocol.Envelope.{Primitives, Envelope}
use open_machine_protocol.Spec.{Spec, Profile}
use open_machine_protocol.Engine.{Engine, Body}

-- Stand-ins for `repr` of a float and for SHA-256.
abbrev pub primitives : Primitives
primitives = record { float_repr = λ _. 48 ∷ []; sha256_hex = λ _. "d1" }

abbrev pub printing : Profile
printing = record { events = ("plate_change", λ _. []) ∷ []; phases = ("washup", λ _. []) ∷ [] }

abbrev pub specification : Spec
specification = record {
  envelope_errors = λ _. [];
  body_errors = λ _ _. [];
  profiles = ("printing", printing) ∷ [];
}

abbrev pub gateway : Engine
gateway = record { gateway_id = "gw"; spec = specification; signer = none }

abbrev pub alarm_body : Fields
alarm_body = Fields.field "event_type" (Value.text "alarm") Fields.end

abbrev pub plate_body : Fields
plate_body = Fields.field "event_type" (Value.text "plate_change") Fields.end

abbrev pub alarm : Body
alarm = record { schema = "event"; profile = "printing/0.1.0"; body = alarm_body; event_ts = none }

abbrev pub envelope_of : Fields → String → Envelope
envelope_of body checksum = record {
  omp_version = "0.1.0";
  profile = "printing/0.1.0";
  gateway_id = "gw";
  machine_id = "press";
  seq = 1;
  ts = "now";
  schema = "event";
  body = body;
  checksum = checksum;
  sig = none;
}
