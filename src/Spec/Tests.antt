-- ===== src/Spec/Tests.antt =====
-- An envelope with the right checksum and an event type that its profile does not know.
use open_machine_protocol.Prelude.{◌≡◌, ◌↔◌, refl, true, false, none, [], ◌∷◌}
use open_machine_protocol.Json.{Value, Items, Fields, get}
use open_machine_protocol.Fixture.{primitives, printing, specification, envelope_of, plate_body}
use open_machine_protocol.Spec.{
  unknown_phase, before_slash, phase_error, phases_errors, validate_envelope,
}
use open_machine_protocol.Spec.Validity.{IsConforming, validate_envelope_iff}

validate_envelope_iff_example :
    (validate_envelope primitives specification (envelope_of plate_body "d1") true ≡ [])
    ↔ IsConforming primitives specification (envelope_of plate_body "d1") true
validate_envelope_iff_example =
    validate_envelope_iff primitives specification (envelope_of plate_body "d1") true

name_of_profile : before_slash "printing/0.1" ≡ "printing"
unfolding before_slash
name_of_profile = refl

-- Two phases without a name, each reported with its place.
abbrev nameless : Items
nameless = Items.cons (Value.dict Fields.end) (Items.cons (Value.dict Fields.end) Items.nil)

nameless_reported :
    phases_errors false "printing" printing 0 nameless
    ≡ unknown_phase 0 none "printing" ∷ unknown_phase 1 none "printing" ∷ []
unfolding phases_errors phase_error get
nameless_reported = refl
