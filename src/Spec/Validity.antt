-- ===== src/Spec/Validity.antt =====
-- When `validate_envelope` accepts.
use open_machine_protocol.Prelude.{◌≡◌, refl, String, Bool, List, [], ◌∷◌, map, arith, eq_iff, ◌↔◌}
use open_machine_protocol.Envelope.{Envelope, Primitives, Result, ok, raised, checksum}
use open_machine_protocol.Spec.Constraints.{Allows, profile_errors_iff}
use open_machine_protocol.Spec.{
  Spec, Invalid, envelope_schema, body_schema, profile, or_else, checksum_errors, validate_envelope,
}

or_else-eq-nil : (xs ys : List Invalid) → or_else xs ys ≡ [] → (xs ≡ []) × (ys ≡ [])
or_else-eq-nil [] ys h = (refl, h)
or_else-eq-nil (x ∷ xs) ys h = absurd (ground arith)

pub map-eq-nil : {A B : Type 0} (f : A → B) (xs : List A) → map f xs ≡ [] → xs ≡ []
map-eq-nil f [] h = refl
map-eq-nil f (x ∷ xs) h = absurd (ground arith)

checksum_errors-eq-nil :
    (r : Result String) (claimed : String) → checksum_errors r claimed ≡ [] → r ≡ ok claimed
checksum_errors-eq-nil (ok digest) claimed h = ground (arith, eq_iff digest claimed)
checksum_errors-eq-nil (raised e) claimed h = absurd (ground arith)

-- An accepted envelope passes all four checks.
pub record IsConforming (p : Primitives) (spec : Spec) (e : Envelope) (fc : Bool) : Type 0 where
  pub envelope : spec.envelope_errors e ≡ []
  pub body : spec.body_errors e.schema e.body ≡ []
  pub digest : checksum p e.body ≡ ok e.checksum
  pub constraints : Allows fc spec e

-- `validate_envelope` returns no error exactly for the envelopes that pass the envelope schema and the body
-- schema, whose checksum is that of their body, and which their profile, if it is known, allows: an event
-- of the core or one of the profile with a valid payload, and a run whose phases are all of the profile with
-- valid parameters; a consumer also lets events and phases pass that the profile does not have.
pub validate_envelope_iff :
    (p : Primitives) (spec : Spec) (e : Envelope) (fc : Bool)
    → (validate_envelope p spec e fc ≡ []) ↔ IsConforming p spec e fc
unfolding validate_envelope
validate_envelope_iff p spec e fc = (accepted, conforming)
  where
    accepted : validate_envelope p spec e fc ≡ [] → IsConforming p spec e fc
    accepted h =
        let a = or_else-eq-nil _ _ h in
        let b = or_else-eq-nil _ _ a.1 in
        let c = or_else-eq-nil _ _ b.1 in
        record {
          envelope = map-eq-nil envelope_schema _ a.0;
          body = map-eq-nil body_schema _ b.0;
          digest = checksum_errors-eq-nil (checksum p e.body) e.checksum c.0;
          constraints = (profile_errors_iff spec e fc).0 (map-eq-nil profile _ c.1);
        }

    conforming : IsConforming p spec e fc → validate_envelope p spec e fc ≡ []
    conforming k =
        rw (k.envelope, k.body, k.digest, (profile_errors_iff spec e fc).1 k.constraints)
          (ground (arith, eq_iff e.checksum e.checksum))

pub validate_envelope-checksum :
    (p : Primitives) (spec : Spec) (e : Envelope) (fc : Bool)
    → validate_envelope p spec e fc ≡ []
    → checksum p e.body ≡ ok e.checksum
validate_envelope-checksum p spec e fc h = ((validate_envelope_iff p spec e fc).0 h).digest
