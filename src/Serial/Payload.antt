-- ===== src/Serial/Payload.antt =====
-- The payload of an event.
use open_machine_protocol.Prelude.{
  ◌≡◌, refl, ap, String, some, [], ◌∷◌, arith, Bool-cases, inl, inr, str_eq,
}
use open_machine_protocol.Dict.{Dict, lookup}
use open_machine_protocol.Json.{Value}
use open_machine_protocol.Serial.{Groups, group_or, payload_value, payload_of}

some_eq : (v w : Value) → some v ≡ some w → v ≡ w
some_eq v w h = cc

payload_value-captured :
    (groups : Groups) (ref s : String)
    → lookup ref groups ≡ some (some s)
    → payload_value groups (Value.text ref) ≡ Value.text s
unfolding payload_value
payload_value-captured groups ref s g = rw (g, payload_value, group_or) refl

-- A payload key that names a captured group holds the captured text, and never a number made of it.
pub payload_of-captured :
    (groups : Groups) (refs : Dict Value) (key ref s : String)
    → lookup key refs ≡ some (Value.text ref)
    → lookup ref groups ≡ some (some s)
    → lookup key (payload_of groups refs) ≡ some (Value.text s)
unfolding payload_of lookup
payload_of-captured groups [] key ref s h g = absurd (ground arith)
payload_of-captured groups ((k, v) ∷ refs) key ref s h g = elim (Bool-cases (str_eq k key)) [
  | inl same ↦
      let here : v ≡ Value.text ref = some_eq v (Value.text ref) (rw (lookup, same) at h) in
      rw (same, here) (ap some (payload_value-captured groups ref s g))
  | inr other ↦ rw other (payload_of-captured groups refs key ref s (rw (lookup, other) at h) g)
]
