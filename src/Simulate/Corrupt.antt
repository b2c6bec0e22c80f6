-- ===== src/Simulate/Corrupt.antt =====
-- A corrupted envelope is never valid.
use Prim.Native.Char.{Char, code}
use open_machine_protocol.Prelude.{
  ℕ, ◌≡◌, ◌≢◌, refl, ap, sym, ◌∙◌, String, true, false, Option, none, some, List, [], arith,
  Bool-cases, Option-cases, inl, inr, ◌==◌, str_eq,
}
use open_machine_protocol.Json.{Value, Fields, get}
use open_machine_protocol.Json.Dumps.{dumps}
use open_machine_protocol.Envelope.{
  Envelope, Primitives, ValueError, ok, raised, canonicalize, check_numbers,
  checksum as body_checksum,
}
use open_machine_protocol.Spec.{Spec, envelope_schema, validate_envelope}
use open_machine_protocol.Spec.Validity.{map-eq-nil, validate_envelope-checksum}
use open_machine_protocol.Simulate.Chaos.{
  Kind, type_flip, checksum, field, Corrupted, message, attribute_error, index_error, flip_first,
  zeros, flip_payload, spoil_checksum, flip_type, add_field, corrupt, validate_message,
}
use open_machine_protocol.Simulate.Flip.{dumps-flipped}

digest_of_text :
    (p : Primitives) (body : Fields) (cs : String)
    → body_checksum p body ≡ ok cs
    → p.sha256_hex (dumps p.float_repr (Value.dict body)) ≡ cs
unfolding body_checksum canonicalize
digest_of_text p body cs h = elim (Option-cases (check_numbers [] (Value.dict body))) [
  | inl fine ↦ ok_eq _ _ (rw (body_checksum, canonicalize, fine) at h)
  | inr (e, bad) ↦ absurd (raised_ok e cs (rw (body_checksum, canonicalize, bad) at h))
]
  where
    ok_eq : (a b : String) → ok a ≡ ok b → a ≡ b
    ok_eq a b q = cc

    raised_ok : (e : ValueError) (b : String) → raised e ≡ ok b → ⊥
    raised_ok e b q = cc

first_code : String → ℕ
first_code String.[] = 0
first_code (String.◌∷◌ c s) = code c

-- Texts that begin otherwise are not the same.
heads_differ :
    (c d : Char) (s t cs : String) → cs ≡ String.◌∷◌ c s → code c ≢ code d → cs ≢ String.◌∷◌ d t
unfolding first_code
heads_differ c d s t cs g ne h = ne (ap first_code (sym g ∙ h))

-- The text of an envelope's body.
abbrev pub text_of : Primitives → Envelope → List ℕ
text_of p e = dumps p.float_repr (Value.dict e.body)

-- A message is refused; where there is none, the payload is no object, or the checksum has no character.
abbrev pub IsRefused : Primitives → Spec → (Envelope → List String) → Envelope → Corrupted → Type 0
IsRefused p spec unexpected_errors e (message m) = validate_message p spec unexpected_errors m ≢ []
IsRefused p spec unexpected_errors e attribute_error =
    (v : Value) × (get "payload" e.body ≡ some v) × ((fs : Fields) → v ≢ Value.dict fs)
IsRefused p spec unexpected_errors e index_error = e.checksum ≡ String.[]

not_zero : (n : ℕ) → (n == b'f') ≡ true → n ≡ b'0' → ⊥
not_zero n h e = ground arith

not_f : (n : ℕ) → (n == b'f') ≡ false → n ≡ b'f' → ⊥
not_f n h e = ground arith

module _ (p : Primitives) (spec : Spec) (unexpected_errors : Envelope → List String) (e : Envelope)
    (valid : validate_envelope p spec e false ≡ [])
    (rejects : (x : Envelope) → unexpected_errors x ≢ [])
    (preimage : (text : List ℕ)
      → p.sha256_hex text ≡ p.sha256_hex (text_of p e)
      → text ≡ text_of p e)
    (nonzero : e.checksum ≢ zeros) where
  digest : p.sha256_hex (text_of p e) ≡ e.checksum
  digest = digest_of_text p e.body e.checksum (validate_envelope-checksum p spec e false valid)

  -- Another checksum for the same body.
  other_checksum :
      (cs : String)
      → e.checksum ≢ cs
      → validate_envelope p spec (record e { checksum = cs }) false ≢ []
  other_checksum cs ne h =
      ne (sym digest ∙ digest_of_text p e.body cs (validate_envelope-checksum p spec _ false h))

  -- Another body under the same checksum.
  other_body :
      (body : Fields)
      → dumps p.float_repr (Value.dict body) ≢ text_of p e
      → validate_envelope p spec (record e { body = body }) false ≢ []
  other_body body ne h = ne (
      preimage _ (
        digest_of_text p body e.checksum (validate_envelope-checksum p spec _ false h)
        ∙ sym digest))

  added_field : IsRefused p spec unexpected_errors e (add_field e)
  unfolding validate_message
  added_field h = rejects e (map-eq-nil envelope_schema _ h)

  flip_payload-IsRefused :
      (v : Value)
      → get "payload" e.body ≡ some v
      → IsRefused p spec unexpected_errors e (flip_payload e v)
  unfolding flip_payload validate_message
  flip_payload-IsRefused (Value.dict fs) g = elim (Option-cases (flip_first fs)) [
    | inl nowhere ↦ rw (nowhere, flip_payload) (other_checksum zeros nonzero)
    | inr (fs', flipped) ↦
        rw (flipped, flip_payload)
          (other_body _ (dumps-flipped p.float_repr e.body fs fs' g flipped))
  ]
  flip_payload-IsRefused Value.null g = (Value.null, g, λ fs. ground arith)
  flip_payload-IsRefused (Value.boolean b) g = (Value.boolean b, g, λ fs. ground arith)
  flip_payload-IsRefused (Value.int n) g = (Value.int n, g, λ fs. ground arith)
  flip_payload-IsRefused (Value.float f) g = (Value.float f, g, λ fs. ground arith)
  flip_payload-IsRefused (Value.text s) g = (Value.text s, g, λ fs. ground arith)
  flip_payload-IsRefused (Value.list vs) g = (Value.list vs, g, λ fs. ground arith)

  flip_type-IsRefused :
      (v : Option Value)
      → get "payload" e.body ≡ v
      → IsRefused p spec unexpected_errors e (flip_type e v)
  unfolding flip_type
  flip_type-IsRefused none g = added_field
  flip_type-IsRefused (some v) g = elim (Bool-cases (str_eq e.schema "event")) [
    | inl is_event ↦ rw (is_event, flip_type) (flip_payload-IsRefused v g)
    | inr other ↦ rw (other, flip_type) added_field
  ]

  spoil_checksum-IsRefused :
      (cs : String) → e.checksum ≡ cs → IsRefused p spec unexpected_errors e (spoil_checksum e cs)
  unfolding spoil_checksum validate_message
  spoil_checksum-IsRefused String.[] g = g
  spoil_checksum-IsRefused (String.◌∷◌ c s) g = elim (Bool-cases (code c == b'f')) [
    | inl f ↦
        rw (f, spoil_checksum)
          (other_checksum (String.◌∷◌ "0" s)
            (heads_differ c "0" s s e.checksum g (λ q. not_zero (code c) f q)))
    | inr other ↦
        rw (other, spoil_checksum)
          (other_checksum (String.◌∷◌ "f" s)
            (heads_differ c "f" s s e.checksum g (λ q. not_f (code c) other q)))
  ]

  -- Every kind of corruption of a valid envelope is found: `validate_envelope` refuses the message, where
  -- no other text has the digest of its body, the digest is not all zeros, and the envelope schema refuses
  -- a key that it does not list; and `corrupt` fails only on a payload that is no object or on an empty
  -- checksum.
  pub corrupt-IsRefused : (kind : Kind) → IsRefused p spec unexpected_errors e (corrupt kind e)
  unfolding corrupt
  corrupt-IsRefused type_flip = flip_type-IsRefused (get "payload" e.body) refl
  corrupt-IsRefused checksum = spoil_checksum-IsRefused e.checksum refl
  corrupt-IsRefused field = added_field
