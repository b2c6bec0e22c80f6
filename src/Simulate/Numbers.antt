-- ===== src/Simulate/Numbers.antt =====
-- The numbers of what a machine emits, and that every body of a cyclic run can be emitted.
use open_machine_protocol.Prelude.{
  ℕ, ◌+◌, ◌≡◌, refl, String, true, none, List, [], ◌∷◌, ◌++◌, arith, any, str_eq, Member,
  Member-append_right, inl,
}
use open_machine_protocol.Json.{Value, Fields}
use open_machine_protocol.Json.Dumps.{dumps}
use open_machine_protocol.Envelope.{
  Envelope, Primitives, Result, ok, check_numbers, canonicalize, checksum, core_schemas,
  make_envelope,
}
use open_machine_protocol.Simulate.{Machine, Setup, emit}

-- The envelopes carry the numbers from `n` to `last`, in order and with none left out, and have a property.
abbrev pub AreNumbered : (Envelope → Type 0) → ℕ → ℕ → List Envelope → Type 0
AreNumbered P n last [] = n ≡ last + 1
AreNumbered P n last (e ∷ es) = (e.seq ≡ n) × P e × AreNumbered P (n + 1) last es

AreNumbered-append :
    (P : Envelope → Type 0) (n last : ℕ) (es : List Envelope) (e : Envelope)
    → AreNumbered P n last es
    → e.seq ≡ last + 1
    → P e
    → AreNumbered P n (last + 1) (es ++ e ∷ [])
AreNumbered-append P n last [] e h s q = (omega arith, q, omega arith)
AreNumbered-append P n last (x ∷ es) e h s q =
    (h.0, h.1, AreNumbered-append P (n + 1) last es e h.2 s q)

-- An envelope that the simulator makes for a machine.
pub record IsOf (p : Primitives) (setup : Setup) (e : Envelope) : Type 0 where
  pub gateway : e.gateway_id ≡ "gw-sim-01"
  pub machine : e.machine_id ≡ setup.machine_id
  pub digest : checksum p e.body ≡ ok e.checksum

-- The machine has emitted the numbers from 1 to its counter.
abbrev pub IsNumbered : Primitives → Setup → Machine → Type 0
IsNumbered p setup m = AreNumbered (IsOf p setup) 1 m.seq m.out

-- A body whose schema is core and whose numbers are fine.
abbrev pub IsEmittable : String → Fields → Type 0
IsEmittable schema body =
    (check_numbers [] (Value.dict body) ≡ none) × (any (λ s. str_eq schema s) core_schemas ≡ true)

checksum-fine :
    (p : Primitives) (body : Fields)
    → check_numbers [] (Value.dict body) ≡ none
    → checksum p body ≡ ok (p.sha256_hex (dumps p.float_repr (Value.dict body)))
unfolding checksum canonicalize
checksum-fine p body h = rw (h, checksum, canonicalize) refl

module _ (p : Primitives) (setup : Setup) where
  -- What an emission leaves: one envelope more, with the next number and the body.
  pub record Emits (body : Fields) (m : Machine) (o : Result Machine) : Type 0 where
    pub after : Machine
    pub returned : o ≡ ok after
    pub number : after.seq ≡ m.seq + 1
    pub envelope : Envelope
    pub sent : Member envelope after.out
    pub holds : envelope.body ≡ body
    pub numbered : IsNumbered p setup after

  pub emit-Emits :
      (schema : String) (body : Fields) (t : ℕ) (m : Machine)
      → IsEmittable schema body
      → IsNumbered p setup m
      → Emits body m (emit p setup schema body t m)
  unfolding emit make_envelope checksum canonicalize
  emit-Emits schema body t m h v =
      rw (h.1, checksum, canonicalize, h.0)
        (record {
          after = record { seq = m.seq + 1; out = m.out ++ sent_envelope ∷ [] };
          returned = refl;
          number = refl;
          envelope = sent_envelope;
          sent = Member-append_right sent_envelope m.out (sent_envelope ∷ []) (inl refl);
          holds = refl;
          numbered =
              AreNumbered-append (IsOf p setup) 1 m.seq m.out sent_envelope v refl
                (record { gateway = refl; machine = refl; digest = checksum-fine p body h.0 });
        })
    where
      sent_envelope : Envelope
      sent_envelope = record {
        omp_version = "0.1.0";
        profile = setup.profile_ref;
        gateway_id = "gw-sim-01";
        machine_id = setup.machine_id;
        seq = m.seq + 1;
        ts = setup.iso t;
        schema = schema;
        body = body;
        checksum = p.sha256_hex (dumps p.float_repr (Value.dict body));
        sig = none;
      }
