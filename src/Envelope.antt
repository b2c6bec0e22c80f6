-- ===== src/Envelope.antt =====
-- tools/omp_tools/envelope.py: the number check, the canonical text and checksum of a body, and
-- `make_envelope`. The message text of a ValueError is kept as data.
use open_machine_protocol.Prelude.{
  ℕ, suc, String, ◌≡◌, refl, ◌⊎◌, inl, inr, Option, none, some, List, [], ◌∷◌, ◌++◌, str_eq, any,
  not, if◌then◌else◌,
}
use open_machine_protocol.Json.{Value, Items, Fields, Float, is_finite, is_integral}
use open_machine_protocol.Json.Dumps.{dumps}

-- One step of the path in a message: `.key` or `[index]`.
pub data Segment : Type 0 where
  key : String → Segment
  index : ℕ → Segment

pub data ValueError : Type 0 where
  non_finite : List Segment → ValueError
  non_integral : List Segment → ValueError
  unknown_schema : String → ValueError

pub data Result (A : Type 0) : Type 0 where
  ok : A → Result A
  raised : ValueError → Result A

pub Result-cases :
    {A : Type 0} (r : Result A) → ((a : A) × (r ≡ ok a)) ⊎ ((e : ValueError) × (r ≡ raised e))
Result-cases (ok a) = inl (a, refl)
Result-cases (raised e) = inr (e, refl)

infixl 5 ◌>>=◌
abbrev pub ◌>>=◌ : {A B : Type 0} → Result A → (A → Result B) → Result B
ok a >>= f = f a
raised e >>= f = raised e

-- The loops over a dict or a list stop at the first value that raises.
abbrev pub first_error : Option ValueError → Option ValueError → Option ValueError
first_error (some e) rest = some e
first_error none rest = rest

unfoldable pub check_float : List Segment → Float → Option ValueError
check_float path f =
    if not (is_finite f)
    then some (non_finite path)
    else if not (is_integral f)
    then some (non_integral path)
    else none

unfoldable mutual
  -- `_check_numbers`; `none` when it returns
  pub check_numbers : List Segment → Value → Option ValueError
  check_numbers path (Value.float f) = check_float path f
  check_numbers path (Value.dict fs) = check_fields path fs
  check_numbers path (Value.list vs) = check_items path 0 vs
  check_numbers path Value.null = none
  check_numbers path (Value.boolean b) = none
  check_numbers path (Value.int n) = none
  check_numbers path (Value.text s) = none

  pub check_fields : List Segment → Fields → Option ValueError
  check_fields path Fields.end = none
  check_fields path (Fields.field k v fs) =
      first_error (check_numbers (path ++ key k ∷ []) v) (check_fields path fs)

  pub check_items : List Segment → ℕ → Items → Option ValueError
  check_items path i Items.nil = none
  check_items path i (Items.cons v vs) =
      first_error (check_numbers (path ++ index i ∷ []) v) (check_items path (suc i) vs)

-- The text that `repr` gives a float, and SHA-256 in lowercase hex.
pub record Primitives : Type 0 where
  pub float_repr : Float → List ℕ
  pub sha256_hex : List ℕ → String

abbrev pub core_schemas : List String
core_schemas = "machine" ∷ "event" ∷ "process_run" ∷ "energy" ∷ "telemetry" ∷ []

-- The dict that `make_envelope` builds: nine keys, and `sig` where it is there.
pub record Envelope : Type 0 where
  pub omp_version : String
  pub profile : String
  pub gateway_id : String
  pub machine_id : String
  pub seq : ℕ
  pub ts : String
  pub schema : String
  pub body : Fields
  pub checksum : String
  pub sig : Option String

module _ (p : Primitives) where
  unfoldable pub canonicalize : Fields → Result (List ℕ)
  canonicalize body = elim (check_numbers [] (Value.dict body)) [
    | some e ↦ raised e
    | none ↦ ok (dumps p.float_repr (Value.dict body))
  ]

  unfoldable pub checksum : Fields → Result String
  unfolding canonicalize
  checksum body = do text ← canonicalize body; ok (p.sha256_hex text)

  -- `omp_version` and `sig` have their defaults in every call of the gateway and the simulator.
  unfoldable pub make_envelope :
      String → Fields → String → String → String → ℕ → String → Result Envelope
  unfolding checksum
  make_envelope schema body profile gateway_id machine_id seq ts =
      if not (any (λ s. str_eq schema s) core_schemas) then raised (unknown_schema schema) else do
        digest ← checksum body
        ok (record {
          omp_version = "0.1.0";
          profile = profile;
          gateway_id = gateway_id;
          machine_id = machine_id;
          seq = seq;
          ts = ts;
          schema = schema;
          body = body;
          checksum = digest;
          sig = none;
        })
