-- ===== src/Simulate/Chaos.antt =====
-- `corrupt` of tools/omp_tools/simulate.py. The choice of `rng.choice` is a parameter; the copy through
-- JSON changes nothing in the model.
use Prim.Native.Char.{Char, code}
use open_machine_protocol.Prelude.{
  ℕ, String, Bool, true, false, Option, none, some, List, [], ◌∷◌, map, ◌==◌, str_eq, if◌then◌else◌,
}
use open_machine_protocol.Json.{Value, Fields, get}
use open_machine_protocol.Json.Dumps.{int_repr}
use open_machine_protocol.Envelope.{Envelope, Primitives}
use open_machine_protocol.Spec.{Spec, Invalid, envelope_schema, validate_envelope}

pub data Kind : Type 0 where
  type_flip checksum field : Kind

-- An envelope on the wire, with or without the key `unexpected_field`.
pub record Message : Type 0 where
  pub envelope : Envelope
  pub unexpected : Bool

-- `.items()` of a payload that is no dict, and the first character of an empty checksum.
pub data Corrupted : Type 0 where
  message : Message → Corrupted
  attribute_error index_error : Corrupted

-- The character of `str(n)` with this code: a digit or the sign.
abbrev pub int_char : ℕ → Char
int_char c =
    if c == 48
    then "0"
    else if c == 49
    then "1"
    else if c == 50
    then "2"
    else if c == 51
    then "3"
    else if c == 52
    then "4"
    else if c == 53
    then "5"
    else if c == 54
    then "6"
    else if c == 55
    then "7"
    else if c == 56
    then "8"
    else if c == 57
    then "9"
    else "-"

unfoldable pub int_text : List ℕ → String
int_text [] = String.[]
int_text (c ∷ cs) = String.◌∷◌ (int_char c) (int_text cs)

-- str(v), where isinstance(v, int); a bool is an int
unfoldable pub str_of_int : Value → Option String
unfolding int_text int_repr
str_of_int (Value.int n) = some (int_text (int_repr n))
str_of_int (Value.boolean true) = some "True"
str_of_int (Value.boolean false) = some "False"
str_of_int Value.null = none
str_of_int (Value.float f) = none
str_of_int (Value.text s) = none
str_of_int (Value.list vs) = none
str_of_int (Value.dict fs) = none

abbrev pub after_key : String → Value → Option Fields → Option Fields
after_key k v none = none
after_key k v (some fs) = some (Fields.field k v fs)

-- The first int of a payload becomes its text; `none` where there is none.
unfoldable pub flip_first : Fields → Option Fields
unfolding str_of_int
flip_first Fields.end = none
flip_first (Fields.field k v fs) = elim (str_of_int v) [
  | some s ↦ some (Fields.field k (Value.text s) fs)
  | none ↦ after_key k v (flip_first fs)
]

-- body[k] = v, where the key is there
unfoldable pub replace : String → Value → Fields → Fields
replace k v Fields.end = Fields.end
replace k v (Fields.field j w fs) =
    if str_eq j k then Fields.field j v fs else Fields.field j w (replace k v fs)

abbrev pub zeros : String
zeros = "0000000000000000000000000000000000000000000000000000000000000000"

abbrev pub plain : Envelope → Corrupted
plain e = message (record { envelope = e; unexpected = false })

-- the `for` with its `else`
unfoldable pub flip_payload : Envelope → Value → Corrupted
unfolding flip_first replace
flip_payload e (Value.dict fs) = elim (flip_first fs) [
  | some fs' ↦ plain (record e { body = replace "payload" (Value.dict fs') e.body })
  | none ↦ plain (record e { checksum = zeros })
]
flip_payload e Value.null = attribute_error
flip_payload e (Value.boolean b) = attribute_error
flip_payload e (Value.int n) = attribute_error
flip_payload e (Value.float f) = attribute_error
flip_payload e (Value.text s) = attribute_error
flip_payload e (Value.list vs) = attribute_error

unfoldable pub spoil_checksum : Envelope → String → Corrupted
spoil_checksum e String.[] = index_error
spoil_checksum e (String.◌∷◌ c s) =
    if code c == b'f'
    then plain (record e { checksum = String.◌∷◌ "0" s })
    else plain (record e { checksum = String.◌∷◌ "f" s })

abbrev pub add_field : Envelope → Corrupted
add_field e = message (record { envelope = e; unexpected = true })

unfoldable pub flip_type : Envelope → Option Value → Corrupted
unfolding flip_payload
flip_type e none = add_field e
flip_type e (some payload) = if str_eq e.schema "event" then flip_payload e payload else add_field e

unfoldable pub corrupt : Kind → Envelope → Corrupted
unfolding flip_type spoil_checksum
corrupt type_flip e = flip_type e (get "payload" e.body)
corrupt checksum e = spoil_checksum e e.checksum
corrupt field e = add_field e

-- `validate_envelope` on what is on the wire. What the envelope schema says of the unexpected key, which
-- it does not list, is `unexpected_errors`.
unfoldable pub validate_message :
    Primitives → Spec → (Envelope → List String) → Message → List Invalid
validate_message p spec unexpected_errors m =
    if m.unexpected
    then map envelope_schema (unexpected_errors m.envelope)
    else validate_envelope p spec m.envelope false
