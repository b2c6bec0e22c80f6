-- ===== src/Modbus.antt =====
-- adapters/generic-modbus/protocol.py: register addresses, request and response frames over TCP and
-- RTU, CRC-16 and register values. Bytes and registers are numbers; `struct.pack` and `unpack` are
-- written out.
pub mod Address
pub mod Frames
pub mod Tests
use Prim.Native.Nat.{bit_xor, bit_or}
use text.Mathlib.Text.{starts_with}
use open_machine_protocol.Prelude.{
  ℕ, zero, suc, ◌+◌, ◌-◌, ◌*◌, ◌/◌, ◌%◌, String, ◌≡◌, Bool, true, false, not, ◌&&◌, ◌||◌, List, [],
  ◌∷◌, ◌++◌, ◌==◌, ltb, leb, str_eq, length, take, drop, if◌then◌else◌,
}
use open_machine_protocol.Prelude.Int.{ℤ, pos, negsuc}

-- ModbusError with its message as data, and the exceptions of Python that the code lets through.
pub data Fault : Type 0 where
  unsupported_address : ℤ → Fault
  short_frame : Fault
  transaction_mismatch : ℕ → ℕ → Fault
  bad_protocol : Fault
  crc_mismatch : Fault
  unit_mismatch : ℕ → ℕ → Fault
  device_exception : ℕ → Fault
  function_mismatch : ℕ → ℕ → Fault
  byte_count_mismatch : Fault
  unsupported_type : String → Fault
  index_error : Fault
  struct_error : Fault

pub data Result {ℓ} (A : Type ℓ) : Type ℓ where
  ok : A → Result A
  raised : Fault → Result A

infixl 5 ◌>>=◌ ◌>>◌
abbrev pub ◌>>=◌ {ℓ κ} : {A : Type ℓ} {B : Type κ} → Result A → (A → Result B) → Result B
ok a >>= f = f a
raised e >>= f = raised e

abbrev pub ◌>>◌ {ℓ} : {B : Type ℓ} → Result (Unit {0}) → Result B → Result B
m >> k = m >>= λ _. k

-- `if test: raise fault`
abbrev pub raise_if : Bool → Fault → Result (Unit {0})
raise_if true e = raised e
raise_if false e = ok tt

abbrev pub read_holding : ℕ
read_holding = 3

abbrev pub read_input : ℕ
read_input = 4

-- `base <= address < base + 9999`
abbrev pub in_bank : ℕ → ℕ → Bool
in_bank base address = leb base address && ltb address (base + 9999)

unfoldable pub resolve_address : ℤ → Result (ℕ × ℕ)
resolve_address (negsuc n) = raised (unsupported_address (negsuc n))
resolve_address (pos a) =
    if in_bank 400001 a
    then ok (read_holding, a - 400001)
    else if in_bank 40001 a
    then ok (read_holding, a - 40001)
    else if in_bank 300001 a
    then ok (read_input, a - 300001)
    else if in_bank 30001 a
    then ok (read_input, a - 30001)
    else if ltb a 10000
    then ok (read_holding, a)
    else raised (unsupported_address (pos a))

-- struct.pack with "B", ">H" and "<H"
abbrev pub pack_byte : ℕ → Result (List ℕ)
pack_byte n = if ltb n 256 then ok (n ∷ []) else raised struct_error

abbrev pub pack_be16 : ℕ → Result (List ℕ)
pack_be16 n = if ltb n 65536 then ok (n / 256 ∷ n % 256 ∷ []) else raised struct_error

abbrev pub pack_le16 : ℕ → Result (List ℕ)
pack_le16 n = if ltb n 65536 then ok (n % 256 ∷ n / 256 ∷ []) else raised struct_error

abbrev pub be16 : ℕ → ℕ → ℕ
be16 hi lo = hi * 256 + lo

unfoldable pub build_read_tcp : ℕ → ℕ → ℕ → ℕ → ℕ → Result (List ℕ)
build_read_tcp tid unit_id func offset count = do
  f ← pack_byte func
  o ← pack_be16 offset
  c ← pack_be16 count
  let pdu = f ++ (o ++ c)
  t ← pack_be16 tid
  p ← pack_be16 0
  l ← pack_be16 (length pdu + 1)
  u ← pack_byte unit_id
  ok (t ++ (p ++ (l ++ (u ++ pdu))))

-- The list of registers in the data of a response.
unfoldable pub registers : List ℕ → List ℕ
registers (hi ∷ lo ∷ rest) = be16 hi lo ∷ registers rest
registers _ = []

-- `_parse_pdu`
unfoldable pub parse_pdu : List ℕ → ℕ → Result (List ℕ)
unfolding registers
parse_pdu [] expect_func = raised index_error
parse_pdu (func ∷ []) expect_func =
    if func == bit_or expect_func 128
    then raised index_error
    else if not (func == expect_func)
    then raised (function_mismatch func expect_func)
    else raised index_error
parse_pdu (func ∷ byte_count ∷ rest) expect_func = do
  raise_if (func == bit_or expect_func 128) (device_exception byte_count)
  raise_if (not (func == expect_func)) (function_mismatch func expect_func)
  let payload = take byte_count rest
  raise_if (not (length payload == byte_count) || byte_count % 2 == 1) byte_count_mismatch
  ok (registers payload)

-- A frame of nine bytes or more has the seven of the header.
unfoldable pub parse_read_tcp : List ℕ → ℕ → ℕ → Result (List ℕ)
unfolding parse_pdu
parse_read_tcp (t₁ ∷ t₀ ∷ p₁ ∷ p₀ ∷ l₁ ∷ l₀ ∷ unit ∷ rest) expect_tid expect_func = do
  raise_if (ltb (length rest) 2) short_frame
  raise_if (not (be16 t₁ t₀ == expect_tid)) (transaction_mismatch (be16 t₁ t₀) expect_tid)
  raise_if (not (be16 p₁ p₀ == 0)) bad_protocol
  parse_pdu (take (be16 l₁ l₀ - 1) rest) expect_func
parse_read_tcp _ expect_tid expect_func = raised short_frame

-- one round of the inner loop: `(crc >> 1) ^ 0xA001 if crc & 1 else crc >> 1`
abbrev pub crc_bit : ℕ → ℕ
crc_bit crc = if crc % 2 == 1 then bit_xor (crc / 2) 0xA001 else crc / 2

unfoldable pub crc_byte : ℕ → ℕ → ℕ
crc_byte crc byte =
    crc_bit (crc_bit (crc_bit (crc_bit (crc_bit (crc_bit (crc_bit (crc_bit (bit_xor crc byte))))))))

unfoldable pub crc_from : ℕ → List ℕ → ℕ
unfolding crc_byte
crc_from crc [] = crc
crc_from crc (byte ∷ bytes) = crc_from (crc_byte crc byte) bytes

unfoldable pub crc16 : List ℕ → ℕ
unfolding crc_from
crc16 bytes = crc_from 0xFFFF bytes

unfoldable pub build_read_rtu : ℕ → ℕ → ℕ → ℕ → Result (List ℕ)
build_read_rtu unit_id func offset count = do
  u ← pack_byte unit_id
  f ← pack_byte func
  o ← pack_be16 offset
  c ← pack_be16 count
  let body = u ++ (f ++ (o ++ c))
  crc ← pack_le16 (crc16 body)
  ok (body ++ crc)

-- `struct.unpack("<H", frame[-2:])[0]`
abbrev pub le16 : List ℕ → ℕ
le16 (lo ∷ hi ∷ rest) = hi * 256 + lo
le16 _ = 0

-- on `body = frame[:-2]`
abbrev pub parse_rtu_body : List ℕ → ℕ → ℕ → Result (List ℕ)
parse_rtu_body [] expect_unit expect_func = raised index_error
parse_rtu_body (unit ∷ pdu) expect_unit expect_func = do
  raise_if (not (unit == expect_unit)) (unit_mismatch unit expect_unit)
  parse_pdu pdu expect_func

unfoldable pub parse_read_rtu : List ℕ → ℕ → ℕ → Result (List ℕ)
parse_read_rtu frame expect_unit expect_func =
    let body = take (length frame - 2) frame in
    do
      raise_if (ltb (length frame) 5) short_frame
      raise_if (not (crc16 body == le16 (drop (length frame - 2) frame))) crc_mismatch
      parse_rtu_body body expect_unit expect_func

-- regs[0]
abbrev pub first_register : List ℕ → Result ℕ
first_register [] = raised index_error
first_register (r ∷ regs) = ok r

-- regs[0], regs[1]
abbrev pub two_registers : List ℕ → Result (ℕ × ℕ)
two_registers (a ∷ b ∷ regs) = ok (a, b)
two_registers _ = raised index_error

-- The raw value of `decode_value`; a register is below 65536, so `|` is a sum.
unfoldable pub raw_value : List ℕ → String → Result ℤ
raw_value regs reg_type =
    if str_eq reg_type "u16"
    then (do r ← first_register regs; ok (pos r))
    else if str_eq reg_type "s16"
    then (do r ← first_register regs; ok (if ltb r 32768 then pos r else negsuc (65535 - r)))
    else if str_eq reg_type "u32"
    then (do (a, b) ← two_registers regs; ok (pos (a * 65536 + b)))
    else if str_eq reg_type "u32_swapped"
    then (do (a, b) ← two_registers regs; ok (pos (b * 65536 + a)))
    else raised (unsupported_type reg_type)

-- `reg_type.startswith("u32")`
unfoldable pub reg_count : String → ℕ
reg_count reg_type = if starts_with reg_type "u32" then 2 else 1
