-- ===== src/Modbus/Frames.antt =====
-- The frames of adapters/generic-modbus/protocol.py: what a device answers is read back, and what is
-- accepted has the parts that it should have.
use Prim.Native.Nat.{bit_or}
use mathlib.Core.List.{append-nil}
use open_machine_protocol.Prelude.{
  ℕ, zero, suc, ◌+◌, ◌-◌, ◌*◌, ◌/◌, ◌%◌, ◌≤◌, ◌<◌, ◌≡◌, refl, ap, sym, subst, ◌⊎◌, inl, inr, true,
  false, Bool-cases, List, [], ◌∷◌, ◌++◌, ◌==◌, ltb, arith, length, length-append, take, drop,
  if◌then◌else◌,
}
use open_machine_protocol.Modbus.{
  ok, raised, crc_mismatch, be16, registers, parse_pdu, parse_read_tcp, crc16, parse_read_rtu,
  parse_rtu_body,
}

-- The data of a response that carries these registers.
unfoldable pub register_bytes : List ℕ → List ℕ
register_bytes [] = []
register_bytes (r ∷ regs) = r / 256 ∷ r % 256 ∷ register_bytes regs

registers-register_bytes : (regs : List ℕ) → registers (register_bytes regs) ≡ regs
unfolding registers register_bytes
registers-register_bytes [] = refl
registers-register_bytes (r ∷ regs) = ground (arith, registers-register_bytes regs)

length-register_bytes : (regs : List ℕ) → length (register_bytes regs) ≡ 2 * length regs
unfolding register_bytes
length-register_bytes [] = omega arith
length-register_bytes (r ∷ regs) = omega (arith, length-register_bytes regs)

-- The PDU of a read response.
abbrev pub response_pdu : ℕ → List ℕ → List ℕ
response_pdu func regs = func ∷ (2 * length regs) ∷ register_bytes regs

-- The TCP frame of a read response.
abbrev pub response_tcp : ℕ → ℕ → ℕ → List ℕ → List ℕ
response_tcp tid unit func regs =
    tid / 256
    ∷ tid % 256
    ∷ 0
    ∷ 0
    ∷ (2 * length regs + 3) / 256
    ∷ (2 * length regs + 3) % 256
    ∷ unit
    ∷ response_pdu func regs

take-append : {A : Type 0} (n : ℕ) (xs ys : List A) → n ≡ length xs → take n (xs ++ ys) ≡ xs
take-append zero [] ys h = refl
take-append (suc n) [] ys h = absurd (omega arith)
take-append zero (x ∷ xs) ys h = absurd (omega arith)
take-append (suc n) (x ∷ xs) ys h = ap (λ zs. x ∷ zs) (take-append n xs ys (omega arith))

drop-append : {A : Type 0} (n : ℕ) (xs ys : List A) → n ≡ length xs → drop n (xs ++ ys) ≡ ys
drop-append zero [] ys h = refl
drop-append (suc n) [] ys h = absurd (omega arith)
drop-append zero (x ∷ xs) ys h = absurd (omega arith)
drop-append (suc n) (x ∷ xs) ys h = drop-append n xs ys (omega arith)

-- Either read function.
abbrev pub IsRead : ℕ → Type 0
IsRead func = (func ≡ 3) ⊎ (func ≡ 4)

read_not_exception : (func : ℕ) → IsRead func → (func == bit_or func 128) ≡ false
read_not_exception func (inl e) = rw e
read_not_exception func (inr e) = rw e

-- A read response is read back, also with more bytes behind it.
parse_pdu-response :
    (func : ℕ) (regs extra : List ℕ)
    → IsRead func
    → parse_pdu (response_pdu func regs ++ extra) func ≡ ok regs
unfolding parse_pdu
parse_pdu-response func regs extra h =
    let size = length-register_bytes regs in
    let whole : take (2 * length regs) (register_bytes regs ++ extra) ≡ register_bytes regs =
      take-append (2 * length regs) (register_bytes regs) extra (sym size) in
    rw whole (ground (arith, read_not_exception func h, size, registers-register_bytes regs))

parse_pdu-exact :
    (func : ℕ) (regs : List ℕ) → IsRead func → parse_pdu (response_pdu func regs) func ≡ ok regs
parse_pdu-exact func regs h =
    subst (λ l. parse_pdu l func ≡ ok regs) (append-nil (response_pdu func regs))
      (parse_pdu-response func regs [] h)

-- What a device answers over TCP, with bytes of a later frame behind it or not, is read back, for
-- either read function.
pub parse_read_tcp-response :
    (tid unit func : ℕ) (regs extra : List ℕ)
    → IsRead func
    → parse_read_tcp (response_tcp tid unit func regs ++ extra) tid func ≡ ok regs
unfolding parse_read_tcp
parse_read_tcp-response tid unit func regs extra h =
    let size = length-register_bytes regs in
    let cut : take (2 * length regs + 2) (response_pdu func regs ++ extra)
        ≡ response_pdu func regs =
      take-append (2 * length regs + 2) (response_pdu func regs) extra (omega (arith, size)) in
    let count : be16 ((2 * length regs + 3) / 256) ((2 * length regs + 3) % 256) - 1
        ≡ 2 * length regs + 2 =
      omega arith in
    rw (count, cut) (ground (arith, parse_pdu-exact func regs h))

-- The RTU frame of a read response, with its check in low, high order.
abbrev pub response_rtu : ℕ → ℕ → List ℕ → ℕ → ℕ → List ℕ
response_rtu unit func regs lo hi = (unit ∷ response_pdu func regs) ++ lo ∷ hi ∷ []

-- A frame is checked against its last two bytes and read without them.
parse_read_rtu-body :
    (body : List ℕ) (lo hi unit func : ℕ)
    → 3 ≤ length body
    → parse_read_rtu (body ++ lo ∷ hi ∷ []) unit func
      ≡ (if crc16 body == hi * 256 + lo then parse_rtu_body body unit func else raised crc_mismatch)
unfolding parse_read_rtu
parse_read_rtu-body body lo hi unit func long =
    let size = length-append body (lo ∷ hi ∷ []) in
    let count : length (body ++ lo ∷ hi ∷ []) - 2 ≡ length body = omega (arith, size) in
    let enough : ltb (length (body ++ lo ∷ hi ∷ [])) 5 ≡ false = ground (arith, size) in
    rw
      (
        enough,
        count,
        take-append (length body) body (lo ∷ hi ∷ []) refl,
        drop-append (length body) body (lo ∷ hi ∷ []) refl,
      )
      (elim (Bool-cases (crc16 body == hi * 256 + lo)) [
        | inl good ↦ rw good refl
        | inr bad ↦ rw bad refl
      ])

-- An RTU response with some register is read back exactly if its two last bytes are the CRC of the
-- others, for either read function; with any other two bytes it is refused for that reason.
pub parse_read_rtu-response :
    (unit func lo hi : ℕ) (regs : List ℕ)
    → IsRead func
    → 0 < length regs
    → parse_read_rtu (response_rtu unit func regs lo hi) unit func ≡ (
        if crc16 (unit ∷ response_pdu func regs) == hi * 256 + lo
        then ok regs
        else raised crc_mismatch)
parse_read_rtu-response unit func lo hi regs h some_regs =
    let same : (unit == unit) ≡ true = ground arith in
    let inner : parse_rtu_body (unit ∷ response_pdu func regs) unit func ≡ ok regs =
      rw same (parse_pdu-exact func regs h) in
    rw
      (
        parse_read_rtu-body (unit ∷ response_pdu func regs) lo hi unit func
            (omega (arith, length-register_bytes regs)),
        inner,
      )
      refl
