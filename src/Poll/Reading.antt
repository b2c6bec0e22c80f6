-- ===== src/Poll/Reading.antt =====
-- `_read` over a device that answers.
use open_machine_protocol.Prelude.{
  ℕ, ◌/◌, ◌%◌, ◌<◌, ◌≤◌, ◌≡◌, refl, ap, ◌∙◌, ◌+◌, ◌*◌, inl, inr, String, List, [], ◌∷◌, ◌++◌, arith,
}
use open_machine_protocol.Prelude.Int.{ℤ, pos, negsuc}
use open_machine_protocol.Modbus.{ok, reg_count, build_read_tcp, raw_value}
use open_machine_protocol.Modbus.Address.{
  Names, resolve_address_iff, plain, holding, holding_long, input, input_long,
}
use open_machine_protocol.Modbus.Frames.{response_tcp, IsRead, parse_read_tcp-response}
use open_machine_protocol.Poll.{Transport, read_tcp}

-- The request for an offset: transaction, protocol 0, length 6, unit, function, offset and count.
abbrev pub request_tcp : ℕ → ℕ → ℕ → ℕ → ℕ → List ℕ
request_tcp tid unit func offset count =
    tid / 256
    ∷ tid % 256
    ∷ 0
    ∷ 0
    ∷ 0
    ∷ 6
    ∷ unit
    ∷ func
    ∷ offset / 256
    ∷ offset % 256
    ∷ count / 256
    ∷ count % 256
    ∷ []

build_read_tcp-value :
    (tid unit func offset count : ℕ)
    → tid < 65536
    → unit < 256
    → func < 256
    → offset < 65536
    → count < 65536
    → build_read_tcp tid unit func offset count ≡ ok (request_tcp tid unit func offset count)
unfolding build_read_tcp
build_read_tcp-value tid unit func offset count h₁ h₂ h₃ h₄ h₅ = ground arith

pub Names-bounds : (a func offset : ℕ) → Names a func offset → IsRead func × (offset < 10000)
Names-bounds a func offset (plain f e b) = (inl f, b)
Names-bounds a func offset (holding f e b) = (inl f, omega arith)
Names-bounds a func offset (holding_long f e b) = (inl f, omega arith)
Names-bounds a func offset (input f e b) = (inr f, omega arith)
Names-bounds a func offset (input_long f e b) = (inr f, omega arith)

pub reg_count-bound : (t : String) → reg_count t ≤ 2
unfolding reg_count
reg_count-bound t = ground arith

IsRead-bound : (func : ℕ) → IsRead func → func < 256
IsRead-bound func (inl e) = omega arith
IsRead-bound func (inr e) = omega arith

-- The register types, by their names in a mapping, and how many registers a value of each takes.
pub data RegType : Type 0 where
  u16 s16 u32 u32_swapped : RegType

pub name_of : RegType → String
name_of u16 = "u16"
name_of s16 = "s16"
name_of u32 = "u32"
name_of u32_swapped = "u32_swapped"

pub width : RegType → ℕ
width u16 = 1
width s16 = 1
width u32 = 2
width u32_swapped = 2

-- The registers that hold a value: two's complement in 16 bits, and two words, the high one first or last.
pub data Holds : RegType → ℤ → List ℕ → Type 0 where
  unsigned : (n : ℕ) → Holds u16 (pos n) (n ∷ [])
  non_negative : (n : ℕ) → n < 32768 → Holds s16 (pos n) (n ∷ [])
  negative : (n word : ℕ) → n < 32768 → word + (n + 1) ≡ 65536 → Holds s16 (negsuc n) (word ∷ [])
  high_first : (n high low : ℕ) → n ≡ 65536 * high + low → Holds u32 (pos n) (high ∷ low ∷ [])
  low_first :
      (n high low : ℕ) → n ≡ 65536 * high + low → Holds u32_swapped (pos n) (low ∷ high ∷ [])

reg_count-width : (t : RegType) → reg_count (name_of t) ≡ width t
unfolding reg_count name_of width
reg_count-width u16 = refl
reg_count-width s16 = refl
reg_count-width u32 = refl
reg_count-width u32_swapped = refl

Holds-value :
    (t : RegType) (v : ℤ) (regs : List ℕ) → Holds t v regs → raw_value regs (name_of t) ≡ ok v
unfolding raw_value name_of
Holds-value u16 v regs (unsigned n) = refl
Holds-value s16 v regs (non_negative n small) = ground arith
Holds-value s16 v regs (negative n word small e) = ground arith
Holds-value u32 v regs (high_first n high low e) = ground arith
Holds-value u32_swapped v regs (low_first n high low e) = ground arith

-- A register whose number names an offset is read over TCP as the device answers: for a transaction and
-- a unit that fit their fields, if the transport answers the read request for that offset, and for as many
-- registers as a value of the type takes, with the registers that hold a value, whatever bytes follow, then
-- that is the value read.
pub read_tcp-value :
    (transport : Transport) (tid unit a func offset : ℕ) (t : RegType) (v : ℤ) (regs extra : List ℕ)
    → tid < 65536
    → unit < 256
    → Names a func offset
    → Holds t v regs
    → transport (request_tcp tid unit func offset (width t))
      ≡ response_tcp tid unit func regs ++ extra
    → read_tcp transport tid unit (pos a) (name_of t) ≡ ok v
unfolding read_tcp
read_tcp-value transport tid unit a func offset t v regs extra h₁ h₂ names held answer =
    let (reads, small) = Names-bounds a func offset names in
    let count = reg_count (name_of t) in
    let built =
      build_read_tcp-value tid unit func offset count h₁ h₂ (IsRead-bound func reads) (omega arith)
        (omega (arith, reg_count-bound (name_of t))) in
    let answered : transport (request_tcp tid unit func offset count)
        ≡ response_tcp tid unit func regs ++ extra =
      ap (λ n. transport (request_tcp tid unit func offset n)) (reg_count-width t) ∙ answer in
    rw
      (
        (resolve_address_iff a func offset).1 names,
        read_tcp,
        built,
        answered,
        parse_read_tcp-response tid unit func regs extra reads,
      )
      (Holds-value t v regs held)
