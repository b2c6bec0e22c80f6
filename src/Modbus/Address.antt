-- ===== src/Modbus/Address.antt =====
-- `resolve_address` of adapters/generic-modbus/protocol.py: the banks of conventional register numbers.
use open_machine_protocol.Prelude.{ℕ, ◌+◌, ◌<◌, ◌≡◌, ◌↔◌, inl, inr, Bool-cases, arith}
use open_machine_protocol.Prelude.Int.{pos}
use open_machine_protocol.Modbus.{ok, resolve_address, in_bank}

-- The register numbers that stand for an offset under each read function.
pub data Names (a : ℕ) (func : ℕ) (offset : ℕ) : Type 0 where
  plain : func ≡ 3 → a ≡ offset → offset < 10000 → Names a func offset
  holding : func ≡ 3 → a ≡ 40001 + offset → offset < 9999 → Names a func offset
  holding_long : func ≡ 3 → a ≡ 400001 + offset → offset < 9999 → Names a func offset
  input : func ≡ 4 → a ≡ 30001 + offset → offset < 9999 → Names a func offset
  input_long : func ≡ 4 → a ≡ 300001 + offset → offset < 9999 → Names a func offset

resolve-Names :
    (a func offset : ℕ) → resolve_address (pos a) ≡ ok (func, offset) → Names a func offset
unfolding resolve_address
resolve-Names a func offset h = elim (Bool-cases (in_bank 400001 a)) [
  | inl b₁ ↦ holding_long (ground (arith, b₁)) (ground (arith, b₁)) (ground (arith, b₁))
  | inr n₁ ↦ elim (Bool-cases (in_bank 40001 a)) [
    | inl b₂ ↦ holding (ground (arith, n₁, b₂)) (ground (arith, n₁, b₂)) (ground (arith, n₁, b₂))
    | inr n₂ ↦ elim (Bool-cases (in_bank 300001 a)) [
      | inl b₃ ↦
          input_long (ground (arith, n₁, n₂, b₃)) (ground (arith, n₁, n₂, b₃))
            (ground (arith, n₁, n₂, b₃))
      | inr n₃ ↦ elim (Bool-cases (in_bank 30001 a)) [
        | inl b₄ ↦
            input (ground (arith, n₁, n₂, n₃, b₄)) (ground (arith, n₁, n₂, n₃, b₄))
              (ground (arith, n₁, n₂, n₃, b₄))
        | inr n₄ ↦
            plain (ground (arith, n₁, n₂, n₃, n₄)) (ground (arith, n₁, n₂, n₃, n₄))
              (ground (arith, n₁, n₂, n₃, n₄))
      ]
    ]
  ]
]

Names-resolve :
    (a func offset : ℕ) → Names a func offset → resolve_address (pos a) ≡ ok (func, offset)
unfolding resolve_address
Names-resolve a func offset (plain f e b) = ground arith
Names-resolve a func offset (holding f e b) = ground arith
Names-resolve a func offset (holding_long f e b) = ground arith
Names-resolve a func offset (input f e b) = ground arith
Names-resolve a func offset (input_long f e b) = ground arith

-- A register number that is not negative resolves to a function and an offset exactly where it names
-- that offset: 0 to 9999 plainly, and 40001 to 49999 and 400001 to 409999 in the two banks of function 3,
-- 30001 to 39999 and 300001 to 309999 in those of function 4. Every other number, such as 40000 or 410000,
-- is refused.
pub resolve_address_iff :
    (a func offset : ℕ) → (resolve_address (pos a) ≡ ok (func, offset)) ↔ Names a func offset
resolve_address_iff a func offset = (resolve-Names a func offset, Names-resolve a func offset)
