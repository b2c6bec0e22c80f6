-- ===== src/Json.antt =====
-- The values that `json.loads` yields and `json.dumps` writes. A Python float is written exactly, as
-- a sign, a mantissa and a power of two, or it is not finite; an int is an integer of any size.
pub mod Dumps
pub mod Lengths
use open_machine_protocol.Prelude.{
  ℕ, suc, ◌^◌, ◌%◌, String, Bool, true, false, Option, none, some, ◌==◌, str_eq, if◌then◌else◌,
}
use open_machine_protocol.Prelude.Int.{ℤ, pos, negsuc}

pub data Float : Type 0 where
  nan : Float
  infinite : Bool → Float
  -- negative, mantissa, exponent: the value is ± mantissa * 2 ^ exponent
  finite : Bool → ℕ → ℤ → Float

mutual
  pub data Value : Type 0 where
    null : Value
    boolean : Bool → Value
    int : ℤ → Value
    float : Float → Value
    text : String → Value
    list : Items → Value
    dict : Fields → Value

  pub data Items : Type 0 where
    nil : Items
    cons : Value → Items → Items

  pub data Fields : Type 0 where
    end : Fields
    field : String → Value → Fields → Fields

-- math.isfinite(x)
unfoldable pub is_finite : Float → Bool
is_finite (finite _ _ _) = true
is_finite nan = false
is_finite (infinite _) = false

-- x == int(x), on a finite x: a negative exponent divides the mantissa
unfoldable pub is_integral : Float → Bool
is_integral (finite _ m (pos e)) = true
is_integral (finite _ m (negsuc e)) = m % 2 ^ suc e == 0
is_integral nan = false
is_integral (infinite _) = false

-- d.get(k)
unfoldable pub get : String → Fields → Option Value
get k end = none
get k (field j v fs) = if str_eq j k then some v else get k fs
