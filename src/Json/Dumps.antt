-- ===== src/Json/Dumps.antt =====
-- `json.dumps(value, sort_keys=True, separators=(",", ":"), ensure_ascii=False)`, as code points.
use Prim.Native.Char.{code}
use Prim.Native.Nat.{compare, Ordering}
use open_machine_protocol.Prelude.{
  ℕ, zero, suc, ◌+◌, ◌-◌, ◌/◌, ◌%◌, String, Bool, true, false, List, [], ◌∷◌, ◌++◌, ltb, ◌==◌,
  if◌then◌else◌,
}
use open_machine_protocol.Prelude.Int.{ℤ, pos, negsuc}
use open_machine_protocol.Json.{Float, Value, Items, Fields}

-- The code points of a text.
abbrev pub codes : String → List ℕ
codes String.[] = []
codes (String.◌∷◌ c s) = code c ∷ codes s

-- Decimal digits, the last first into the accumulator; `n + 1` rounds are enough.
unfoldable pub decimal_fuel : ℕ → ℕ → List ℕ → List ℕ
decimal_fuel zero n acc = acc
decimal_fuel (suc f) n acc =
    let rest = decimal_fuel f (n / 10) ((b'0' + n % 10) ∷ acc) in
    if ltb n 10 then (b'0' + n % 10) ∷ acc else rest

unfoldable pub decimal : ℕ → List ℕ
unfolding decimal_fuel
decimal n = decimal_fuel (suc n) n []

unfoldable pub int_repr : ℤ → List ℕ
unfolding decimal
int_repr (pos n) = decimal n
int_repr (negsuc n) = b'-' ∷ decimal (suc n)

abbrev hex_digit : ℕ → ℕ
hex_digit d = if ltb d 10 then b'0' + d else b'a' + (d - 10)

-- The escape of one code point: the named ones, \u00xx below 32, itself otherwise.
unfoldable pub escape : ℕ → List ℕ
escape c =
    if c == 34
    then 92 ∷ 34 ∷ []
    else if c == 92
    then 92 ∷ 92 ∷ []
    else if c == 10
    then 92 ∷ b'n' ∷ []
    else if c == 13
    then 92 ∷ b'r' ∷ []
    else if c == 9
    then 92 ∷ b't' ∷ []
    else if c == 12
    then 92 ∷ b'f' ∷ []
    else if c == 8
    then 92 ∷ b'b' ∷ []
    else if ltb c 32
    then 92 ∷ b'u' ∷ b'0' ∷ b'0' ∷ hex_digit (c / 16) ∷ hex_digit (c % 16) ∷ []
    else c ∷ []

unfoldable pub escape_all : List ℕ → List ℕ
unfolding escape
escape_all [] = []
escape_all (c ∷ cs) = escape c ++ escape_all cs

unfoldable pub quoted : String → List ℕ
unfolding escape_all
quoted s = 34 ∷ escape_all (codes s) ++ 34 ∷ []

-- Python orders texts by code point.
unfoldable pub text_lt : List ℕ → List ℕ → Bool
text_lt [] [] = false
text_lt [] (d ∷ ds) = true
text_lt (c ∷ cs) [] = false
text_lt (c ∷ cs) (d ∷ ds) =
    let rest = text_lt cs ds in
    elim (compare c d) [ Ordering.lt ↦ true | Ordering.gt ↦ false | Ordering.eq ↦ rest ]

abbrev pub Entry : Type 0
Entry = String × List ℕ

-- `sorted(dct.items())`, by insertion: stable, and the keys of a dict are distinct.
unfoldable pub insert_sorted : Entry → List Entry → List Entry
unfolding text_lt
insert_sorted e [] = e ∷ []
insert_sorted e (x ∷ xs) =
    let rest = insert_sorted e xs in
    if text_lt (codes x.0) (codes e.0) then x ∷ rest else e ∷ x ∷ xs

unfoldable pub sort_entries : List Entry → List Entry
unfolding insert_sorted
sort_entries [] = []
sort_entries (e ∷ es) = insert_sorted e (sort_entries es)

unfoldable pub join_commas : List (List ℕ) → List ℕ
join_commas [] = []
join_commas (x ∷ []) = x
join_commas (x ∷ y ∷ xs) = x ++ b',' ∷ join_commas (y ∷ xs)

unfoldable pub entry_texts : List Entry → List (List ℕ)
unfolding quoted
entry_texts [] = []
entry_texts (e ∷ es) = (quoted e.0 ++ b':' ∷ e.1) ∷ entry_texts es

unfoldable pub braces : List Entry → List ℕ
unfolding join_commas entry_texts sort_entries
braces es = b'{' ∷ join_commas (entry_texts (sort_entries es)) ++ b'}' ∷ []

unfoldable pub brackets : List (List ℕ) → List ℕ
unfolding join_commas
brackets xs = b'[' ∷ join_commas xs ++ b']' ∷ []

abbrev bool_repr : Bool → List ℕ
bool_repr true = codes "true"
bool_repr false = codes "false"

module _ (float_repr : Float → List ℕ) where
  unfoldable mutual
    unfolding int_repr quoted brackets braces

    pub dumps : Value → List ℕ
    dumps Value.null = codes "null"
    dumps (Value.boolean b) = bool_repr b
    dumps (Value.int n) = int_repr n
    dumps (Value.float f) = float_repr f
    dumps (Value.text s) = quoted s
    dumps (Value.list vs) = brackets (dump_items vs)
    dumps (Value.dict fs) = braces (dump_fields fs)

    pub dump_items : Items → List (List ℕ)
    dump_items Items.nil = []
    dump_items (Items.cons v vs) = dumps v ∷ dump_items vs

    pub dump_fields : Fields → List Entry
    dump_fields Fields.end = []
    dump_fields (Fields.field k v fs) = (k, dumps v) ∷ dump_fields fs
