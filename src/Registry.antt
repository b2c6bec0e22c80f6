-- ===== src/Registry.antt =====
-- gateway/omp/core/registry.py: `load_registry` on the value that the YAML parser gives, for a registry
-- whose machine entries are mappings.
pub mod Entries
pub mod Loading
pub mod Tests
use open_machine_protocol.Prelude.{
  ℕ, zero, suc, ◌+◌, ◌-◌, String, Bool, true, false, not, ◌&&◌, ◌||◌, Option, none, some, List, [],
  ◌∷◌, ◌++◌, str_eq, ◌==◌, ltb, leb, any, length, if◌then◌else◌,
}
use open_machine_protocol.Json.{Value, Items, Fields, get}
use open_machine_protocol.Json.Dumps.{codes}
use open_machine_protocol.Spec.{as_text, fields_of}

-- The messages of RegistryError, and TypeError where an entry has a value of another type.
pub data RegistryError : Type 0 where
  not_a_list : RegistryError
  missing : ℕ → String → RegistryError
  bad_id : ℕ → String → RegistryError
  duplicate : ℕ → String → RegistryError
  no_site : ℕ → RegistryError
  type_error : ℕ → RegistryError

pub data Loaded (A : Type 0) : Type 0 where
  loaded : A → Loaded A
  refused : RegistryError → Loaded A

-- [a-z0-9]
abbrev pub is_alnum : ℕ → Bool
is_alnum c = leb 97 c && leb c 122 || leb 48 c && leb c 57

unfoldable pub all_id_chars : List ℕ → Bool
all_id_chars [] = true
all_id_chars (c ∷ cs) = let rest = all_id_chars cs in if is_alnum c || c == 45 then rest else false

-- `_ID.fullmatch`: ^[a-z0-9][a-z0-9-]{2,62}$
unfoldable pub matches_id : List ℕ → Bool
unfolding all_id_chars
matches_id [] = false
matches_id (c ∷ cs) = is_alnum c && all_id_chars cs && leb 2 (length cs) && leb (length cs) 62

abbrev pub is_prefix : List ℕ → List ℕ → Bool
is_prefix [] cs = true
is_prefix (p ∷ ps) [] = false
is_prefix (p ∷ ps) (c ∷ cs) = p == c && is_prefix ps cs

-- `p in s`, on texts
abbrev pub is_infix : List ℕ → List ℕ → Bool
is_infix p [] = is_prefix p []
is_infix p (c ∷ cs) = is_prefix p (c ∷ cs) || is_infix p cs

abbrev pub is_text : String → Value → Bool
is_text k (Value.text s) = str_eq s k
is_text k _ = false

abbrev pub has_item : String → Items → Bool
has_item k Items.nil = false
has_item k (Items.cons v vs) = is_text k v || has_item k vs

abbrev pub is_some : Option Value → Bool
is_some none = false
is_some (some v) = true

-- `loc is not None and "site" not in loc`; `none` is TypeError, for a value without `in`
abbrev pub lacks_site : Option Value → Option Bool
lacks_site none = some false
lacks_site (some Value.null) = some false
lacks_site (some (Value.dict fs)) = some (not (is_some (get "site" fs)))
lacks_site (some (Value.list vs)) = some (not (has_item "site" vs))
lacks_site (some (Value.text s)) = some (not (is_infix (codes "site") (codes s)))
lacks_site _ = none

-- m.setdefault(k, v)
abbrev pub append_field : Fields → String → Value → Fields
append_field Fields.end k v = Fields.field k v Fields.end
append_field (Fields.field j w fs) k v = Fields.field j w (append_field fs k v)

unfoldable pub set_default : String → Value → Fields → Fields
set_default k v m = if is_some (get k m) then m else append_field m k v

-- The checks of an entry's id, and of its location; `seen` are the ids before it.
unfoldable pub check_id : ℕ → List String → Fields → String → Loaded String
unfolding matches_id
check_id i seen m mid =
    if not (matches_id (codes mid))
    then refused (bad_id i mid)
    else if any (λ s. str_eq s mid) seen
    then refused (duplicate i mid)
    else elim (lacks_site (get "location" m)) [
      | none ↦ refused (type_error i)
      | some lacks ↦ if lacks then refused (no_site i) else loaded mid
    ]

-- One round of the loop: the id of the entry, or what is wrong with it.
unfoldable pub check_machine : ℕ → List String → Fields → Loaded String
unfolding check_id
check_machine i seen m = elim (get "machine_id" m) [
  | none ↦ refused (missing i "machine_id")
  | some v ↦ elim (get "adapter" m) [
    | none ↦ refused (missing i "adapter")
    | some adapter ↦ elim (as_text (some v)) [
      | none ↦ refused (type_error i)
      | some mid ↦ check_id i seen m mid
    ]
  ]
]

-- the loop, on the entries from the `i`-th on
unfoldable pub load_machines : ℕ → List String → List Fields → Loaded (List Fields)
unfolding check_machine set_default
load_machines i seen [] = loaded []
load_machines i seen (m ∷ ms) = elim (check_machine i seen m) [
  | refused e ↦ refused e
  | loaded mid ↦ elim (load_machines (suc i) (mid ∷ seen) ms) [
    | refused e ↦ refused e
    | loaded rest ↦ loaded (set_default "config" (Value.dict Fields.end) m ∷ rest)
  ]
]

-- The entries; one that is no mapping is outside the model and is read as one with no field.
abbrev pub mappings : Items → List Fields
mappings Items.nil = []
mappings (Items.cons v vs) = fields_of v ∷ mappings vs

-- data.get("machines", []), which must be a list
abbrev pub machines_of : Option Value → Loaded (List Fields)
machines_of none = loaded []
machines_of (some (Value.list vs)) = loaded (mappings vs)
machines_of _ = refused not_a_list

-- The machines of the registry that is returned.
unfoldable pub load_registry : Fields → Loaded (List Fields)
unfolding load_machines
load_registry parsed = elim (machines_of (get "machines" parsed)) [
  | refused e ↦ refused e
  | loaded ms ↦ load_machines 0 [] ms
]
