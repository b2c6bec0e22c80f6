-- ===== src/Registry/Tests.antt =====
-- A registry of one machine with a location.
use open_machine_protocol.Prelude.{[], ◌∷◌, ◌≡◌, ◌↔◌, refl}
use open_machine_protocol.Json.{Value, Items, Fields, get}
use open_machine_protocol.Registry.{loaded, load_registry, machines_of}
use open_machine_protocol.Registry.Entries.{then_fields}
use open_machine_protocol.Registry.Loading.{AreMachines, load_registry_iff}

abbrev press : Fields
press = Fields.field "machine_id" (Value.text "press-01") (
    Fields.field "adapter" (Value.text "generic-serial") (
      Fields.field "location" (Value.dict (Fields.field "site" (Value.text "f1") Fields.end))
        Fields.end))

abbrev parsed : Fields
parsed = Fields.field "machines" (Value.list (Items.cons (Value.dict press) Items.nil)) Fields.end

abbrev with_config : Fields
with_config = then_fields press (Fields.field "config" (Value.dict Fields.end) Fields.end)

listed : machines_of (get "machines" parsed) ≡ loaded (press ∷ [])
unfolding get
listed = refl

load_registry_iff_example :
    (load_registry parsed ≡ loaded (with_config ∷ []))
    ↔ AreMachines [] (press ∷ []) (with_config ∷ [])
load_registry_iff_example = load_registry_iff parsed (press ∷ []) (with_config ∷ []) listed
