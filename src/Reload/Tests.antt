-- ===== src/Reload/Tests.antt =====
-- A reload that keeps one machine, restarts one, stops one and starts one. An entry is its configuration
-- text, and an adapter the text that it was started with.
use open_machine_protocol.Prelude.{String, Option, some, [], ◌∷◌, ◌≡◌, str_eq}
use open_machine_protocol.Dict.{Dict, lookup}
use open_machine_protocol.Reload.{Entry, Running, reload_table}
use open_machine_protocol.Reload.Table.{expected, reload_table-lookup}

abbrev starts : String → String → Option String
starts mid spec = some spec

abbrev entry : String → Entry String String
entry s = record { adapter = s; spec = s }

abbrev running : Running String String
running = ("keep", entry "a") ∷ ("change", entry "b") ∷ ("stop", entry "c") ∷ []

abbrev wanted : Dict String
wanted = ("keep", "a") ∷ ("change", "b2") ∷ ("new", "d") ∷ []

reload_table-lookup_example :
    lookup "change" (reload_table str_eq starts wanted running)
    ≡ expected str_eq starts "change" (lookup "change" wanted) (lookup "change" running)
reload_table-lookup_example = reload_table-lookup str_eq starts wanted running "change"
