-- ===== src/Cli/Tests.antt =====
-- A gateway that is installed, runs, and is shown; and a daemon that reloads and stops.
use open_machine_protocol.Prelude.{
  String, ◌≡◌, refl, str_eq, Bool-cases, inl, inr, if◌then◌else◌, Bool, true, false, not, Option,
  none, some, ℕ, List, [], ◌∷◌, arith, eq_iff,
}
use open_machine_protocol.Cli.{
  StateDir, identity, no_gateway_id, load_or_generate, line, Files, install, show_identity,
  run_identity,
}
use open_machine_protocol.Cli.Identity.{Strips, Keeps, identity-Keeps}
use open_machine_protocol.Dict.{Dict, lookup}
use open_machine_protocol.Store.{Store, empty}
use open_machine_protocol.Cli.Daemon.{Args, Daemon, Tick, left, start_all, loop, started, cmd_run}
use open_machine_protocol.Cli.Table.{IsTable}
use open_machine_protocol.Cli.Serving.{cmd_run-IsServing}
use open_machine_protocol.Reload.{Loading, exits, accepted, Running}
use open_machine_protocol.Cli.Passes.{IsServing, in_force, in_force_from}

-- Enough of `strip` for the ids below.
abbrev example_strip : String → String
example_strip s =
    if str_eq s "gw-b\n"
    then "gw-b"
    else if str_eq s "gw-unnamed-01\n"
    then "gw-unnamed-01"
    else "gw-a"

abbrev example_files : Files String
example_files = record { strip = example_strip; generated = "new key"; public_key_b64 = λ key. key }

abbrev empty_dir : StateDir String
empty_dir = record { id_file = none; key_file = none }

example_strip-again :
    (s : String) → example_strip (line example_files (example_strip s)) ≡ example_strip s
example_strip-again s = elim (Bool-cases (str_eq s "gw-b\n")) [
  | inl e ↦ rw e refl
  | inr e ↦ elim (Bool-cases (str_eq s "gw-unnamed-01\n")) [
    | inl f ↦ rw (e, f) refl
    | inr f ↦ rw (e, f) refl
  ]
]

example_files-Strips : Strips example_files
example_files-Strips = record { again = example_strip-again; unnamed = refl }

-- Run as "gw-a" where nothing was; install as the host "gw-b".
identity-Keeps_example :
    Keeps example_files (run_identity example_files (some "gw-a") true empty_dir)
    × Keeps example_files ("gw-b", some "new key", (install example_files none "gw-b" empty_dir).1)
    × ((install example_files none "gw-b" empty_dir).0
        ≡ show_identity example_files (install example_files none "gw-b" empty_dir).1)
identity-Keeps_example =
    identity-Keeps example_files example_files-Strips (some "gw-a") refl none "gw-b" refl empty_dir

installed_shown :
    show_identity example_files (install example_files none "gw-b" empty_dir).1
    ≡ identity "gw-b" "new key"
unfolding install show_identity load_or_generate
installed_shown = refl

empty_shown : show_identity example_files empty_dir ≡ no_gateway_id
unfolding show_identity
empty_shown = refl

-- A registry of one machine; a reload adds a second, and the stop event ends the next wait.
abbrev table : Dict String
table = ("m1", "a") ∷ []

abbrev larger : Dict String
larger = ("m1", "a") ∷ ("m2", "b") ∷ []

abbrev tick : Bool → Option (Loading String) → Tick String Unit
tick stop reload = record {
  stopped_before = false;
  stopped_in_wait = stop;
  reload = reload;
  mono_before = 0;
  mono_after = 10;
  now = 100;
  arrives = λ s ws. (s, ws);
}

abbrev ticks : List (Tick String Unit)
ticks = tick false (some (accepted larger)) ∷ tick true none ∷ []

text_self : (s : String) → str_eq s s ≡ true
text_self s = ground (arith, eq_iff s s)

abbrev args : Args
args = record { prune_interval = 3600; deadline = none; retention = 30; max_bytes = none }

abbrev adapter_of : String → String → Option String
adapter_of mid m = some mid

abbrev size : Store → ℕ
size s = 0

abbrev loads : String → String → Bool
loads mid m = not (str_eq m "missing")

abbrev begun : Running String String → Daemon String String Unit
begun running = started str_eq adapter_of loads size args [] 1 running empty

table-IsTable : IsTable table
unfolding lookup
table-IsTable = (refl, tt)

cmd_run-IsServing_example :
    (running : Running String String) × (start_all adapter_of loads table [] ≡ some running)
    × (d e : Daemon String String Unit) × (loop str_eq adapter_of loads size args [] ticks
          (begun running)
        ≡ left d)
    × IsServing str_eq args (in_force_from args (begun running).stop ticks table) d
    × (cmd_run str_eq adapter_of loads size args [] 1 table ticks (λ s ws. (s, ws)) empty ≡ left e)
    × ((mid : String) → lookup mid e.running ≡ none)
cmd_run-IsServing_example =
    cmd_run-IsServing str_eq adapter_of loads size args [] text_self table table-IsTable (refl, tt)
      ticks ((omega arith, (refl, (refl, tt))), ((omega arith, tt), tt)) refl 1 (λ s ws. (s, ws))
      empty

-- A reload whose registry names an adapter that is not there.
abbrev fatal : Tick String Unit
fatal = tick false (some exits)

-- What the reload put in force.
larger_taken : in_force args ticks table ≡ larger
unfolding in_force
larger_taken = refl
