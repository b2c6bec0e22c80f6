-- ===== src/Reload.antt =====
-- `start_machine`, `stop_machine` and `apply_reload` in `cmd_run` of gateway/omp/cli.py, on the table of
-- the machines that run. The specification of a machine is its registry entry `M`, compared by `same`;
-- `A` is an adapter with its thread, and `launch` the probe, the announcement and the start of the
-- thread, `none` where one of the first two raises. Where an adapter does not load, the exception leaves
-- the command.
pub mod Names
pub mod Table
pub mod Tests
use open_machine_protocol.Prelude.{
  ℕ, ◌+◌, ◌-◌, String, Bool, true, false, not, ◌&&◌, Option, none, some, List, [], ◌∷◌, ◌++◌,
  str_eq, any, select, length, if◌then◌else◌,
}
use open_machine_protocol.Dict.{Dict, lookup, insert, delete}

pub record Entry (M A : Type 0) : Type 0 where
  pub adapter : A
  pub spec : M

-- the counts that a reload prints
pub record Report : Type 0 where
  pub added : ℕ
  pub removed : ℕ
  pub changed : ℕ
  pub untouched : ℕ

-- What a requested reload finds, before it touches anything: an exception, which refuses the registry;
-- the SystemExit of load_adapter_class, which `except Exception` does not catch; or the entries.
pub data Loading (M : Type 0) : Type 0 where
  refused : Loading M
  exits : Loading M
  accepted : Dict M → Loading M

abbrev pub found : {V : Type 0} → Option V → Bool
found none = false
found (some v) = true

abbrev pub is_in : {V : Type 0} → String → Dict V → Bool
is_in k d = found (lookup k d)

unfoldable pub keys : {V : Type 0} → Dict V → List String
keys [] = []
keys ((k, v) ∷ d) = k ∷ keys d

-- `for mid in mids: f(mid)`
unfoldable pub each : {S : Type 0} → (String → S → S) → List String → S → S
each f [] r = r
each f (k ∷ ks) r = each f ks (f k r)

abbrev pub Running : Type 0 → Type 0 → Type 0
Running M A = Dict (Entry M A)

-- The table after a reload with what it prints, or an exception leaves the command.
pub data Reloaded (M A : Type 0) : Type 0 where
  returned : Running M A → Option Report → Reloaded M A
  escapes : Reloaded M A

module _ {M A : Type 0} where
  unfoldable pub stop_machine : String → Running M A → Running M A
  stop_machine mid running = delete mid running

  unfoldable pub removed_ids : Dict M → Running M A → List String
  unfolding keys
  removed_ids wanted running = select (λ mid. not (is_in mid wanted)) (keys running)

  unfoldable pub added_ids : Dict M → Running M A → List String
  unfolding keys
  added_ids wanted running = select (λ mid. not (is_in mid running)) (keys wanted)

module _ {M A : Type 0} (launch : String → M → Option A) where
  unfoldable pub start_machine : String → M → Running M A → Running M A
  start_machine mid m running = elim (launch mid m) [
    | none ↦ running
    | some a ↦ insert mid (record { adapter = a; spec = m }) running
  ]

  -- start_machine(wanted[mid])
  unfoldable pub start_wanted : Dict M → String → Running M A → Running M A
  unfolding start_machine
  start_wanted wanted mid running = elim (lookup mid wanted) [
    | none ↦ running
    | some m ↦ start_machine mid m running
  ]

  unfoldable pub restart_wanted : Dict M → String → Running M A → Running M A
  unfolding start_wanted stop_machine
  restart_wanted wanted mid running = start_wanted wanted mid (stop_machine mid running)

module _ {M A : Type 0} (same : M → M → Bool) where
  -- `running[mid]["spec"] != m`, where both are there
  abbrev pub differs : Option (Entry M A) → Option M → Bool
  differs (some r) (some m) = not (same r.spec m)
  differs _ _ = false

  unfoldable pub changed_ids : Dict M → Running M A → List String
  unfolding keys
  changed_ids wanted running =
      select (λ mid. differs (lookup mid running) (lookup mid wanted)) (keys wanted)

module _ {M : Type 0} where
  -- start_machine is called, and the class of the adapter does not load or its constructor raises.
  abbrev pub start_raises : (String → M → Bool) → Dict M → List String → Bool
  start_raises constructs wanted mids =
      any (λ mid. elim (lookup mid wanted) [ none ↦ false | some m ↦ not (constructs mid m) ]) mids

module _ {M A : Type 0} (same : M → M → Bool) (launch : String → M → Option A) where
  -- the three loops
  unfoldable pub reload_table : Dict M → Running M A → Running M A
  unfolding removed_ids changed_ids added_ids each stop_machine restart_wanted start_wanted
  reload_table wanted running =
      let stopped = each stop_machine (removed_ids wanted running) running in
      let restarted =
        each (restart_wanted launch wanted) (changed_ids same wanted running) stopped in
      each (start_wanted launch wanted) (added_ids wanted running) restarted

  -- `constructs` is whether the adapter of an entry loads and is constructed in start_machine.
  unfoldable pub apply_reload : (String → M → Bool) → Loading M → Running M A → Reloaded M A
  unfolding reload_table removed_ids changed_ids added_ids
  apply_reload constructs refused running = returned running none
  apply_reload constructs exits running = escapes
  apply_reload constructs (accepted wanted) running =
      let added = added_ids wanted running in
      let changed = changed_ids same wanted running in
      let next = reload_table wanted running in
      if start_raises constructs wanted (changed ++ added)
      then escapes
      else returned next (
          some (record {
            added = length added;
            removed = length (removed_ids wanted running);
            changed = length changed;
            untouched = length next - length added - length changed;
          }))
