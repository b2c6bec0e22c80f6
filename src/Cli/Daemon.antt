-- ===== src/Cli/Daemon.antt =====
-- `cmd_run` of gateway/omp/cli.py, from the start of the machines on: the first drain, the loop that waits,
-- reloads and prunes, and the shutdown. A tick is one pass of the loop with what it meets: the stop event,
-- what a requested reload loads, the clocks, and what the adapters' threads do during the wait; what the
-- announcement of a started machine puts into the store counts among it.
use open_machine_protocol.Prelude.{
  ℕ, ◌-◌, ◌||◌, String, Bool, true, false, not, Option, none, some, List, [], ◌∷◌, ◌++◌, leb, map,
  min, if◌then◌else◌,
}
use open_machine_protocol.Dict.{Dict}
use open_machine_protocol.Store.{Store}
use open_machine_protocol.Store.Prune.{prune}
use open_machine_protocol.Exporter.Fanout.{Destination, drain_all}
use open_machine_protocol.Reload.{
  Running, keys, each, Loading, returned, escapes, start_machine, stop_machine, apply_reload,
}

pub record Args : Type 0 where
  pub prune_interval : ℕ
  pub deadline : Option ℕ
  pub retention : ℕ
  pub max_bytes : Option ℕ

-- The machines that run, the store, the state of each destination, the stop event as `drain` sets it, and
-- the waits so far.
pub record Daemon (M A W : Type 0) : Type 0 where
  pub running : Running M A
  pub store : Store
  pub worlds : List W
  pub stop : Bool
  pub waits : List ℕ

pub record Tick (M W : Type 0) : Type 0 where
  pub stopped_before : Bool
  pub stopped_in_wait : Bool
  -- if one is requested
  pub reload : Option (Loading M)
  pub mono_before : ℕ
  pub mono_after : ℕ
  pub now : ℕ
  pub arrives : Store → List W → Store × List W

-- `wait`
abbrev pub wait_for : Args → ℕ → ℕ
wait_for args now = elim args.deadline [
  | none ↦ args.prune_interval
  | some deadline ↦ min args.prune_interval (deadline - now)
]

abbrev pub is_past : Option ℕ → ℕ → Bool
is_past none now = false
is_past (some deadline) now = leb deadline now

-- A pass goes on, or leaves the loop, or an exception leaves the command.
pub data Passed (S : Type 0) : Type 0 where
  goes_on : S → Passed S
  breaks : S → Passed S
  raises : Passed S

-- How the loop ends: it is left, the ticks are used up in it, or an exception leaves the command.
pub data Looped (S : Type 0) : Type 0 where
  left : S → Looped S
  still_in : S → Looped S
  escaped : Looped S

abbrev pub with_world : {W : Type 0} → Destination W → W → Destination W
with_world d w = record d { world = w }

-- The exporters, in the state that their destinations are in.
unfoldable pub destinations_in : {W : Type 0} → List (Destination W) → List W → List (Destination W)
destinations_in [] ws = []
destinations_in (d ∷ ds) [] = d ∷ ds
destinations_in (d ∷ ds) (w ∷ ws) = with_world d w ∷ destinations_in ds ws

-- `for m in registry.get("machines", [])`; an adapter that does not load raises, and no machine is skipped
-- but those whose probe or announcement raises.
module _ {M A : Type 0} (launch : String → M → Option A) (constructs : String → M → Bool) where
  unfoldable pub start_all : Dict M → Running M A → Option (Running M A)
  unfolding start_machine
  start_all [] running = some running
  start_all ((mid, m) ∷ machines) running = elim (constructs mid m) [
    | false ↦ none
    | true ↦ start_all machines (start_machine launch mid m running)
  ]

-- `for machine_id in list(running)`
unfoldable pub stop_all : {M A : Type 0} → Running M A → Running M A
unfolding each keys stop_machine
stop_all running = each stop_machine (keys running) running

module _ {M A W : Type 0} (same : M → M → Bool) (launch : String → M → Option A)
    (constructs : String → M → Bool) (db_bytes : Store → ℕ) (args : Args)
    (destinations : List (Destination W)) where
  abbrev pub exporter_names : List String
  exporter_names = map (λ d. d.name) destinations

  -- What the threads did by the end of the wait.
  abbrev pub after_wait : Tick M W → Daemon M A W → Daemon M A W
  after_wait t d =
      let (store, worlds) = t.arrives d.store d.worlds in
      record d {
        store = store;
        worlds = worlds;
        waits = d.waits ++ wait_for args t.mono_before ∷ [];
      }

  unfoldable pub pruned : Tick M W → Daemon M A W → Passed (Daemon M A W)
  unfolding prune
  pruned t d = elim (prune db_bytes exporter_names args.retention args.max_bytes t.now d.store) [
    | none ↦ raises
    | some (summary, store) ↦ goes_on (record d { store = store })
  ]

  -- What follows a wait that the stop event did not end.
  unfoldable pub serve : Tick M W → Daemon M A W → Passed (Daemon M A W)
  unfolding apply_reload pruned
  serve t d = elim t.reload [
    | some loading ↦ elim (apply_reload same launch constructs loading d.running) [
      | returned running report ↦ goes_on (record d { running = running })
      | escapes ↦ raises
    ]
    | none ↦ if is_past args.deadline t.mono_after then breaks d else pruned t d
  ]

  unfoldable pub pass : Tick M W → Daemon M A W → Passed (Daemon M A W)
  unfolding serve
  pass t d =
      if d.stop || t.stopped_before
      then breaks d
      else if t.stopped_in_wait
      then breaks (after_wait t d)
      else serve t (after_wait t d)

  unfoldable pub loop : List (Tick M W) → Daemon M A W → Looped (Daemon M A W)
  unfolding pass
  loop [] d = still_in d
  loop (t ∷ ts) d = elim (pass t d) [
    | goes_on d' ↦ loop ts d'
    | breaks d' ↦ left d'
    | raises ↦ escaped
  ]

  -- `drain()`, which sets the stop event where a destination is gone.
  unfoldable pub drain : ℕ → Daemon M A W → Daemon M A W
  unfolding drain_all destinations_in
  drain fuel d =
      let done = drain_all fuel (destinations_in destinations d.worlds) d.store in
      record d { store = done.store; worlds = done.worlds; stop = d.stop || not done.open_still }

  -- The shutdown, up to the end of the process; `arrives` is what the adapters still do until they have
  -- stopped.
  unfoldable pub shut_down : ℕ → (Store → List W → Store × List W) → Daemon M A W → Daemon M A W
  unfolding stop_all drain
  shut_down fuel arrives d =
      let (store, worlds) = arrives d.store d.worlds in
      drain fuel (record d { running = stop_all d.running; store = store; worlds = worlds })

  -- The daemon as the loop starts, with these machines.
  unfoldable pub started : ℕ → Running M A → Store → Daemon M A W
  unfolding drain
  started fuel running store = drain fuel (record {
    running = running;
    store = store;
    worlds = map (λ d. d.world) destinations;
    stop = false;
    waits = [];
  })

  abbrev pub after_loop :
      ℕ → (Store → List W → Store × List W) → Looped (Daemon M A W) → Looped (Daemon M A W)
  after_loop fuel arrives (left d) = left (shut_down fuel arrives d)
  after_loop fuel arrives (still_in d) = still_in d
  after_loop fuel arrives escaped = escaped

  unfoldable pub cmd_run :
      ℕ
      → Dict M
      → List (Tick M W)
      → (Store → List W → Store × List W)
      → Store
      → Looped (Daemon M A W)
  unfolding start_all started loop shut_down
  cmd_run fuel machines ticks arrives store = elim (start_all launch constructs machines []) [
    | none ↦ escaped
    | some running ↦ after_loop fuel arrives (loop ticks (started fuel running store))
  ]
