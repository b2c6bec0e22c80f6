-- ===== src/Cli/Serving.antt =====
-- What runs while the daemon serves: machines of the registry in force. Nothing runs after its shutdown.
use open_machine_protocol.Prelude.{
  some, subst, ℕ, ◌≤◌, ◌≡◌, refl, ap, sym, String, Bool, true, false, ◌||◌, Option, none, List, [],
  ◌∷◌, arith, All, any, Bool-cases, inl, inr, if◌then◌else◌,
}
use open_machine_protocol.Dict.{Dict, lookup}
use open_machine_protocol.Store.{Store}
use open_machine_protocol.Exporter.Fanout.{Destination}
use open_machine_protocol.Cli.Daemon.{
  start_all, Args, Daemon, Tick, goes_on, breaks, raises, Passed, Looped, left, escaped, after_loop,
  after_wait, serve, pass, loop, drain, shut_down, started, cmd_run,
}
use open_machine_protocol.Reload.{exits, Running}
use open_machine_protocol.Cli.Table.{
  Serves, IsClean, IsBuildable, none_not_some, next_registry, IsTable, start_all-Serves,
  stop_all-lookup,
}
use open_machine_protocol.Cli.Passes.{leaves, in_force, in_force_from, IsServing, pass-Passes}

module _ {M A W : Type 0} (same : M → M → Bool) (launch : String → M → Option A)
    (constructs : String → M → Bool) (db_bytes : Store → ℕ) (args : Args)
    (destinations : List (Destination W)) (same_self : (m : M) → same m m ≡ true) where
  -- Nothing raises in a pass: its clock is not below the retention, and no adapter of a reload is missing.
  abbrev pub IsQuiet : Tick M W → Type 0
  IsQuiet t = (args.retention ≤ t.now) × IsClean constructs t.reload

  -- The loop is left, serving what is in force there.
  abbrev LeavesServing : Dict M → Looped (Daemon M A W) → Type 0
  LeavesServing wanted r = (d : Daemon M A W) × (r ≡ left d) × IsServing same args wanted d

  loop-LeavesServing :
      (ticks : List (Tick M W)) (wanted : Dict M) (d : Daemon M A W)
      → All IsQuiet ticks
      → any (leaves args) ticks ≡ true
      → d.stop ≡ false
      → IsServing same args wanted d
      → LeavesServing
          (in_force args ticks wanted)
          (loop same launch constructs db_bytes args destinations ticks d)
  unfolding loop in_force
  loop-LeavesServing [] wanted d fits some_leaves open_still h = absurd (ground arith)
  loop-LeavesServing (t ∷ ts) wanted d fits some_leaves open_still h =
      let here =
        pass-Passes same launch constructs db_bytes args destinations same_self wanted t d fits.0.0
          open_still fits.0.1 h in
      elim (Bool-cases (leaves args t)) [
        | inl out ↦ let (d', e, k) = (rw out at here) in rw (out, e, loop) (d', refl, k)
        | inr on ↦
            let (d', e, k, s) = (rw on at here) in
            rw (on, e, loop)
              (loop-LeavesServing ts (next_registry t.reload wanted) d' fits.1
                (rw on at some_leaves) s k)
      ]

  loop-stopped :
      (t : Tick M W) (ts : List (Tick M W)) (d : Daemon M A W)
      → d.stop ≡ true
      → loop same launch constructs db_bytes args destinations (t ∷ ts) d ≡ left d
  unfolding loop pass
  loop-stopped t ts d h = ap after_pass (ap pick h)
    where
      pick : Bool → Passed (Daemon M A W)
      pick b =
          if b || t.stopped_before
          then breaks d
          else if t.stopped_in_wait
          then breaks (after_wait same launch constructs db_bytes args destinations t d)
          else serve same launch constructs db_bytes args destinations t
              (after_wait same launch constructs db_bytes args destinations t d)

      after_pass : Passed (Daemon M A W) → Looped (Daemon M A W)
      after_pass r = elim r [
        | goes_on d' ↦ loop same launch constructs db_bytes args destinations ts d'
        | breaks d' ↦ left d'
        | raises ↦ escaped
      ]

  loop_from-LeavesServing :
      (ticks : List (Tick M W)) (wanted : Dict M) (d : Daemon M A W)
      → All IsQuiet ticks
      → any (leaves args) ticks ≡ true
      → IsServing same args wanted d
      → LeavesServing
          (in_force_from args d.stop ticks wanted)
          (loop same launch constructs db_bytes args destinations ticks d)
  loop_from-LeavesServing [] wanted d fits some_leaves h = absurd (ground arith)
  loop_from-LeavesServing (t ∷ ts) wanted d fits some_leaves h = elim (Bool-cases d.stop) [
    | inl stopped ↦ (
      d,
      loop-stopped t ts d stopped,
      subst (λ b. IsServing same args (in_force_from args b (t ∷ ts) wanted) d) (sym stopped) h,
    )
    | inr open_still ↦
        subst
          (λ b.
            LeavesServing (in_force_from args b (t ∷ ts) wanted)
              (loop same launch constructs db_bytes args destinations (t ∷ ts) d))
          (sym open_still) (loop-LeavesServing (t ∷ ts) wanted d fits some_leaves open_still h)
  ]

  started-IsServing :
      (fuel : ℕ) (machines : Dict M) (running : Running M A) (store : Store)
      → Serves same machines running
      → IsServing same args machines
          (started same launch constructs db_bytes args destinations fuel running store)
  unfolding started drain
  started-IsServing fuel machines running store h = (h, tt)

  -- What the loop starts with: the machines of a registry whose adapters all load.
  start-Serves :
      (machines : Dict M)
      → IsTable machines
      → IsBuildable constructs machines
      → (running : Running M A) × (start_all launch constructs machines [] ≡ some running)
        × Serves same machines running
  unfolding lookup
  start-Serves machines table built =
      start_all-Serves same launch same_self constructs machines machines [] table built
        (λ mid r e. absurd (none_not_some r e))

  -- Of a registry without an id that stands for two entries, all of whose adapters load, and passes of which
  -- one leaves the loop, none of them at a clock below the retention or with a reload that names an adapter
  -- that does not load: the daemon starts its machines and leaves its loop; at that point every machine that
  -- runs has the entry of the registry in force, which is the last that a reload accepted before, and no wait
  -- was longer than the prune interval; and the command then ends with no machine that runs.
  pub cmd_run-IsServing :
      (machines : Dict M)
      → IsTable machines
      → IsBuildable constructs machines
      → (ticks : List (Tick M W)) → All IsQuiet ticks
      → any (leaves args) ticks ≡ true
      → (fuel : ℕ) (arrives : Store → List W → Store × List W) (store : Store)
      → (running : Running M A) × (start_all launch constructs machines [] ≡ some running)
        × (d e : Daemon M A W) × (loop same launch constructs db_bytes args destinations ticks
              (started same launch constructs db_bytes args destinations fuel running store)
            ≡ left d)
        × IsServing same args
            (in_force_from args
              (started same launch constructs db_bytes args destinations fuel running store).stop
              ticks
              machines)
            d
        × (cmd_run same launch constructs db_bytes args destinations fuel machines ticks arrives
              store
            ≡ left e)
        × ((mid : String) → lookup mid e.running ≡ none)
  unfolding cmd_run shut_down drain
  cmd_run-IsServing machines table built ticks fits some_leaves fuel arrives store =
      let (running, begun, serving) = start-Serves machines table built in
      let s = started same launch constructs db_bytes args destinations fuel running store in
      let (d, e, k) =
        loop_from-LeavesServing ticks machines s fits some_leaves
          (started-IsServing fuel machines running store serving) in
      (
        running,
        begun,
        d,
        shut_down same launch constructs db_bytes args destinations fuel arrives d,
        e,
        k,
        rw (begun, cmd_run)
            (ap (after_loop same launch constructs db_bytes args destinations fuel arrives) e),
        λ mid. stop_all-lookup d.running mid,
      )

  -- A pass whose reload names an adapter directory without an adapter.
  pub record IsFatal (t : Tick M W) : Type 0 where
    pub goes_in : t.stopped_before ≡ false
    pub waits_out : t.stopped_in_wait ≡ false
    pub names_none : t.reload ≡ some exits
