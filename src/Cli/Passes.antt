-- ===== src/Cli/Passes.antt =====
-- One pass of the daemon's loop: whether it leaves the loop, and that it serves the registry in force.
use open_machine_protocol.Prelude.{
  subst, ℕ, ◌≤◌, ◌≡◌, ◌≢◌, refl, sym, ◌∙◌, String, Bool, true, false, not, ◌&&◌, ◌||◌, Option, none,
  some, List, [], ◌∷◌, arith, All, All-append, ltb, ◌==◌, Bool-cases, Option-cases, inl, inr,
  if◌then◌else◌,
}
use open_machine_protocol.Dict.{Dict}
use open_machine_protocol.Store.{Store}
use open_machine_protocol.Store.Prune.{min_cursor, prune}
use open_machine_protocol.Exporter.Fanout.{Destination}
use open_machine_protocol.Reload.{found}
use open_machine_protocol.Cli.Daemon.{
  Args, Daemon, Tick, wait_for, is_past, goes_on, breaks, Passed, after_wait, pruned, serve, pass,
  exporter_names,
}
use open_machine_protocol.Reload.{Loading}
use open_machine_protocol.Cli.Table.{
  IsClean, none_not_some, Serves, next_registry, apply_reload-Serves,
}

module _ {M W : Type 0} (args : Args) where
  -- The passes that leave the loop.
  abbrev pub leaves : Tick M W → Bool
  leaves t =
      t.stopped_before
      || (t.stopped_in_wait || (not (found t.reload) && is_past args.deadline t.mono_after))

  -- The registry in force where the loop is left: the last that was accepted before.
  unfoldable pub in_force : List (Tick M W) → Dict M → Dict M
  in_force [] wanted = wanted
  in_force (t ∷ ts) wanted =
      let later = in_force ts (next_registry t.reload wanted) in if leaves t then wanted else later

  -- The registry in force where the loop is left, if `stop` was set before it.
  abbrev pub in_force_from : Bool → List (Tick M W) → Dict M → Dict M
  in_force_from stop ticks machines = if stop then machines else in_force ticks machines

module _ {M A W : Type 0} (same : M → M → Bool) (args : Args) where
  -- Every machine that runs has the entry of the registry, and no wait was longer than the interval.
  abbrev pub IsServing : Dict M → Daemon M A W → Type 0
  IsServing wanted d = Serves same wanted d.running × All (λ w. w ≤ args.prune_interval) d.waits

module _ {M A W : Type 0} (same : M → M → Bool) (launch : String → M → Option A)
    (constructs : String → M → Bool) (db_bytes : Store → ℕ) (args : Args)
    (destinations : List (Destination W)) (same_self : (m : M) → same m m ≡ true) where
  -- A retention that reaches back no further than the clock raises nothing.
  prune_returns :
      (names : List String) (now : ℕ) (s : Store)
      → args.retention ≤ now
      → prune db_bytes names args.retention args.max_bytes now s ≢ none
  unfolding prune
  prune_returns [] now s fits h = none_not_some _ (sym h)
  prune_returns (name ∷ names) now s fits h = elim (Bool-cases (min_cursor s name names == 0)) [
    | inl none_read ↦ none_not_some _ (sym (rw none_read at h))
    | inr some_read ↦ none_not_some _ (sym (rw (some_read, not_ltb now args.retention fits) at h))
  ]
    where
      not_ltb : (a b : ℕ) → b ≤ a → ltb a b ≡ false
      not_ltb a b le = ground arith

  pruned-IsServing :
      (wanted : Dict M) (t : Tick M W) (d : Daemon M A W)
      → args.retention ≤ t.now
      → IsServing same args wanted d
      → (d' : Daemon M A W) × (pruned same launch constructs db_bytes args destinations t d
          ≡ goes_on d')
        × IsServing same args wanted d'
        × (d'.stop ≡ d.stop)
  unfolding pruned
  pruned-IsServing wanted t d fits h =
      let names = exporter_names same launch constructs db_bytes args destinations in
      elim (Option-cases (prune db_bytes names args.retention args.max_bytes t.now d.store)) [
        | inl fails ↦ absurd (prune_returns names t.now d.store fits fails)
        | inr (r, e) ↦ (record d { store = r.1 }, rw (e, pruned) refl, h, refl)
      ]

  after_wait-IsServing :
      (wanted : Dict M) (t : Tick M W) (d : Daemon M A W)
      → IsServing same args wanted d
      → IsServing same args wanted
          (after_wait same launch constructs db_bytes args destinations t d)
  after_wait-IsServing wanted t d h =
      (h.0, All-append _ d.waits (_ ∷ []) h.1 (in_time args.deadline, tt))
    where
      in_time :
          (deadline : Option ℕ)
          → wait_for (record args { deadline = deadline }) t.mono_before ≤ args.prune_interval
      in_time none = omega arith
      in_time (some deadline) = omega arith

  -- A pass on its way, by whether it leaves the loop.
  abbrev Passes : Dict M → Tick M W → Passed (Daemon M A W) → Bool → Type 0
  Passes wanted t r true = (d : Daemon M A W) × (r ≡ breaks d) × IsServing same args wanted d
  Passes wanted t r false =
      (d : Daemon M A W) × (r ≡ goes_on d)
      × IsServing same args (next_registry t.reload wanted) d
      × (d.stop ≡ false)

  serve-Passes :
      (wanted : Dict M) (t : Tick M W) (d : Daemon M A W)
      → args.retention ≤ t.now
      → d.stop ≡ false
      → IsClean constructs t.reload
      → IsServing same args wanted d
      → Passes wanted t
          (serve same launch constructs db_bytes args destinations t d)
          (not (found t.reload) && is_past args.deadline t.mono_after)
  unfolding serve
  serve-Passes wanted t d fits open_still clean h = on_reload t.reload clean
    where
      on_reload :
          (x : Option (Loading M))
          → IsClean constructs x
          → Passes wanted
              (record t { reload = x })
              (serve same launch constructs db_bytes args destinations (record t { reload = x }) d)
              (not (found x) && is_past args.deadline t.mono_after)
      on_reload (some loading) clean =
          let (running, report, e, k) =
            apply_reload-Serves same launch same_self constructs wanted loading d.running clean
              h.0 in
          (record d { running = running }, rw (e, serve) refl, (k, h.1), open_still)
      on_reload none clean = elim (Bool-cases (is_past args.deadline t.mono_after)) [
        | inl past ↦ rw past (d, refl, h)
        | inr early ↦
            let (d', e, k, s) = pruned-IsServing wanted (record t { reload = none }) d fits h in
            rw early (d', e, k, s ∙ open_still)
      ]

  pub pass-Passes :
      (wanted : Dict M) (t : Tick M W) (d : Daemon M A W)
      → args.retention ≤ t.now
      → d.stop ≡ false
      → IsClean constructs t.reload
      → IsServing same args wanted d
      → Passes wanted t (pass same launch constructs db_bytes args destinations t d) (leaves args t)
  unfolding pass
  pass-Passes wanted t d fits open_still clean h =
      subst
        (λ b. Passes wanted t (flagged (b || t.stopped_before) t.stopped_in_wait) (leaves args t))
        (sym open_still)
        (on_flags t.stopped_before t.stopped_in_wait _
          (serve-Passes wanted t waited fits open_still clean later))
    where
      waited : Daemon M A W
      waited = after_wait same launch constructs db_bytes args destinations t d

      later : IsServing same args wanted waited
      later = after_wait-IsServing wanted t d h

      flagged : Bool → Bool → Passed (Daemon M A W)
      flagged b c =
          if b
          then breaks d
          else if c
          then breaks waited
          else serve same launch constructs db_bytes args destinations t waited

      on_flags :
          (b c e : Bool)
          → Passes wanted t (serve same launch constructs db_bytes args destinations t waited) e
          → Passes wanted t (flagged b c) (b || (c || e))
      on_flags true c e k = (d, refl, h)
      on_flags false true e k = (waited, refl, later)
      on_flags false false e k = k
