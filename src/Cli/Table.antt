-- ===== src/Cli/Table.antt =====
-- What the starts, the reloads and the shutdown of the daemon make of the table of running machines.
use open_machine_protocol.Prelude.{
  subst, ◌≡◌, ◌⊎◌, refl, ap, sym, ◌∙◌, String, Bool, true, false, not, List, Option, none, some, [],
  ◌∷◌, arith, All, str_eq, eq_iff, Bool-cases, Option-cases, inl, inr, if◌then◌else◌,
}
use open_machine_protocol.Dict.{Dict, lookup}
use open_machine_protocol.Reload.{
  Entry, Loading, refused, exits, accepted, returned, escapes, Report, start_raises, reload_table,
  keys, found, Running, start_machine, stop_machine, apply_reload,
}
use open_machine_protocol.Reload.Names.{each_lem, has-keys, or_old}
use open_machine_protocol.Reload.Table.{
  launched, start_machine_self, start_machine_ne, stop_machine_lem, expected, reload_table-lookup,
}
use open_machine_protocol.Cli.Daemon.{start_all, stop_all}

pub none_not_some : {B : Type 0} (b : B) → none ≡ some b → ⊥
none_not_some b h = ground arith

some_eq : {B : Type 0} (a b : B) → some a ≡ some b → a ≡ b
some_eq a b h = cc

module _ {M A : Type 0} (same : M → M → Bool) where
  -- The entry of what runs is the one that is wanted.
  abbrev Fits : Option M → Entry M A → Type 0
  Fits w r = (m : M) × (w ≡ some m) × (same r.spec m ≡ true)

  -- Every machine that runs has the entry of the registry.
  abbrev pub Serves : Dict M → Running M A → Type 0
  Serves wanted running =
      (mid : String) (r : Entry M A) → lookup mid running ≡ some r → Fits (lookup mid wanted) r

module _ {M : Type 0} where
  -- The registry that a reload that a pass finds puts in force.
  abbrev pub next_registry : Option (Loading M) → Dict M → Dict M
  next_registry none wanted = wanted
  next_registry (some refused) wanted = wanted
  next_registry (some exits) wanted = wanted
  next_registry (some (accepted loaded)) wanted = loaded

  -- No id stands in it with two entries, as load_registry makes sure.
  abbrev pub IsTable : Dict M → Type 0
  IsTable wanted = All (λ entry. lookup entry.0 wanted ≡ some entry.1) wanted

module _ {M : Type 0} (constructs : String → M → Bool) where
  -- The adapter of every entry loads and is constructed.
  abbrev pub IsBuildable : Dict M → Type 0
  IsBuildable wanted = All (λ entry. constructs entry.0 entry.1 ≡ true) wanted

  -- No adapter of a reload is missing.
  abbrev pub IsClean : Option (Loading M) → Type 0
  IsClean none = Unit
  IsClean (some refused) = Unit
  IsClean (some exits) = ⊥
  IsClean (some (accepted wanted)) = IsBuildable wanted

  lookup-builds :
      (wanted : Dict M)
      → IsBuildable wanted
      → (mid : String)
      → (elim (lookup mid wanted) [ none ↦ false | some m ↦ not (constructs mid m) ]) ≡ false
  unfolding lookup
  lookup-builds [] h mid = refl
  lookup-builds ((k, m) ∷ wanted) h mid = elim (Bool-cases (str_eq k mid)) [
    | inl same ↦
        let e : constructs mid m ≡ true =
          subst (λ j. constructs j m ≡ true) ((eq_iff k mid).0 same) h.0 in
        rw (same, e) refl
    | inr other ↦ rw other (lookup-builds wanted h.1 mid)
  ]

  start_raises-IsBuildable :
      (wanted : Dict M)
      → IsBuildable wanted
      → (mids : List String) → start_raises constructs wanted mids ≡ false
  start_raises-IsBuildable wanted h [] = refl
  start_raises-IsBuildable wanted h (mid ∷ mids) =
      rw (lookup-builds wanted h mid) (start_raises-IsBuildable wanted h mids)

module _ {M A : Type 0} (same : M → M → Bool) (launch : String → M → Option A)
    (same_self : (m : M) → same m m ≡ true) where
  launched-Fits :
      (mid : String) (m : M) (r : Entry M A)
      → launched launch mid (some m) ≡ some r
      → Fits same (some m) r
  launched-Fits mid m r h = elim (Option-cases (launch mid m)) [
    | inl fails ↦ absurd (none_not_some r (rw (fails, launched) at h))
    | inr (a, e) ↦ (
      m,
      refl,
      subst (λ x. same x.spec m ≡ true)
          (some_eq (record { adapter = a; spec = m }) r (rw (e, launched) at h)) (same_self m),
    )
  ]

  expected-Fits :
      (mid : String) (w : Option M) (old : Option (Entry M A)) (r : Entry M A)
      → expected same launch mid w old ≡ some r
      → Fits same w r
  expected-Fits mid none old r h = absurd (none_not_some r h)
  expected-Fits mid (some m) none r h = launched-Fits mid m r h
  expected-Fits mid (some m) (some x) r h = elim (Bool-cases (same x.spec m)) [
    | inl alike ↦ (m, refl, subst (λ y. same y.spec m ≡ true) (some_eq x r (rw alike at h)) alike)
    | inr differ ↦ launched-Fits mid m r (rw differ at h)
  ]

  -- A reload with nothing missing returns, and what runs then is of the registry in force.
  pub apply_reload-Serves :
      (constructs : String → M → Bool) (wanted : Dict M) (loading : Loading M)
      (running : Running M A)
      → IsClean constructs (some loading)
      → Serves same wanted running
      → (next : Running M A) × (report : Option Report) × (apply_reload same launch constructs
            loading running
          ≡ returned next report)
        × Serves same (next_registry (some loading) wanted) next
  unfolding apply_reload
  apply_reload-Serves constructs wanted refused running clean h = (running, none, refl, h)
  apply_reload-Serves constructs wanted exits running clean h = absurd clean
  apply_reload-Serves constructs wanted (accepted loaded) running clean h =
      reported _ _ (reload_table same launch loaded running)
        (start_raises-IsBuildable constructs loaded clean _)
        (λ mid r e.
          expected-Fits mid (lookup mid loaded) (lookup mid running) r
            (sym (reload_table-lookup same launch loaded running mid) ∙ e))
    where
      reported :
          (raising : Bool) (report : Option Report) (next : Running M A)
          → raising ≡ false
          → Serves same loaded next
          → (n : Running M A) × (r : Option Report) × ((if raising
                then escapes
                else returned next report)
              ≡ returned n r)
            × Serves same loaded n
      reported raising report next e k = (next, report, rw e refl, k)

  Serves-start :
      (wanted : Dict M) (mid : String) (m : M) (running : Running M A)
      → lookup mid wanted ≡ some m
      → Serves same wanted running
      → Serves same wanted (start_machine launch mid m running)
  Serves-start wanted mid m running known h j r e = elim (Bool-cases (str_eq mid j)) [
    | inr other ↦ h j r (sym (start_machine_ne launch m mid j running other) ∙ e)
    | inl here ↦
        subst
          (λ i.
            lookup i (start_machine launch mid m running) ≡ some r → Fits same (lookup i wanted) r)
          ((eq_iff mid j).0 here) itself e
  ]
    where
      one_of : (x old : Option (Entry M A)) → or_old x old ≡ some r → (x ≡ some r) ⊎ (old ≡ some r)
      one_of none old k = inr k
      one_of (some x) old k = inl k

      itself :
          lookup mid (start_machine launch mid m running) ≡ some r → Fits same (lookup mid wanted) r
      itself k =
          elim (one_of (launched launch mid (some m)) (lookup mid running)
            (sym (start_machine_self launch m mid running) ∙ k)) [
              | inl anew ↦ subst (λ w. Fits same w r) (sym known) (launched-Fits mid m r anew)
              | inr old ↦ h mid r old
            ]

  pub start_all-Serves :
      (constructs : String → M → Bool) (wanted machines : Dict M) (running : Running M A)
      → All (λ entry. lookup entry.0 wanted ≡ some entry.1) machines
      → IsBuildable constructs machines
      → Serves same wanted running
      → (next : Running M A) × (start_all launch constructs machines running ≡ some next)
        × Serves same wanted next
  unfolding start_all
  start_all-Serves constructs wanted [] running known built h = (running, refl, h)
  start_all-Serves constructs wanted ((mid, m) ∷ machines) running known built h =
      rw (built.0, start_all)
        (start_all-Serves constructs wanted machines (start_machine launch mid m running) known.1
          built.1 (Serves-start wanted mid m running known.0 h))

-- After the shutdown nothing runs.
pub stop_all-lookup :
    {M A : Type 0} (running : Running M A) (mid : String) → lookup mid (stop_all running) ≡ none
unfolding stop_all
stop_all-lookup running mid =
    each_lem stop_machine (λ j x. none) stop_machine_lem (λ j x. refl) (keys running) mid running
    ∙ ap (λ b. if b then none else lookup mid running) (has-keys running mid)
    ∙ gone (lookup mid running)
  where
    gone : {V : Type 0} (x : Option V) → (if found x then none else x) ≡ none
    gone none = refl
    gone (some v) = refl
