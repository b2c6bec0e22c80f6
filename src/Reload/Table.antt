-- ===== src/Reload/Table.antt =====
-- What runs after a reload, machine by machine.
use open_machine_protocol.Prelude.{
  ◌≡◌, refl, sym, ap, ◌∙◌, subst, String, Bool, false, not, ◌&&◌, Option, none, some, str_eq,
  eq_iff, Bool-cases, Option-cases, inl, inr, if◌then◌else◌,
}
use open_machine_protocol.Dict.{Dict, lookup, lookup-insert, lookup-delete, lookup-insert_self}
use open_machine_protocol.Reload.{
  Entry, found, is_in, keys, each, Running, start_machine, stop_machine, start_wanted,
  restart_wanted, differs, removed_ids, changed_ids, added_ids, reload_table,
}
use open_machine_protocol.Reload.Names.{
  has, each_lem, has-select, has-keys, or_old, or_none, or_old-or_old,
}

module _ {M A : Type 0} (launch : String → M → Option A) where
  -- What a start of this machine puts into the table.
  abbrev pub launched : String → Option M → Option (Entry M A)
  launched mid none = none
  launched mid (some m) = elim (launch mid m) [
    | none ↦ none
    | some a ↦ some (record { adapter = a; spec = m })
  ]

  pub start_machine_self :
      (m : M) (j : String) (r : Running M A)
      → lookup j (start_machine launch j m r) ≡ or_old (launched j (some m)) (lookup j r)
  unfolding start_machine
  start_machine_self m j r = elim (Option-cases (launch j m)) [
    | inl fails ↦ rw (fails, start_machine, launched) refl
    | inr (a, e) ↦ rw (e, start_machine, launched) (lookup-insert_self j _ r)
  ]

  pub start_machine_ne :
      (m : M) (k j : String) (r : Running M A)
      → str_eq k j ≡ false
      → lookup j (start_machine launch k m r) ≡ lookup j r
  unfolding start_machine
  start_machine_ne m k j r h = elim (Option-cases (launch k m)) [
    | inl fails ↦ rw (fails, start_machine) refl
    | inr (a, e) ↦
        rw (e, start_machine, lookup-insert k j (record { adapter = a; spec = m }) r, h) refl
  ]

  start_wanted_self :
      (wanted : Dict M) (j : String) (r : Running M A)
      → lookup j (start_wanted launch wanted j r)
        ≡ or_old (launched j (lookup j wanted)) (lookup j r)
  unfolding start_wanted
  start_wanted_self wanted j r = elim (Option-cases (lookup j wanted)) [
    | inl gone ↦ rw (gone, start_wanted) refl
    | inr (m, e) ↦ rw (e, start_wanted) (start_machine_self m j r)
  ]

  start_wanted_ne :
      (wanted : Dict M) (k j : String) (r : Running M A)
      → str_eq k j ≡ false
      → lookup j (start_wanted launch wanted k r) ≡ lookup j r
  unfolding start_wanted
  start_wanted_ne wanted k j r h = elim (Option-cases (lookup k wanted)) [
    | inl gone ↦ rw (gone, start_wanted) refl
    | inr (m, e) ↦ rw (e, start_wanted) (start_machine_ne m k j r h)
  ]

  start_wanted_lem :
      (wanted : Dict M) (k j : String) (r : Running M A)
      → lookup j (start_wanted launch wanted k r)
        ≡ (if str_eq k j then or_old (launched j (lookup j wanted)) (lookup j r) else lookup j r)
  start_wanted_lem wanted k j r = elim (Bool-cases (str_eq k j)) [
    | inl same ↦ rw same (
        subst
          (λ i.
            lookup j (start_wanted launch wanted i r)
            ≡ or_old (launched j (lookup j wanted)) (lookup j r))
          (sym ((eq_iff k j).0 same)) (start_wanted_self wanted j r))
    | inr other ↦ rw other (start_wanted_ne wanted k j r other)
  ]

  restart_wanted_lem :
      (wanted : Dict M) (k j : String) (r : Running M A)
      → lookup j (restart_wanted launch wanted k r)
        ≡ (if str_eq k j then launched j (lookup j wanted) else lookup j r)
  unfolding restart_wanted stop_machine
  restart_wanted_lem wanted k j r = elim (Bool-cases (str_eq k j)) [
    | inl same ↦
        start_wanted_lem wanted k j (stop_machine k r)
        ∙ rw (same, stop_machine, lookup-delete k j r, same)
            (or_none (launched j (lookup j wanted)))
    | inr other ↦
        start_wanted_lem wanted k j (stop_machine k r)
        ∙ rw (other, stop_machine, lookup-delete k j r, other) refl
  ]

pub stop_machine_lem :
    {M A : Type 0} (k j : String) (r : Running M A)
    → lookup j (stop_machine k r) ≡ (if str_eq k j then none else lookup j r)
unfolding stop_machine
stop_machine_lem k j r = lookup-delete k j r

module _ {M A : Type 0} (same : M → M → Bool) (launch : String → M → Option A) where
  -- What runs under one id after a reload, from what is wanted found and what ran.
  abbrev pub expected : String → Option M → Option (Entry M A) → Option (Entry M A)
  expected mid none old = none
  expected mid (some m) none = launched launch mid (some m)
  expected mid (some m) (some r) = if same r.spec m then some r else launched launch mid (some m)

  -- The three loops, at one id.
  abbrev in_turn : String → Option M → Option (Entry M A) → Option (Entry M A)
  in_turn mid w old =
      let stopped = if found old && not (found w) then none else old in
      let restarted = if found w && differs same old w then launched launch mid w else stopped in
      if found w && not (found old) then or_old (launched launch mid w) restarted else restarted

  in_turn_lem :
      (mid : String) (w : Option M) (old : Option (Entry M A))
      → in_turn mid w old ≡ expected mid w old
  in_turn_lem mid none none = refl
  in_turn_lem mid none (some r) = refl
  in_turn_lem mid (some m) none = or_none (launched launch mid (some m))
  in_turn_lem mid (some m) (some r) = elim (Bool-cases (same r.spec m)) [
    | inl yes_same ↦ rw yes_same refl
    | inr differ ↦ rw differ refl
  ]

  module _ (wanted : Dict M) (running : Running M A) (mid : String) where
    removed_has :
        has mid (removed_ids wanted running) ≡ (is_in mid running && not (is_in mid wanted))
    unfolding removed_ids
    removed_has =
        has-select (λ k. not (is_in k wanted)) (keys running) mid
        ∙ ap (λ b. b && not (is_in mid wanted)) (has-keys running mid)

    changed_has :
        has mid (changed_ids same wanted running)
        ≡ (is_in mid wanted && differs same (lookup mid running) (lookup mid wanted))
    unfolding changed_ids
    changed_has =
        has-select (λ k. differs same (lookup k running) (lookup k wanted)) (keys wanted) mid
        ∙ ap (λ b. b && differs same (lookup mid running) (lookup mid wanted)) (has-keys wanted mid)

    added_has : has mid (added_ids wanted running) ≡ (is_in mid wanted && not (is_in mid running))
    unfolding added_ids
    added_has =
        has-select (λ k. not (is_in k running)) (keys wanted) mid
        ∙ ap (λ b. b && not (is_in mid running)) (has-keys wanted mid)

    after_stops :
        lookup mid (each stop_machine (removed_ids wanted running) running)
        ≡ (if is_in mid running && not (is_in mid wanted) then none else lookup mid running)
    after_stops =
        each_lem stop_machine (λ j x. none) stop_machine_lem (λ j x. refl)
          (removed_ids wanted running) mid running
        ∙ ap (λ b. if b then none else lookup mid running) removed_has

    after_restarts :
        (r : Running M A)
        → lookup mid (each (restart_wanted launch wanted) (changed_ids same wanted running) r) ≡ (
            if is_in mid wanted && differs same (lookup mid running) (lookup mid wanted)
            then launched launch mid (lookup mid wanted)
            else lookup mid r)
    after_restarts r =
        each_lem (restart_wanted launch wanted) (λ j x. launched launch j (lookup j wanted))
          (restart_wanted_lem launch wanted) (λ j x. refl) (changed_ids same wanted running) mid r
        ∙ ap (λ b. if b then launched launch mid (lookup mid wanted) else lookup mid r) changed_has

    after_starts :
        (r : Running M A)
        → lookup mid (each (start_wanted launch wanted) (added_ids wanted running) r) ≡ (
            if is_in mid wanted && not (is_in mid running)
            then or_old (launched launch mid (lookup mid wanted)) (lookup mid r)
            else lookup mid r)
    after_starts r =
        each_lem (start_wanted launch wanted)
          (λ j x. or_old (launched launch j (lookup j wanted)) x) (start_wanted_lem launch wanted)
          (λ j x. or_old-or_old (launched launch j (lookup j wanted)) x) (added_ids wanted running)
          mid r
        ∙ ap
            (λ b.
              if b
              then or_old (launched launch mid (lookup mid wanted)) (lookup mid r)
              else lookup mid r)
            added_has

  -- After a reload of an accepted registry, each machine that it does not name is gone, each whose entry
  -- is the same runs on untouched, and each that is new or whose entry differs is started anew, or is
  -- gone where it does not start.
  pub reload_table-lookup :
      (wanted : Dict M) (running : Running M A) (mid : String)
      → lookup mid (reload_table same launch wanted running)
        ≡ expected mid (lookup mid wanted) (lookup mid running)
  unfolding reload_table
  reload_table-lookup wanted running mid =
      let stopped = each stop_machine (removed_ids wanted running) running in
      let restarted =
        each (restart_wanted launch wanted) (changed_ids same wanted running) stopped in
      after_starts wanted running mid restarted
      ∙ ap
          (λ x.
            if is_in mid wanted && not (is_in mid running)
            then or_old (launched launch mid (lookup mid wanted)) x
            else x)
          (after_restarts wanted running mid stopped
            ∙ ap
                (λ x.
                  if is_in mid wanted && differs same (lookup mid running) (lookup mid wanted)
                  then launched launch mid (lookup mid wanted)
                  else x)
                (after_stops wanted running mid))
      ∙ in_turn_lem mid (lookup mid wanted) (lookup mid running)
