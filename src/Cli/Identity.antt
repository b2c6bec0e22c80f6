-- ===== src/Cli/Identity.antt =====
-- The identity of a gateway outlives its process: what `cmd_run` and `cmd_install` leave is what
-- `cmd_show_identity` prints and what the next run takes.
use open_machine_protocol.Prelude.{
  arith, String, ◌≡◌, refl, ap, sym, true, Option, none, some, str_eq, eq_iff, Bool-cases, inl, inr,
}
use open_machine_protocol.Cli.{
  StateDir, identity, Files, line, load_or_generate, or_host, install, show_identity, current,
  or_current, persist, run_identity,
}

module _ {Key : Type 0} (files : Files Key) where
  -- Reading an id back from its line gives it again: it has no space at its ends.
  abbrev pub IsTrimmed : String → Type 0
  IsTrimmed id = files.strip (line files id) ≡ id

  abbrev pub IsGiven : Option String → Type 0
  IsGiven none = Unit
  IsGiven (some id) = IsTrimmed id

  -- What `strip` does on a text that it has stripped already, and on the default.
  pub record Strips : Type 0 where
    pub again : (s : String) → IsTrimmed (files.strip s)
    pub unnamed : IsTrimmed "gw-unnamed-01"

  or_current-IsTrimmed :
      (law : Strips) (arg : Option String)
      → IsGiven arg
      → (d : StateDir Key) → IsTrimmed (or_current files arg (current files d))
  or_current-IsTrimmed law (some id) g d = g
  or_current-IsTrimmed law none g d = on_file d.id_file
    where
      on_file :
          (t : Option String)
          → IsTrimmed (or_current files none (current files (record d { id_file = t })))
      on_file none = law.unnamed
      on_file (some t) = law.again t

  -- The directory shows `id` and its key, and a run that is given no id takes both and changes nothing.
  abbrev pub IsIdentity : String → Key → StateDir Key → Type 0
  IsIdentity id key d =
      (show_identity files d ≡ identity id (files.public_key_b64 key))
      × (run_identity files none true d ≡ (id, some key, d))

  str_eq_refl : (s : String) → str_eq s s ≡ true
  str_eq_refl s = ground (arith, eq_iff s s)

  settled :
      (id t : String) (key : Key)
      → files.strip t ≡ id
      → IsIdentity id key (record { id_file = some t; key_file = some key })
  unfolding show_identity run_identity persist load_or_generate
  settled id t key h =
      (ap (λ x. identity x (files.public_key_b64 key)) h, rw (str_eq_refl (files.strip t), h) refl)

  persist-IsIdentity :
      (id : String) (key : Key)
      → IsTrimmed id
      → (d : StateDir Key) → IsIdentity id key (record (persist files id d) { key_file = some key })
  unfolding persist
  persist-IsIdentity id key h d = on_file d.id_file d.key_file
    where
      on_file :
          (i : Option String) (k : Option Key)
          → IsIdentity id key (record (persist files id (record { id_file = i; key_file = k })) {
            key_file = some key;
          })
      on_file none k = settled id (line files id) key h
      on_file (some t) k = elim (Bool-cases (str_eq (files.strip t) id)) [
        | inl e ↦ rw e (settled id t key (ground (arith, e, eq_iff (files.strip t) id)))
        | inr e ↦ rw e (settled id (line files id) key h)
      ]

  -- The identity that a directory comes to: an id, and a key it shows.
  abbrev pub Keeps : String × Option Key × StateDir Key → Type 0
  Keeps (id, none, d) = ⊥
  Keeps (id, some key, d) = IsIdentity id key d

  -- The key that a directory comes to.
  abbrev key_of : Option Key → Key
  key_of none = files.generated
  key_of (some key) = key

  load_or_generate_lem :
      (d : StateDir Key)
      → load_or_generate files d
        ≡ (key_of d.key_file, record d { key_file = some (key_of d.key_file) })
  unfolding load_or_generate
  load_or_generate_lem d = on_key d.id_file d.key_file
    where
      on_key :
          (i : Option String) (k : Option Key)
          → load_or_generate files (record { id_file = i; key_file = k })
            ≡ (key_of k, record { id_file = i; key_file = some (key_of k) })
      on_key i none = refl
      on_key i (some key) = refl

  run_identity-Keeps :
      (law : Strips) (arg : Option String)
      → IsGiven arg
      → (d : StateDir Key) → Keeps (run_identity files arg true d)
  unfolding run_identity
  run_identity-Keeps law arg g d =
      let id = or_current files arg (current files d) in
      let d' = persist files id d in
      rw (load_or_generate_lem d')
        (persist-IsIdentity id (key_of d'.key_file) (or_current-IsTrimmed law arg g d) d)

  install-IsIdentity :
      (arg : Option String) (host : String)
      → IsTrimmed (or_host files arg host)
      → (d : StateDir Key)
      → Keeps (or_host files arg host, some (key_of d.key_file), (install files arg host d).1)
        × ((install files arg host d).0 ≡ show_identity files (install files arg host d).1)
  unfolding install
  install-IsIdentity arg host h d =
      let id = or_host files arg host in
      let here = settled id (line files id) (key_of d.key_file) h in
      rw (load_or_generate_lem (record d { id_file = some (line files id) })) (here, sym here.0)

  -- Where `strip` undoes the newline of a stripped text and of the default, and the ids that a run and an
  -- install are given have no space at their ends: whatever the state directory held, a gateway that is
  -- started to sign leaves a directory that shows its id and the public text of its key, and the next start,
  -- given no id, takes that id and that key and leaves the directory as it is; an install leaves one of which
  -- the same holds with the id of the install, and prints what `show-identity` then prints.
  pub identity-Keeps :
      (law : Strips) (arg : Option String)
      → IsGiven arg
      → (named : Option String) (host : String) → IsTrimmed (or_host files named host)
      → (d : StateDir Key)
      → Keeps (run_identity files arg true d)
        × Keeps (or_host files named host, some (key_of d.key_file), (install files named host d).1)
        × ((install files named host d).0 ≡ show_identity files (install files named host d).1)
  identity-Keeps law arg g named host h d =
      let installed = install-IsIdentity named host h d in
      (run_identity-Keeps law arg g d, installed.0, installed.1)
