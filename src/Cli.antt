-- ===== src/Cli.antt =====
-- gateway/omp/cli.py: the identity of a gateway in its state directory, as `cmd_install`, `cmd_run` and
-- `cmd_show_identity` keep it; load_or_generate of gateway/omp/core/keys.py. Keys, the host's name and
-- `strip` are parameters.
pub mod Identity
pub mod Daemon
pub mod Table
pub mod Passes
pub mod Serving
pub mod Tests
use Prim.Native.String.{◌++◌ as str_append}
use open_machine_protocol.Prelude.{
  ℕ, String, Bool, true, false, Option, none, some, List, [], ◌∷◌, str_eq, if◌then◌else◌,
}

-- What the commands find and leave in the state directory: the text of `gateway_id` and the key.
pub record StateDir (Key : Type 0) : Type 0 where
  pub id_file : Option String
  pub key_file : Option Key

-- The exit code 1 with what is missing, or the two lines.
pub data Shown : Type 0 where
  no_gateway_id no_keypair : Shown
  identity : String → String → Shown

-- How the files are read and written: `strip`, and a new key with the text of a public key.
pub record Files (Key : Type 0) : Type 0 where
  pub strip : String → String
  pub generated : Key
  pub public_key_b64 : Key → String

module _ {Key : Type 0} (files : Files Key) where
  open files use {strip, generated, public_key_b64}

  -- The file holds the id and a newline.
  abbrev pub line : String → String
  line id = str_append id "\n"

  -- GatewayKey.load_or_generate: the key, which the directory then holds
  unfoldable pub load_or_generate : StateDir Key → Key × StateDir Key
  load_or_generate d = elim d.key_file [
    | some key ↦ (key, d)
    | none ↦ (generated, record d { key_file = some generated })
  ]

  -- `args.gateway_id or f"gw-{hostname}"`
  abbrev pub or_host : Option String → String → String
  or_host none host = host
  or_host (some id) host = if str_eq id "" then host else id

  unfoldable pub install : Option String → String → StateDir Key → Shown × StateDir Key
  unfolding load_or_generate
  install arg host d =
      let id = or_host arg host in
      let (key, d') = load_or_generate (record d { id_file = some (line id) }) in
      (identity id (public_key_b64 key), d')

  unfoldable pub show_identity : StateDir Key → Shown
  show_identity d = elim d.id_file [
    | none ↦ no_gateway_id
    | some text ↦ elim d.key_file [
      | none ↦ no_keypair
      | some key ↦ identity (strip text) (public_key_b64 key)
    ]
  ]

  -- `current`
  abbrev pub current : StateDir Key → Option String
  current d = elim d.id_file [ none ↦ none | some text ↦ some (strip text) ]

  abbrev pub or_current : Option String → Option String → String
  or_current (some id) cur = id
  or_current none none = "gw-unnamed-01"
  or_current none (some id) = id

  abbrev pub is_text : Option String → String → Bool
  is_text none id = false
  is_text (some s) id = str_eq s id

  -- The id is written where it is not there yet.
  unfoldable pub persist : String → StateDir Key → StateDir Key
  persist id d = if is_text (current d) id then d else record d { id_file = some (line id) }

  -- The start of `cmd_run`: the gateway's id, its key where it signs, and what the directory holds then.
  unfoldable pub run_identity :
      Option String → Bool → StateDir Key → String × Option Key × StateDir Key
  unfolding persist load_or_generate
  run_identity arg signs d =
      let id = or_current arg (current d) in
      let d' = persist id d in
      if signs
      then (let (key, d'') = load_or_generate d' in (id, some key, d''))
      else (id, none, d')
