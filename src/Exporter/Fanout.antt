-- ===== src/Exporter/Fanout.antt =====
-- `drain` in `cmd_run` of gateway/omp/cli.py: the exporters are drained one after the other, and the one
-- whose destination is closed ends the call. What `publish` raises is ExporterClosed here; another
-- exception would leave the call at the same place. `_build_exporters`, which makes the exporters of a
-- registry, with the match of a broker URL as a parameter.
use open_machine_protocol.Prelude.{
  ℕ, String, Bool, true, false, Option, none, some, List, [], ◌∷◌, str_eq, is_empty, if◌then◌else◌,
}
use open_machine_protocol.Envelope.{Envelope}
use open_machine_protocol.Store.{Store}
use open_machine_protocol.Exporter.{returned, stopped, out_of_fuel, drain}

-- An exporter with the state of its destination.
pub record Destination (W : Type 0) : Type 0 where
  pub name : String
  pub publish : W → Envelope → Option W
  pub world : W

-- What the call returns, with the destinations and the store. Running out of fuel counts as a stop.
pub record Drained (W : Type 0) : Type 0 where
  pub open_still : Bool
  pub worlds : List W
  pub store : Store

module _ {W : Type 0} where
  unfoldable pub worlds_of : List (Destination W) → List W
  worlds_of [] = []
  worlds_of (d ∷ ds) = d.world ∷ worlds_of ds

  abbrev pub behind : W → Drained W → Drained W
  behind w r = record r { worlds = w ∷ r.worlds }

  -- `exporter.drain(store)` has a batch of 500.
  unfoldable pub drain_all : ℕ → List (Destination W) → Store → Drained W
  unfolding worlds_of drain
  drain_all fuel [] s = record { open_still = true; worlds = []; store = s }
  drain_all fuel (d ∷ ds) s =
      let run = drain d.publish d.name fuel 500 d.world s in
      let rest = drain_all fuel ds run.store in
      elim run.ended [
        | returned sent ↦ behind run.world rest
        | stopped ↦ record {
          open_still = false;
          worlds = run.world ∷ worlds_of ds;
          store = run.store;
        }
        | out_of_fuel ↦ record {
          open_still = false;
          worlds = run.world ∷ worlds_of ds;
          store = run.store;
        }
      ]

-- ------------------------------------------------------------------- the registry's exporters
-- An entry of `exporters`: its type, and the broker and the prefix of an MQTT entry.
pub record Configured : Type 0 where
  pub kind : String
  pub broker : String
  pub topic_prefix : Option String

pub data Built : Type 0 where
  stdout : Built
  mqtt : String → ℕ → String → Built

-- `SystemExit`
pub data Refused : Type 0 where
  bad_broker : String → Refused
  unsupported_type : String → Refused

pub data Result (A : Type 0) : Type 0 where
  ok : A → Result A
  refused : Refused → Result A

infixl 5 ◌>>=◌
abbrev pub ◌>>=◌ : {A B : Type 0} → Result A → (A → Result B) → Result B
ok a >>= f = f a
refused e >>= f = refused e

abbrev pub or_default : {A : Type 0} → Option A → A → A
or_default none d = d
or_default (some a) d = a

-- The host, and the port if there is one, of a URL that matches.
module _ (match_broker : String → Option (String × Option ℕ)) where
  unfoldable pub build_one : Configured → Result Built
  build_one e =
      if str_eq e.kind "stdout"
      then ok stdout
      else if str_eq e.kind "mqtt"
      then elim (match_broker e.broker) [
        | none ↦ refused (bad_broker e.broker)
        | some (host, port) ↦
            ok (mqtt host (or_default port 1883) (or_default e.topic_prefix "omp"))
      ]
      else refused (unsupported_type e.kind)

  unfoldable pub build_each : List Configured → Result (List Built)
  unfolding build_one
  build_each [] = ok []
  build_each (e ∷ es) = do b ← build_one e; bs ← build_each es; ok (b ∷ bs)

  unfoldable pub build_exporters : List Configured → Result (List Built)
  unfolding build_each
  build_exporters configured =
      if is_empty configured then ok (stdout ∷ []) else build_each configured

-- `name` of the classes, under which the store keeps the cursor
unfoldable pub name_of : Built → String
name_of stdout = "stdout"
name_of (mqtt host port topic_prefix) = "mqtt"
