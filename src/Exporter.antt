-- ===== src/Exporter.antt =====
-- `Exporter.drain` of gateway/omp/exporters/base.py. A destination is a state `W` with a function
-- `publish`, which is `none` where `publish` raises (a closed pipe, a broker that fails).
pub mod Drain
pub mod Others
pub mod Fanout
pub mod Independent
pub mod Tests
use open_machine_protocol.Prelude.{
  ℕ, zero, suc, ◌+◌, String, Option, none, some, List, [], ◌∷◌, is_empty, if◌then◌else◌,
}
use open_machine_protocol.Envelope.{Envelope}
use open_machine_protocol.Store.{Store, BufferRow, pending, ack}

-- How a call ended: with the number sent, with the exception of `publish`, or out of fuel.
pub data Ended : Type 0 where
  returned : ℕ → Ended
  stopped : Ended
  out_of_fuel : Ended

pub record Run (W : Type 0) : Type 0 where
  pub ended : Ended
  pub world : W
  pub store : Store

-- An exception of `publish` leaves the loop.
abbrev pub next_round : {W : Type 0} → (ℕ → W → Store → Run W) → Run W → Run W
next_round again run = elim run.ended [
  | returned sent ↦ again sent run.world run.store
  | stopped ↦ run
  | out_of_fuel ↦ run
]

module _ {W : Type 0} (publish : W → Envelope → Option W) (name : String) where
  -- the `for` loop over one batch; `returned` carries `sent`
  unfoldable pub send_batch : List BufferRow → ℕ → W → Store → Run W
  send_batch [] sent w s = record { ended = returned sent; world = w; store = s }
  send_batch (r ∷ rows) sent w s = elim (publish w r.envelope) [
    | none ↦ record { ended = stopped; world = w; store = s }
    | some w' ↦ send_batch rows (sent + 1) w' (ack name r.rowid_pk s)
  ]

  -- the `while True` loop, one unit of fuel for each round
  unfoldable pub drain_from : ℕ → ℕ → ℕ → W → Store → Run W
  unfolding send_batch
  drain_from zero batch sent w s = record { ended = out_of_fuel; world = w; store = s }
  drain_from (suc fuel) batch sent w s =
      let rows = pending name batch s in
      if is_empty rows
      then record { ended = returned sent; world = w; store = s }
      else next_round (drain_from fuel batch) (send_batch rows sent w s)

  unfoldable pub drain : ℕ → ℕ → W → Store → Run W
  unfolding drain_from
  drain fuel batch w s = drain_from fuel batch 0 w s
