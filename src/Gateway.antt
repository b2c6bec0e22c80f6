-- ===== src/Gateway.antt =====
-- The running gateway (`cmd_run` of gateway/omp/cli.py) as interleaved steps: adapter threads call
-- `Engine.process`, the drain of each exporter fetches a batch, publishes and acknowledges row by row,
-- the main loop prunes, a publish may fail, and the process may stop and start again at any point.
-- The drain lock makes each exporter's drain one thread; the database outlives a restart. A call of
-- `Engine.process` is one step, though its `next_seq` and its `append` are two transactions.
pub mod Trace
pub mod Ready
pub mod Sound
pub mod Loss
pub mod Keys
pub mod Tests
use open_machine_protocol.Prelude.{
  ℕ, ◌+◌, String, Option, some, ◌≡◌, List, [], ◌∷◌, ◌++◌, Member, str_eq, if◌then◌else◌,
}
use open_machine_protocol.Envelope.{Envelope, Primitives}
use open_machine_protocol.Store.{Store, BufferRow, empty, new_row, pending, ack}
use open_machine_protocol.Store.Prune.{Summary, prune}
use open_machine_protocol.Engine.{
  Engine, Body, Outcome, buffered, dead_lettered, integrity_error, process,
}

-- Where the drain of one exporter stands: the rows of its batch that are still to be published, and
-- the row that was published and not yet acknowledged.
pub data Phase : Type 0 where
  idle : Phase
  sending : List BufferRow → Phase
  published : BufferRow → List BufferRow → Phase

-- `accepted` and `delivered` are a record for the proofs: every row that `process` ever buffered, and
-- every exporter with the rowid of a row that it published.
pub record System : Type 0 where
  pub store : Store
  pub phase : String → Phase
  pub accepted : List BufferRow
  pub delivered : List (String × ℕ)

abbrev pub start : System
start = record { store = empty; phase = λ _. idle; accepted = []; delivered = [] }

abbrev pub set_phase : (String → Phase) → String → Phase → String → Phase
set_phase f e ph x = if str_eq e x then ph else f x

-- The row that a call of `process` adds.
abbrev pub rows_of : Outcome → ℕ → Store → List BufferRow
rows_of (buffered e) t s = new_row e t s ∷ []
rows_of (dead_lettered _) t s = []
rows_of integrity_error t s = []

module _ (p : Primitives) (engine : Engine) (db_bytes : Store → ℕ) (exporters : List String) where
  pub data Step (σ : System) : System → Type 0 where
    emit :
        (machine_id : String) (body : Body) (now : String) (t : ℕ)
        → Step σ (record σ {
          store = (process p engine machine_id body now t σ.store).1;
          accepted =
              σ.accepted ++ rows_of (process p engine machine_id body now t σ.store).0 t σ.store;
        })
    fetch :
        (e : String) (batch : ℕ)
        → Member e exporters
        → Step σ (record σ { phase = set_phase σ.phase e (sending (pending e batch σ.store)) })
    publish :
        (e : String) (r : BufferRow) (rows : List BufferRow)
        → σ.phase e ≡ sending (r ∷ rows)
        → Step σ (record σ {
          phase = set_phase σ.phase e (published r rows);
          delivered = (e, r.rowid_pk) ∷ σ.delivered;
        })
    acknowledge :
        (e : String) (r : BufferRow) (rows : List BufferRow)
        → σ.phase e ≡ published r rows
        → Step σ (record σ {
          store = ack e r.rowid_pk σ.store;
          phase = set_phase σ.phase e (sending rows);
        })
    fail : (e : String) → Step σ (record σ { phase = set_phase σ.phase e idle })
    restart : Step σ (record σ { phase = λ _. idle })
    retain :
        (retention now : ℕ) (max_bytes : Option ℕ) (sm : Summary) (s' : Store)
        → prune db_bytes exporters retention max_bytes now σ.store ≡ some (sm, s')
        → Step σ (record σ { store = s' })

  pub data Reach : System → Type 0 where
    begin : Reach start
    step : {σ τ : System} → Reach σ → Step σ τ → Reach τ
