-- ===== src/Gateway/Ready.antt =====
-- What holds of the phase of each drain, and that deliveries and new rows keep it.
use open_machine_protocol.Prelude.{
  ℕ, ◌+◌, ◌≤◌, ◌<◌, ◌≡◌, subst, ap, String, inl, inr, List, ◌∷◌, ◌++◌, arith, str_eq, eq_iff,
  Member, Member-append_left, Member-append_cases, Bool-cases, All, All-map, All-Member,
}
use open_machine_protocol.Store.{Store, BufferRow, cursor, or_zero}
use open_machine_protocol.Store.Invariant.{WithinRowid}
use open_machine_protocol.Dict.{lookup}
use open_machine_protocol.Gateway.{Phase, idle, sending, published, set_phase}
use open_machine_protocol.Gateway.Trace.{Log, DeliveredBelow, Chain, Chain-more, Chain-new}

-- The rows of a drain's batch are accepted ones, in an order that may be published; once the first is
-- published, all up to it have been.
abbrev pub Ready : Log → List BufferRow → String → Phase → Type 0
Ready log rows e idle = Unit
Ready log rows e (sending batch) = Chain e log rows batch × All (λ r. Member r rows) batch
Ready log rows e (published r batch) =
    (DeliveredBelow e log (r.rowid_pk + 1) rows)
    × Member r rows
    × Chain e log rows batch
    × All (λ q. Member q rows) batch

pub set_phase_all :
    (P : String → Phase → Type 0) (f : String → Phase) (e : String) (ph : Phase)
    → P e ph
    → ((x : String) → P x (f x))
    → (x : String) → P x (set_phase f e ph x)
set_phase_all P f e ph here others x = elim (Bool-cases (str_eq e x)) [
  | inl same ↦ rw same (subst (λ y. P y ph) ((eq_iff e x).0 same) here)
  | inr other ↦ rw other (others x)
]

pub within :
    (n : ℕ) (rows batch : List BufferRow)
    → All (WithinRowid n) rows
    → All (λ q. Member q rows) batch
    → All (λ q. q.rowid_pk ≤ n) batch
within n rows batch low h =
    All-map (λ q. Member q rows) _ batch (λ q m. All-Member (WithinRowid n) q rows low m) h

-- More deliveries do no harm to any phase.
pub Ready-more :
    (log : Log) (k : String × ℕ) (rows : List BufferRow) (e : String) (ph : Phase)
    → Ready log rows e ph
    → Ready (k ∷ log) rows e ph
Ready-more log k rows e idle h = tt
Ready-more log k rows e (sending batch) h =
    (Chain-more e log (k ∷ log) rows batch (λ j m. inr m) h.0, h.1)
Ready-more log k rows e (published r batch) h =
    (λ q m b. inr (h.0 q m b), h.1, Chain-more e log (k ∷ log) rows batch (λ j m. inr m) h.2, h.3)

-- Nor does a row above those of the batch.
pub Ready-new :
    (log : Log) (n : ℕ) (rows new : List BufferRow) (e : String) (ph : Phase)
    → All (WithinRowid n) rows
    → All (λ r. n < r.rowid_pk) new
    → Ready log rows e ph
    → Ready log (rows ++ new) e ph
Ready-new log n rows new e idle low high h = tt
Ready-new log n rows new e (sending batch) low high h = (
  Chain-new e log n rows new batch h.0 (within n rows batch low h.1) high,
  All-map (λ q. Member q rows) _ batch (λ q m. Member-append_left q rows new m) h.1,
)
Ready-new log n rows new e (published r batch) low high h = (
  below,
  Member-append_left r rows new h.1,
  Chain-new e log n rows new batch h.2 (within n rows batch low h.3) high,
  All-map (λ q. Member q rows) _ batch (λ q m. Member-append_left q rows new m) h.3,
)
  where
    below : DeliveredBelow e log (r.rowid_pk + 1) (rows ++ new)
    below q m b = elim (Member-append_cases q rows new m) [
      | inl old ↦ h.0 q old b
      | inr fresh ↦
          absurd (
            omega (arith, All-Member _ q new high fresh, All-Member (WithinRowid n) r rows low h.1))
    ]

pub cursor_eq :
    (s s' : Store) (e : String)
    → s'.exporter_cursors ≡ s.exporter_cursors
    → cursor s' e ≡ cursor s e
unfolding cursor
cursor_eq s s' e h = ap (λ c. or_zero (lookup e c)) h
