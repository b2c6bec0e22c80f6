-- ===== src/Store/Delivery.antt =====
-- `pending` and `ack` of gateway/omp/core/store.py: the rows that an exporter has yet to be sent.
use open_machine_protocol.Prelude.{
  ℕ, ◌≤◌, ◌<◌, ◌≡◌, refl, String, inl, inr, List, [], ◌∷◌, arith, str_eq, eq_iff, ltb, select, take,
  Bool-cases, if◌then◌else◌,
}
use open_machine_protocol.Dict.{lookup-insert}
use open_machine_protocol.Store.{Store, BufferRow, cursor, ack, pending, is_after}
use open_machine_protocol.Store.Invariant.{Ascending}

-- The rows past an exporter's cursor.
unfoldable pub unread : String → Store → List BufferRow
unread exporter s = select (is_after (cursor s exporter)) s.buffer

pub pending-eq-take :
    (e : String) (limit : ℕ) (s : Store) → pending e limit s ≡ take limit (unread e s)
unfolding pending unread
pending-eq-take e limit s = refl

pub cursor-ack :
    (e f : String) (rowid : ℕ) (s : Store)
    → cursor (ack e rowid s) f ≡ (if str_eq e f then rowid else cursor s f)
unfolding cursor ack
cursor-ack e f rowid s = ground (arith, lookup-insert e f rowid s.exporter_cursors)

pub cursor-ack_self : (e : String) (rowid : ℕ) (s : Store) → cursor (ack e rowid s) e ≡ rowid
cursor-ack_self e rowid s = rw cursor-ack (ground (arith, eq_iff e e))

-- All rows are past a number below the first.
pub select-after_all :
    (c lo : ℕ) (rows : List BufferRow)
    → c ≤ lo
    → Ascending lo rows
    → select (is_after c) rows ≡ rows
select-after_all c lo [] h a = refl
select-after_all c lo (r ∷ rows) h a =
    ground (arith, select-after_all c r.rowid_pk rows (omega arith) a.1)

-- The first row past a number, and the rows past that row.
select-after_next :
    (c lo : ℕ) (rows : List BufferRow) (r : BufferRow) (rest : List BufferRow)
    → Ascending lo rows
    → select (is_after c) rows ≡ r ∷ rest
    → (lo < r.rowid_pk) × (select (is_after r.rowid_pk) rows ≡ rest)
select-after_next c lo [] r rest a h = absurd (ground arith)
select-after_next c lo (x ∷ rows) r rest a h = elim (Bool-cases (ltb c x.rowid_pk)) [
  | inl after ↦ ground (
    arith,
    select-after_all c x.rowid_pk rows,
    select-after_all r.rowid_pk x.rowid_pk rows,
    after,
  )
  | inr before ↦ ground (arith, select-after_next c x.rowid_pk rows r rest a.1)
]

-- Acknowledging the first unread row leaves the others.
pub unread-ack :
    (e : String) (s : Store) (r : BufferRow) (rest : List BufferRow)
    → Ascending 0 s.buffer
    → unread e s ≡ r ∷ rest
    → unread e (ack e r.rowid_pk s) ≡ rest
unfolding unread ack
unread-ack e s r rest a h =
    rw (cursor-ack_self e r.rowid_pk s) (select-after_next (cursor s e) 0 s.buffer r rest a h).1
