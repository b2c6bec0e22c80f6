-- ===== src/Gateway/Trace.antt =====
-- Facts about the record of deliveries, and the order in which a batch must be published.
use open_machine_protocol.Prelude.{
  ℕ, ◌≤◌, ◌<◌, ◌≡◌, sym, subst, String, inl, inr, ◌⊎◌, List, [], ◌∷◌, ◌++◌, arith, Member, All,
  All-Member, Member-append_cases, Member-select, Bool-cases, ap, zero, suc, take, select,
}
use open_machine_protocol.Store.{BufferRow, is_after}
use open_machine_protocol.Store.Invariant.{Ascending, Ascending-select}

abbrev pub Log : Type 0
Log = List (String × ℕ)

-- The exporter has published the row.
abbrev pub Delivered : String → Log → BufferRow → Type 0
Delivered e log r = Member (e, r.rowid_pk) log

-- All rows of `rows` with a rowid below `n` have reached `e`.
abbrev pub DeliveredBelow : String → Log → ℕ → List BufferRow → Type 0
DeliveredBelow e log n rows = (r : BufferRow) → Member r rows → r.rowid_pk < n → Delivered e log r

-- When its turn comes, each row of the batch has only delivered rows before it.
abbrev pub Chain : String → Log → List BufferRow → List BufferRow → Type 0
Chain e log rows [] = Unit
Chain e log rows (x ∷ batch) =
    DeliveredBelow e log x.rowid_pk rows × Chain e ((e, x.rowid_pk) ∷ log) rows batch

-- More deliveries do no harm.
pub Chain-more :
    (e : String) (log log' : Log) (rows batch : List BufferRow)
    → ((k : String × ℕ) → Member k log → Member k log')
    → Chain e log rows batch
    → Chain e log' rows batch
Chain-more e log log' rows [] more c = tt
Chain-more e log log' rows (x ∷ batch) more c = (
  λ r m h. more (e, r.rowid_pk) (c.0 r m h),
  Chain-more e _ _ rows batch (keep (e, x.rowid_pk)) c.1,
)
  where
    keep : (a k : String × ℕ) → Member k (a ∷ log) → Member k (a ∷ log')
    keep a k (inl same) = inl same
    keep a k (inr m) = inr (more k m)

-- A row above the whole batch does no harm.
pub Chain-new :
    (e : String) (log : Log) (n : ℕ) (rows new batch : List BufferRow)
    → Chain e log rows batch
    → All (λ r. r.rowid_pk ≤ n) batch
    → All (λ r. n < r.rowid_pk) new
    → Chain e log (rows ++ new) batch
Chain-new e log n rows new [] c low high = tt
Chain-new e log n rows new (x ∷ batch) c low high =
    (below, Chain-new e _ n rows new batch c.1 low.1 high)
  where
    below : DeliveredBelow e log x.rowid_pk (rows ++ new)
    below r m h = elim (Member-append_cases r rows new m) [
      | inl old ↦ c.0 r old h
      | inr fresh ↦ absurd (omega (arith, All-Member _ r new high fresh, low.0))
    ]

-- Every row of the list is past the number that it ascends from.
pub Ascending-Member :
    (lo : ℕ) (rows : List BufferRow) (r : BufferRow)
    → Ascending lo rows
    → Member r rows
    → lo < r.rowid_pk
Ascending-Member lo [] r a m = absurd m
Ascending-Member lo (x ∷ rows) r a (inl same) =
    subst (λ (y : BufferRow). lo < y.rowid_pk) (sym same) a.0
Ascending-Member lo (x ∷ rows) r a (inr m) = omega (arith, Ascending-Member x.rowid_pk rows r a.1 m)

pub Nat-cases : (a b : ℕ) → a ≤ b → (a ≡ b) ⊎ (a < b)
Nat-cases a b h = ground arith

Ascending-after :
    (c lo : ℕ) (rows : List BufferRow) → Ascending lo rows → Ascending c (select (is_after c) rows)
Ascending-after c lo [] a = tt
Ascending-after c lo (r ∷ rows) a = elim (Bool-cases (is_after c r)) [
  | inl past ↦ rw past (ground arith, Ascending-select (is_after c) r.rowid_pk rows a.1)
  | inr early ↦ rw early (Ascending-after c r.rowid_pk rows a.1)
]

module _ (e : String) (rows : List BufferRow) where
  -- The rows of `list` are those of `rows` that are past `c` and not delivered.
  record Covers (log : Log) (c : ℕ) (list : List BufferRow) : Type 0 where
    ascending : Ascending c list
    before : (r : BufferRow) → Member r rows → r.rowid_pk ≤ c → Delivered e log r
    after : (r : BufferRow) → Member r rows → Member r list ⊎ Delivered e log r ⊎ (r.rowid_pk ≤ c)

  Covers-below :
      (log : Log) (c : ℕ) (x : BufferRow) (list : List BufferRow)
      → Covers log c (x ∷ list)
      → DeliveredBelow e log x.rowid_pk rows
  Covers-below log c x list v r m h = elim (v.after r m) [
    | inl (inl same) ↦ absurd (omega (arith, ap (λ (y : BufferRow). y.rowid_pk) same))
    | inl (inr later) ↦
        absurd (omega (arith, Ascending-Member x.rowid_pk list r v.ascending.1 later))
    | inr (inl done) ↦ done
    | inr (inr early) ↦ v.before r m early
  ]

  Covers-tail :
      (log : Log) (c : ℕ) (x : BufferRow) (list : List BufferRow)
      → Covers log c (x ∷ list)
      → Covers ((e, x.rowid_pk) ∷ log) x.rowid_pk list
  Covers-tail log c x list v = record {
    ascending = v.ascending.1;
    before = λ r m h. elim (Nat-cases r.rowid_pk x.rowid_pk h) [
      | inl same ↦ inl (ap (λ n. (e, n)) same)
      | inr below ↦ inr (Covers-below log c x list v r m below)
    ];
    after = λ r m. elim (v.after r m) [
      | inl (inl same) ↦ inr (inr (omega (arith, ap (λ (y : BufferRow). y.rowid_pk) same)))
      | inl (inr later) ↦ inl later
      | inr (inl done) ↦ inr (inl (inr done))
      | inr (inr early) ↦ inr (inl (inr (v.before r m early)))
    ];
  }

  -- A batch taken from such a list is in an order that may be published.
  Covers-Chain :
      (n : ℕ) (log : Log) (c : ℕ) (list : List BufferRow)
      → Covers log c list
      → Chain e log rows (take n list)
  Covers-Chain zero log c list v = tt
  Covers-Chain (suc n) log c [] v = tt
  Covers-Chain (suc n) log c (x ∷ list) v =
      (Covers-below log c x list v, Covers-Chain n _ x.rowid_pk list (Covers-tail log c x list v))

  -- The rows past the cursor, where what has left the buffer was delivered.
  pub Chain-fetch :
      (n c : ℕ) (log : Log) (buffer : List BufferRow)
      → Ascending 0 buffer
      → ((r : BufferRow) → Member r rows → r.rowid_pk ≤ c → Delivered e log r)
      → ((r : BufferRow) → Member r rows → Member r buffer ⊎ Delivered e log r)
      → Chain e log rows (take n (select (is_after c) buffer))
  Chain-fetch n c log buffer a before held =
      Covers-Chain n log c (select (is_after c) buffer) (record {
        ascending = Ascending-after c 0 buffer a;
        before = before;
        after = λ r m. elim (held r m) [
          | inl here ↦ elim (Bool-cases (is_after c r)) [
            | inl past ↦ inl (Member-select (is_after c) r buffer here past)
            | inr early ↦ inr (inr (ground arith))
          ]
          | inr done ↦ inr (inl done)
        ];
      })
