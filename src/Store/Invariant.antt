-- ===== src/Store/Invariant.antt =====
-- The invariant of the tables of gateway/omp/core/store.py, and that the methods keep it.
use open_machine_protocol.Prelude.{
  ℕ, ◌+◌, ◌≤◌, ◌<◌, ◌≡◌, refl, subst, inl, inr, Bool-cases, String, Bool, true, false, ◌&&◌, some,
  List, [], ◌∷◌, ◌++◌, arith, str_eq, eq_iff, ◌==◌, select, All, All-map, All-append, Bool,
  if◌then◌else◌,
}
use open_machine_protocol.Dict.{lookup, lookup-insert}
use open_machine_protocol.Json.{Fields}
use open_machine_protocol.Envelope.{Envelope}
use open_machine_protocol.Store.{
  Store, BufferRow, DeadReason, empty, last_seq, next_seq, has_key, new_row, appended, append,
  cursor, ack, dead_letter,
}
use open_machine_protocol.Store.Seq.{last_seq-le-next_seq}

-- The rowids grow, from above `lo`.
abbrev pub Ascending : ℕ → List BufferRow → Type 0
Ascending lo [] = Unit
Ascending lo (r ∷ rs) = (lo < r.rowid_pk) × Ascending r.rowid_pk rs

-- A row's columns are those of its envelope, and no other row has its key.
abbrev pub Distinct : List BufferRow → Type 0
Distinct [] = Unit
Distinct (r ∷ rs) = (has_key r.machine_id r.seq rs ≡ false) × Distinct rs

abbrev pub WithinRowid : ℕ → BufferRow → Type 0
WithinRowid n r = r.rowid_pk ≤ n

-- No row is ahead of its machine's counter.
abbrev pub WithinSeq : Store → BufferRow → Type 0
WithinSeq s r = r.seq ≤ last_seq s r.machine_id

pub record IsValid (s : Store) : Type 0 where
  pub ascending : Ascending 0 s.buffer
  pub within_rowid : All (WithinRowid s.last_rowid) s.buffer
  pub within_seq : All (WithinSeq s) s.buffer
  pub distinct : Distinct s.buffer
  pub cursors : (e : String) → cursor s e ≤ s.last_rowid

pub empty-IsValid : IsValid empty
unfolding cursor lookup
empty-IsValid = record {
  ascending = tt;
  within_rowid = tt;
  within_seq = tt;
  distinct = tt;
  cursors = λ e. omega arith;
}

pub next_seq-IsValid : (m : String) (s : Store) → IsValid s → IsValid (next_seq m s).1
unfolding next_seq cursor
next_seq-IsValid m s v = record {
  ascending = v.ascending;
  within_rowid = v.within_rowid;
  within_seq =
      All-map (WithinSeq s) (WithinSeq (next_seq m s).1) s.buffer
        (λ r h. omega (arith, last_seq-le-next_seq m s r.machine_id)) v.within_seq;
  distinct = v.distinct;
  cursors = λ e. v.cursors e;
}

pub dead_letter-IsValid :
    (m ts : String) (b : Fields) (e : DeadReason) (s : Store)
    → IsValid s
    → IsValid (dead_letter m ts b e s)
unfolding dead_letter last_seq cursor
dead_letter-IsValid m ts b e s v = record {
  ascending = v.ascending;
  within_rowid = v.within_rowid;
  within_seq = v.within_seq;
  distinct = v.distinct;
  cursors = λ e. v.cursors e;
}

pub ack-IsValid :
    (e : String) (rowid : ℕ) (s : Store)
    → rowid ≤ s.last_rowid
    → IsValid s
    → IsValid (ack e rowid s)
unfolding ack cursor last_seq
ack-IsValid e rowid s h v = record {
  ascending = v.ascending;
  within_rowid = v.within_rowid;
  within_seq = v.within_seq;
  distinct = v.distinct;
  cursors = λ j. ground (arith, lookup-insert e j rowid s.exporter_cursors, v.cursors j);
}

-- Appending one row.
Ascending-append :
    (lo hi : ℕ) (rows : List BufferRow) (r : BufferRow)
    → Ascending lo rows
    → All (WithinRowid hi) rows
    → lo ≤ hi
    → hi < r.rowid_pk
    → Ascending lo (rows ++ r ∷ [])
Ascending-append lo hi [] r a w h k = (omega arith, tt)
Ascending-append lo hi (x ∷ rows) r a w h k =
    (a.0, Ascending-append x.rowid_pk hi rows r a.1 w.1 w.0 k)

pub has_key-append :
    (m : String) (n : ℕ) (rows : List BufferRow) (r : BufferRow)
    → has_key m n (rows ++ r ∷ [])
      ≡ (if has_key m n rows then true else str_eq r.machine_id m && r.seq == n)
unfolding has_key
has_key-append m n [] r = ground arith
has_key-append m n (x ∷ rows) r = ground (arith, has_key-append m n rows r)

-- Two rows have one key the one way round and the other.
has_key-head :
    (r x : BufferRow) (rows : List BufferRow)
    → has_key r.machine_id r.seq (x ∷ rows) ≡ false
    → (str_eq r.machine_id x.machine_id && r.seq == x.seq) ≡ false
unfolding has_key
has_key-head r x rows h =
    ground (arith, eq_iff x.machine_id r.machine_id, eq_iff r.machine_id x.machine_id)

pub Distinct-append :
    (rows : List BufferRow) (r : BufferRow)
    → Distinct rows
    → has_key r.machine_id r.seq rows ≡ false
    → Distinct (rows ++ r ∷ [])
unfolding has_key
Distinct-append [] r d h = (refl, tt)
Distinct-append (x ∷ rows) r d h = (
  rw (has_key-append x.machine_id x.seq rows r) (ground (arith, d.0, has_key-head r x rows h)),
  Distinct-append rows r d.1 (ground arith),
)

-- A number above the counter's rows is no row's.
pub has_key-fresh :
    (s : Store) (m : String) (n : ℕ) (rows : List BufferRow)
    → All (WithinSeq s) rows
    → last_seq s m < n
    → has_key m n rows ≡ false
unfolding has_key
has_key-fresh s m n [] w h = refl
has_key-fresh s m n (r ∷ rows) w h = elim (Bool-cases (str_eq r.machine_id m)) [
  | inl same ↦
      let e : r.machine_id ≡ m = (eq_iff r.machine_id m).0 same in
      let bound : r.seq ≤ last_seq s m = subst (λ x. r.seq ≤ last_seq s x) e w.0 in
      ground (arith, has_key-fresh s m n rows w.1 h, bound, same)
  | inr other ↦ ground (arith, has_key-fresh s m n rows w.1 h, other)
]

module _ (e : Envelope) (t : ℕ) (s : Store) where
  appended-IsValid :
      IsValid s
      → e.seq ≤ last_seq s e.machine_id
      → has_key e.machine_id e.seq s.buffer ≡ false
      → IsValid (appended e t s)
  unfolding appended last_seq cursor
  appended-IsValid v bound new = record {
    ascending =
        Ascending-append 0 s.last_rowid s.buffer (new_row e t s) v.ascending v.within_rowid
          (omega arith) (omega arith);
    within_rowid =
        All-append (WithinRowid (s.last_rowid + 1)) s.buffer _
          (All-map (WithinRowid s.last_rowid) _ s.buffer (λ r h. omega arith) v.within_rowid)
          (omega arith);
    within_seq = All-append (WithinSeq s) s.buffer _ v.within_seq (bound, tt);
    distinct = Distinct-append s.buffer (new_row e t s) v.distinct new;
    cursors = λ j. omega (arith, v.cursors j);
  }

  -- An append that the index allows keeps the invariant, for a number that the counter has given.
  pub append-IsValid :
      (s' : Store)
      → IsValid s
      → e.seq ≤ last_seq s e.machine_id
      → append e t s ≡ some s'
      → IsValid s'
  unfolding append
  append-IsValid s' v bound h = elim (Bool-cases (has_key e.machine_id e.seq s.buffer)) [
    | inl taken ↦ absurd (ground (arith, taken))
    | inr new ↦ subst IsValid (ground (arith, new)) (appended-IsValid v bound new)
  ]

-- Deleting rows by a test.
Ascending-weaken :
    (lo lo' : ℕ) (rows : List BufferRow) → lo' ≤ lo → Ascending lo rows → Ascending lo' rows
Ascending-weaken lo lo' [] h a = tt
Ascending-weaken lo lo' (r ∷ rows) h a = (omega arith, a.1)

pub Ascending-select :
    (p : BufferRow → Bool) (lo : ℕ) (rows : List BufferRow)
    → Ascending lo rows
    → Ascending lo (select p rows)
Ascending-select p lo [] a = tt
Ascending-select p lo (r ∷ rows) a = elim (Bool-cases (p r)) [
  | inl kept ↦ rw kept (a.0, Ascending-select p r.rowid_pk rows a.1)
  | inr gone ↦
      rw gone (Ascending-select p lo rows (Ascending-weaken r.rowid_pk lo rows (omega arith) a.1))
]

has_key-select :
    (p : BufferRow → Bool) (m : String) (n : ℕ) (rows : List BufferRow)
    → has_key m n rows ≡ false
    → has_key m n (select p rows) ≡ false
unfolding has_key
has_key-select p m n [] h = refl
has_key-select p m n (r ∷ rows) h = ground (arith, has_key-select p m n rows)

pub Distinct-select :
    (p : BufferRow → Bool) (rows : List BufferRow) → Distinct rows → Distinct (select p rows)
Distinct-select p [] d = tt
Distinct-select p (r ∷ rows) d = elim (Bool-cases (p r)) [
  | inl kept ↦ rw kept (has_key-select p r.machine_id r.seq rows d.0, Distinct-select p rows d.1)
  | inr gone ↦ rw gone (Distinct-select p rows d.1)
]
