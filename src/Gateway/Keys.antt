-- ===== src/Gateway/Keys.antt =====
-- A sequence number is never given twice to envelopes of one machine, over the whole life of the
-- database: not after a prune, a failure or a restart.
use mathlib.Core.List.{append-nil}
use open_machine_protocol.Prelude.{
  ℕ, ◌+◌, ◌<◌, ◌≡◌, refl, ap, ◌∙◌, String, List, [], ◌∷◌, ◌++◌, arith, All, All-map, All-append,
}
use open_machine_protocol.Dict.{lookup}
use open_machine_protocol.Envelope.{Primitives}
use open_machine_protocol.Store.{Store, BufferRow, last_seq, next_seq, new_row, or_zero, ack}
use open_machine_protocol.Store.Seq.{last_seq-le-next_seq, last_seq-next_seq_self, next_seq-value}
use open_machine_protocol.Store.Invariant.{
  IsValid, WithinSeq, Distinct, Distinct-append, has_key-fresh,
}
use open_machine_protocol.Store.Prune.Outcome.{prune-Deletes}
use open_machine_protocol.Engine.{
  Engine, Outcome, buffered, dead_lettered, integrity_error, process,
}
use open_machine_protocol.Engine.Totality.{Processed, process-Processed}
use open_machine_protocol.Gateway.{
  System, rows_of, Step, emit, fetch, publish, acknowledge, fail, restart, retain, Reach, begin,
  step,
}
use open_machine_protocol.Gateway.Loss.{Reach-IsSound}

-- No accepted row is ahead of its counter, and no two have one key.
record IsKeyed (s : Store) (accepted : List BufferRow) : Type 0 where
  within : All (WithinSeq s) accepted
  distinct : Distinct accepted

last_seq_eq :
    (s s' : Store) (m : String) → s'.seq_counters ≡ s.seq_counters → last_seq s' m ≡ last_seq s m
unfolding last_seq
last_seq_eq s s' m h = ap (λ c. or_zero (lookup m c)) h

IsKeyed-same :
    (s s' : Store) (accepted : List BufferRow)
    → s'.seq_counters ≡ s.seq_counters
    → IsKeyed s accepted
    → IsKeyed s' accepted
IsKeyed-same s s' accepted h k = record {
  within =
      All-map (WithinSeq s) (WithinSeq s') accepted
        (λ r b. omega (arith, last_seq_eq s s' r.machine_id h)) k.within;
  distinct = k.distinct;
}

IsKeyed-next :
    (s s' : Store) (m : String) (accepted : List BufferRow)
    → s'.seq_counters ≡ (next_seq m s).1.seq_counters
    → IsKeyed s accepted
    → IsKeyed s' accepted
IsKeyed-next s s' m accepted h k = record {
  within =
      All-map (WithinSeq s) (WithinSeq s') accepted
        (λ r b. omega (
          arith,
          last_seq_eq (next_seq m s).1 s' r.machine_id h,
          last_seq-le-next_seq m s r.machine_id,
        ))
        k.within;
  distinct = k.distinct;
}

module _ (p : Primitives) (engine : Engine) (db_bytes : Store → ℕ) (exporters : List String) where
  emitted-IsKeyed :
      (s : Store) (accepted : List BufferRow) (m : String) (t : ℕ) (out : Outcome × Store)
      → Processed p engine m t s out
      → IsKeyed s accepted
      → IsKeyed out.1 (accepted ++ rows_of out.0 t s)
  emitted-IsKeyed s accepted m t (integrity_error, s') h k = absurd h
  emitted-IsKeyed s accepted m t (dead_lettered reason, s') h k =
      rw append-nil (IsKeyed-next s s' m accepted h.numbered.seq_counters k)
  emitted-IsKeyed s accepted m t (buffered e, s') h k =
      let row = new_row e t s in
      let counter : last_seq s' e.machine_id ≡ last_seq s m + 1 =
        ap (last_seq s') h.machine
        ∙ last_seq_eq (next_seq m s).1 s' m h.numbered.seq_counters
        ∙ last_seq-next_seq_self m s in
      record {
        within =
            All-append (WithinSeq s') accepted (row ∷ [])
              (IsKeyed-next s s' m accepted h.numbered.seq_counters k).within
              (omega (arith, h.number));
        distinct = Distinct-append accepted row k.distinct (
            has_key-fresh s e.machine_id e.seq accepted k.within
              (omega (arith, h.number, ap (last_seq s) h.machine)));
      }

  Step-IsKeyed :
      {σ τ : System}
      → IsValid σ.store
      → IsKeyed σ.store σ.accepted
      → Step p engine db_bytes exporters σ τ
      → IsKeyed τ.store τ.accepted
  unfolding ack
  Step-IsKeyed {σ} v k (emit m body now t) =
      emitted-IsKeyed σ.store σ.accepted m t (process p engine m body now t σ.store)
        (process-Processed p engine m t σ.store body now v) k
  Step-IsKeyed v k (fetch e batch m) = k
  Step-IsKeyed v k (publish e r rows h) = k
  Step-IsKeyed {σ} v k (acknowledge e r rows h) = IsKeyed-same σ.store _ σ.accepted refl k
  Step-IsKeyed v k (fail e) = k
  Step-IsKeyed v k restart = k
  Step-IsKeyed {σ} v k (retain retention now max_bytes sm s' h) =
      IsKeyed-same σ.store s' σ.accepted
        (prune-Deletes db_bytes retention max_bytes now σ.store exporters sm s' h).seq_counters k

  Reach-IsKeyed : {σ : System} → Reach p engine db_bytes exporters σ → IsKeyed σ.store σ.accepted
  Reach-IsKeyed begin = record { within = tt; distinct = tt }
  Reach-IsKeyed (step r st) =
      Step-IsKeyed (Reach-IsSound p engine db_bytes exporters r).valid (Reach-IsKeyed r) st

  -- Of all rows that were ever accepted, also those deleted since, no two have one machine and one
  -- sequence number, and the next number of a machine is above all that it has given.
  pub accepted_keys_unique :
      {σ : System}
      → Reach p engine db_bytes exporters σ
      → Distinct σ.accepted × All (λ r. r.seq < (next_seq r.machine_id σ.store).0) σ.accepted
  accepted_keys_unique {σ} reached =
      let k = Reach-IsKeyed reached in
      (
        k.distinct,
        All-map (WithinSeq σ.store) _ σ.accepted
            (λ r b. omega (arith, next_seq-value r.machine_id σ.store)) k.within,
      )
