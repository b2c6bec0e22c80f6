-- ===== src/Store/Seq.antt =====
-- The sequence counters of gateway/omp/core/store.py.
use open_machine_protocol.Prelude.{
  ◌+◌, ◌≤◌, ◌≡◌, refl, String, arith, str_eq, eq_iff, if◌then◌else◌,
}
use open_machine_protocol.Dict.{lookup-insert}
use open_machine_protocol.Store.{Store, last_seq, next_seq}

module _ (machine_id : String) (s : Store) where
  pub next_seq-value : (next_seq machine_id s).0 ≡ last_seq s machine_id + 1
  unfolding next_seq
  next_seq-value = refl

  pub last_seq-next_seq :
      (m : String)
      → last_seq (next_seq machine_id s).1 m
        ≡ (if str_eq machine_id m then last_seq s machine_id + 1 else last_seq s m)
  unfolding next_seq
  last_seq-next_seq m =
      ground (arith, lookup-insert machine_id m (last_seq s machine_id + 1) s.seq_counters)

  pub last_seq-le-next_seq : (m : String) → last_seq s m ≤ last_seq (next_seq machine_id s).1 m
  last_seq-le-next_seq m = rw (last_seq-next_seq m) (ground (arith, eq_iff machine_id m))

pub last_seq-next_seq_self :
    (m : String) (s : Store) → last_seq (next_seq m s).1 m ≡ last_seq s m + 1
last_seq-next_seq_self m s = rw (last_seq-next_seq m s m) (ground (arith, eq_iff m m))
