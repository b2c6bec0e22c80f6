-- ===== src/Exporter/Drain.antt =====
-- `drain` refines a plain delivery of the unread rows, whatever the batch size is.
use mathlib.Core.List.{append-nil}
use open_machine_protocol.Prelude.{
  ℕ, zero, suc, ◌+◌, ◌<◌, ◌≡◌, refl, sym, ap, subst, ◌∙◌, String, Option, none, some, List, [], ◌∷◌,
  ◌++◌, arith, length, length-append, take, drop, take-append-drop, take-eq-nil, Option-cases,
  List-cases, inl, inr, is_empty, if◌then◌else◌,
}
use open_machine_protocol.Envelope.{Envelope}
use open_machine_protocol.Store.{Store, BufferRow, ack}
use open_machine_protocol.Store.Invariant.{Ascending, IsValid}
use open_machine_protocol.Store.Delivery.{unread, unread-ack, pending-eq-take}
use open_machine_protocol.Exporter.{
  Ended, returned, stopped, Run, send_batch, next_round, drain_from, drain,
}

module _ {W : Type 0} (publish : W → Envelope → Option W) where
  -- The specification: rows are published in order up to the first failure; the others are left.
  unfoldable pub deliver : List BufferRow → W → W × List BufferRow
  deliver [] w = (w, [])
  deliver (r ∷ rows) w = elim (publish w r.envelope) [
    | none ↦ (w, r ∷ rows)
    | some w' ↦ deliver rows w'
  ]

abbrev pub ended_with : List BufferRow → ℕ → Ended
ended_with [] sent = returned sent
ended_with (r ∷ rows) sent = stopped

-- What a run from `s` did: `d` is the delivery of the rows that it took, `total` their number, and
-- `rest` the unread rows behind them.
pub record Delivers {W : Type 0} (name : String) (s : Store) (d : W × List BufferRow)
    (rest : List BufferRow) (total : ℕ) (run : Run W) : Type 0 where
  pub ended : run.ended ≡ ended_with d.1 total
  pub world : run.world ≡ d.0
  pub unread_left : unread name run.store ≡ d.1 ++ rest
  pub buffer : run.store.buffer ≡ s.buffer
  pub seq_counters : run.store.seq_counters ≡ s.seq_counters

module _ {W : Type 0} (publish : W → Envelope → Option W) (name : String) where
  send_batch_lem :
      (rows rest : List BufferRow) (sent total : ℕ) (w : W) (s : Store)
      → Ascending 0 s.buffer
      → unread name s ≡ rows ++ rest
      → sent + length rows ≡ total
      → Delivers name s (deliver publish rows w) rest total (send_batch publish name rows sent w s)
  unfolding send_batch deliver ack
  send_batch_lem [] rest sent total w s a h n = record {
    ended = ap returned (omega arith);
    world = refl;
    unread_left = h;
    buffer = refl;
    seq_counters = refl;
  }
  send_batch_lem (r ∷ rows) rest sent total w s a h n = elim (Option-cases (publish w r.envelope)) [
    | inl fails ↦
        rw (fails, send_batch, deliver)
          (record {
            ended = refl;
            world = refl;
            unread_left = h;
            buffer = refl;
            seq_counters = refl;
          })
    | inr (w', e) ↦
        let b =
          send_batch_lem rows rest (sent + 1) total w' (ack name r.rowid_pk s) (a)
            (unread-ack name s r (rows ++ rest) a h) (omega arith) in
        rw (e, send_batch, deliver)
          (record {
            ended = b.ended;
            world = b.world;
            unread_left = b.unread_left;
            buffer = b.buffer;
            seq_counters = b.seq_counters;
          })
  ]

  -- Delivering two parts is delivering the one and, if nothing failed, the other.
  deliver-append :
      (rows rest : List BufferRow) (w : W)
      → deliver publish (rows ++ rest) w ≡ (
          let d = deliver publish rows w in
          if is_empty d.1 then deliver publish rest d.0 else (d.0, d.1 ++ rest))
  unfolding deliver
  deliver-append [] rest w = refl
  deliver-append (r ∷ rows) rest w = elim (Option-cases (publish w r.envelope)) [
    | inl fails ↦ rw (fails, deliver)
    | inr (w', e) ↦ rw (e, deliver) (deliver-append rows rest w')
  ]

  next_round-returned :
      (again : ℕ → W → Store → Run W) (run : Run W) (n : ℕ)
      → run.ended ≡ returned n
      → next_round again run ≡ again n run.world run.store
  next_round-returned again run n e = rw e

  next_round-stopped :
      (again : ℕ → W → Store → Run W) (run : Run W)
      → run.ended ≡ stopped
      → next_round again run ≡ run
  next_round-stopped again run e = rw e

  -- A later part of the run, seen from the start.
  Delivers-from :
      (s s' : Store) (d : W × List BufferRow) (total : ℕ) (run : Run W)
      → s'.buffer ≡ s.buffer
      → s'.seq_counters ≡ s.seq_counters
      → Delivers name s' d [] total run
      → Delivers name s d [] total run
  Delivers-from s s' d total run e f b = record {
    ended = b.ended;
    world = b.world;
    unread_left = b.unread_left;
    buffer = b.buffer ∙ e;
    seq_counters = b.seq_counters ∙ f;
  }

  -- One round of the loop, which sent `rows`, and the rounds behind it.
  module _ (again : ℕ → W → Store → Run W) (mid total : ℕ) (w : W) (s : Store)
      (rows rest : List BufferRow) (run : Run W) (split : unread name s ≡ rows ++ rest)
      (first : Delivers name s (deliver publish rows w) rest mid run) where
    whole : deliver publish (unread name s) w ≡ (
        let d = deliver publish rows w in
        if is_empty d.1 then deliver publish rest d.0 else (d.0, d.1 ++ rest))
    whole = rw split (deliver-append rows rest w)

    round-stopped :
        (x : BufferRow) (xs : List BufferRow)
        → (deliver publish rows w).1 ≡ x ∷ xs
        → Delivers name s (deliver publish (unread name s) w) [] total (next_round again run)
    round-stopped x xs left =
        let stops = rw left at first.ended in
        let all : deliver publish (unread name s) w ≡ ((deliver publish rows w).0, x ∷ xs ++ rest) =
          whole ∙ rw left in
        rw (next_round-stopped again run stops, all)
          (record {
            ended = stops;
            world = first.world;
            unread_left = first.unread_left ∙ (rw (left, append-nil));
            buffer = first.buffer;
            seq_counters = first.seq_counters;
          })

    round-returned :
        (deliver publish rows w).1 ≡ []
        → Delivers name run.store
            (deliver publish (unread name run.store) run.world)
            []
            total
            (again mid run.world run.store)
        → Delivers name s (deliver publish (unread name s) w) [] total (next_round again run)
    round-returned all later =
        let ends = rw all at first.ended in
        let same : deliver publish (unread name run.store) run.world
            ≡ deliver publish (unread name s) w =
          rw (first.unread_left, first.world, all) (sym (whole ∙ rw all)) in
        rw (next_round-returned again run mid ends) (
          Delivers-from s run.store _ total _ first.buffer first.seq_counters (
            subst
              (λ (d : W × List BufferRow).
                Delivers name run.store d [] total (again mid run.world run.store))
              same later))

    round_lem :
        ((deliver publish rows w).1 ≡ []
          → Delivers name run.store
              (deliver publish (unread name run.store) run.world)
              []
              total
              (again mid run.world run.store))
        → Delivers name s (deliver publish (unread name s) w) [] total (next_round again run)
    round_lem later = elim (List-cases (deliver publish rows w).1) [
      | inl all ↦ round-returned all (later all)
      | inr (x, xs, left) ↦ round-stopped x xs left
    ]

  -- The loop, over a nonzero batch size and fuel above the number of unread rows.
  drain_from_lem :
      (fuel batch sent total : ℕ) (w : W) (s : Store)
      → Ascending 0 s.buffer
      → 0 < batch
      → length (unread name s) < fuel
      → sent + length (unread name s) ≡ total
      → Delivers name s
          (deliver publish (unread name s) w)
          []
          total
          (drain_from publish name fuel batch sent w s)
  unfolding drain_from deliver
  drain_from_lem zero batch sent total w s a pos enough n = absurd (omega arith)
  drain_from_lem (suc fuel) batch sent total w s a pos enough n =
      elim (List-cases (take batch (unread name s))) [
        | inl none_left ↦
            let u : unread name s ≡ [] = take-eq-nil batch (unread name s) pos none_left in
            rw (pending-eq-take, none_left)
              (record {
                ended = rw (u, deliver) (ap returned (omega (arith, ap length u)));
                world = rw (u, deliver);
                unread_left = rw (u, deliver);
                buffer = refl;
                seq_counters = refl;
              })
        | inr (r, rows, e) ↦
            let rest = drop batch (unread name s) in
            let split : unread name s ≡ r ∷ rows ++ rest =
              sym (take-append-drop batch (unread name s)) ∙ ap (λ l. l ++ rest) e in
            let run = send_batch publish name (r ∷ rows) sent w s in
            let mid = sent + length (r ∷ rows) in
            let first = send_batch_lem (r ∷ rows) rest sent mid w s a split refl in
            let size : length (unread name s) ≡ length (r ∷ rows) + length rest =
              ap length split ∙ length-append (r ∷ rows) rest in
            rw (pending-eq-take, e)
              (round_lem (drain_from publish name fuel batch) mid total w s (r ∷ rows) rest run
                split first
                (λ all.
                  let left : unread name run.store ≡ rest = first.unread_left ∙ rw all in
                  drain_from_lem fuel batch mid total run.world run.store (rw (first.buffer) a) pos
                    (omega (arith, ap length left)) (omega (arith, ap length left))))
      ]

  -- The same of a store whose rows ascend.
  pub drain_lem :
      (fuel batch : ℕ) (w : W) (s : Store)
      → Ascending 0 s.buffer
      → 0 < batch
      → length (unread name s) < fuel
      → Delivers name s
          (deliver publish (unread name s) w)
          []
          (length (unread name s))
          (drain publish name fuel batch w s)
  unfolding drain
  drain_lem fuel batch w s a pos enough =
      drain_from_lem fuel batch 0 (length (unread name s)) w s a pos enough (omega arith)

  -- A drain, with any batch size, publishes the unread rows in order, up to the first failure, and
  -- leaves unread exactly those that were not published; it raises only if `publish` does.
  pub drain-Delivers :
      (fuel batch : ℕ) (w : W) (s : Store)
      → IsValid s
      → 0 < batch
      → length (unread name s) < fuel
      → let run = drain publish name fuel batch w s in
        let d = deliver publish (unread name s) w in
        (run.world ≡ d.0)
        × (unread name run.store ≡ d.1)
        × (run.ended ≡ (if is_empty d.1 then returned (length (unread name s)) else stopped))
        × (run.store.buffer ≡ s.buffer)
  unfolding drain
  drain-Delivers fuel batch w s v pos enough =
      let b =
        drain_from_lem fuel batch 0 (length (unread name s)) w s v.ascending pos enough
          (omega arith) in
      (
        b.world,
        b.unread_left ∙ append-nil (deliver publish (unread name s) w).1,
        b.ended ∙ ended_with_lem _ _,
        b.buffer,
      )
    where
      ended_with_lem :
          (left : List BufferRow) (n : ℕ)
          → ended_with left n ≡ (if is_empty left then returned n else stopped)
      ended_with_lem [] n = refl
      ended_with_lem (x ∷ xs) n = refl
