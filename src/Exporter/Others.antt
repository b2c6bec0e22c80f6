-- ===== src/Exporter/Others.antt =====
-- A drain leaves what the exporters of other names have yet to be sent.
use open_machine_protocol.Prelude.{
  ℕ, zero, suc, ◌+◌, ◌≡◌, ◌≢◌, refl, ap, ◌∙◌, String, Option, List, [], ◌∷◌, arith, eq_iff, select,
  is_empty, Option-cases, Bool-cases, inl, inr, ◌⊎◌,
}
use open_machine_protocol.Envelope.{Envelope}
use open_machine_protocol.Store.{Store, BufferRow, is_after, pending, ack}
use open_machine_protocol.Store.Delivery.{unread, cursor-ack}
use open_machine_protocol.Exporter.{
  Ended, returned, stopped, out_of_fuel, send_batch, next_round, drain_from, drain,
}

unread-ack_other :
    (name other : String) (rowid : ℕ) (s : Store)
    → name ≢ other
    → unread other (ack name rowid s) ≡ unread other s
unfolding unread ack
unread-ack_other name other rowid s ne =
    ap (λ c. select (is_after c) s.buffer)
      (cursor-ack name other rowid s ∙ ground (arith, eq_iff name other))

Ended-cases : (e : Ended) → ((n : ℕ) × (e ≡ returned n)) ⊎ ((e ≡ stopped) ⊎ (e ≡ out_of_fuel))
Ended-cases (returned n) = inl (n, refl)
Ended-cases stopped = inr (inl refl)
Ended-cases out_of_fuel = inr (inr refl)

module _ {W : Type 0} (publish : W → Envelope → Option W) (name other : String)
    (ne : name ≢ other) where
  send_batch-other :
      (rows : List BufferRow) (sent : ℕ) (w : W) (s : Store)
      → unread other (send_batch publish name rows sent w s).store ≡ unread other s
  unfolding send_batch
  send_batch-other [] sent w s = refl
  send_batch-other (r ∷ rows) sent w s = elim (Option-cases (publish w r.envelope)) [
    | inl fails ↦ rw (fails, send_batch)
    | inr (w', e) ↦
        rw (e, send_batch)
          (send_batch-other rows (sent + 1) w' (ack name r.rowid_pk s)
            ∙ unread-ack_other name other r.rowid_pk s ne)
  ]

  drain_from-other :
      (fuel batch sent : ℕ) (w : W) (s : Store)
      → unread other (drain_from publish name fuel batch sent w s).store ≡ unread other s
  unfolding drain_from
  drain_from-other zero batch sent w s = refl
  drain_from-other (suc fuel) batch sent w s = elim (Bool-cases (is_empty (pending name batch s))) [
    | inl done ↦ rw (done, drain_from)
    | inr more ↦
        let run = send_batch publish name (pending name batch s) sent w s in
        let first = send_batch-other (pending name batch s) sent w s in
        elim (Ended-cases run.ended) [
          | inl (n, e) ↦
              rw (more, drain_from, next_round, e)
                (drain_from-other fuel batch n run.world run.store ∙ first)
          | inr (inl e) ↦ rw (more, drain_from, next_round, e) first
          | inr (inr e) ↦ rw (more, drain_from, next_round, e) first
        ]
  ]

  pub drain-other :
      (fuel batch : ℕ) (w : W) (s : Store)
      → unread other (drain publish name fuel batch w s).store ≡ unread other s
  unfolding drain
  drain-other fuel batch w s = drain_from-other fuel batch 0 w s
