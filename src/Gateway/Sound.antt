-- ===== src/Gateway/Sound.antt =====
-- The invariant of the running gateway, and that each step keeps it.
use mathlib.Core.List.{append-nil}
use open_machine_protocol.Prelude.{
  ℕ, ◌+◌, ◌≤◌, ◌≡◌, subst, ap, String, inl, inr, ◌⊎◌, Option, some, List, [], ◌∷◌, ◌++◌, arith,
  str_eq, eq_iff, Member, Member-append_left, Member-append_right, Member-append_cases,
  Member-of_select, Member-select, Bool-cases, All, All-map, All-Member, All-of_Member, All-append,
  All-take, All-select,
}
use open_machine_protocol.Envelope.{Primitives}
use open_machine_protocol.Store.{Store, BufferRow, cursor, ack, pending, new_row}
use open_machine_protocol.Store.Invariant.{IsValid, WithinRowid, ack-IsValid, empty-IsValid}
use open_machine_protocol.Store.Delivery.{cursor-ack}
use open_machine_protocol.Store.Prune.{Summary, prune}
use open_machine_protocol.Store.Prune.Outcome.{prune-Deletes, prune-IsValid}
use open_machine_protocol.Engine.{Engine, Outcome, buffered, dead_lettered, integrity_error}
use open_machine_protocol.Engine.Totality.{Processed}
use open_machine_protocol.Gateway.{Phase, sending, published, System, start, set_phase, rows_of}
use open_machine_protocol.Gateway.Trace.{Delivered, DeliveredBelow, Chain-fetch, Nat-cases}
use open_machine_protocol.Gateway.Ready.{Ready, set_phase_all, Ready-more, Ready-new, cursor_eq}

module _ (p : Primitives) (engine : Engine) (db_bytes : Store → ℕ) (exporters : List String) where
  -- A row is in the buffer, or every configured exporter has published it.
  abbrev pub IsSafe : System → BufferRow → Type 0
  IsSafe σ r =
      Member r σ.store.buffer ⊎ ((e : String) → Member e exporters → Delivered e σ.delivered r)

  pub record IsSound (σ : System) : Type 0 where
    pub valid : IsValid σ.store
    pub numbered : All (WithinRowid σ.store.last_rowid) σ.accepted
    pub known : (r : BufferRow) → Member r σ.store.buffer → Member r σ.accepted
    pub before :
        (e : String) (r : BufferRow)
        → Member r σ.accepted
        → r.rowid_pk ≤ cursor σ.store e
        → Delivered e σ.delivered r
    pub held : (r : BufferRow) → Member r σ.accepted → IsSafe σ r
    pub ready : (e : String) → Ready σ.delivered σ.accepted e (σ.phase e)

  pub start-IsSound : IsSound start
  start-IsSound = record {
    valid = empty-IsValid;
    numbered = tt;
    known = λ r m. m;
    before = λ e r m. absurd m;
    held = λ r m. absurd m;
    ready = λ e. tt;
  }

  pub fetch-IsSound :
      (σ : System) (e : String) (batch : ℕ)
      → Member e exporters
      → IsSound σ
      → IsSound (record σ { phase = set_phase σ.phase e (sending (pending e batch σ.store)) })
  unfolding pending
  fetch-IsSound σ e batch m v = record {
    valid = v.valid;
    numbered = v.numbered;
    known = v.known;
    before = v.before;
    held = v.held;
    ready =
        set_phase_all (Ready σ.delivered σ.accepted) σ.phase e _
          (
            Chain-fetch e σ.accepted batch (cursor σ.store e) σ.delivered σ.store.buffer
                v.valid.ascending (v.before e)
                (λ r here. elim (v.held r here) [
                  | inl still ↦ inl still
                  | inr all ↦ inr (all e m)
                ]),
            All-take (λ r. Member r σ.accepted) batch _
                (All-select (λ r. Member r σ.accepted) _ σ.store.buffer
                  (All-of_Member (λ r. Member r σ.accepted) σ.store.buffer v.known)),
          )
          v.ready;
  }

  -- A drain that gives its batch up, for a failure or a restart.
  pub idle-IsSound :
      (σ : System) (phase' : String → Phase)
      → IsSound σ
      → ((e : String) → Ready σ.delivered σ.accepted e (phase' e))
      → IsSound (record σ { phase = phase' })
  idle-IsSound σ phase' v r = record {
    valid = v.valid;
    numbered = v.numbered;
    known = v.known;
    before = v.before;
    held = v.held;
    ready = r;
  }

  pub publish-IsSound :
      (σ : System) (e : String) (r : BufferRow) (rows : List BufferRow)
      → σ.phase e ≡ sending (r ∷ rows)
      → IsSound σ
      → IsSound (record σ {
        phase = set_phase σ.phase e (published r rows);
        delivered = (e, r.rowid_pk) ∷ σ.delivered;
      })
  publish-IsSound σ e r rows at_e v =
      let h : Ready σ.delivered σ.accepted e (sending (r ∷ rows)) =
        subst (Ready σ.delivered σ.accepted e) at_e (v.ready e) in
      record {
        valid = v.valid;
        numbered = v.numbered;
        known = v.known;
        before = λ x q m b. inr (v.before x q m b);
        held = λ q m. elim (v.held q m) [
          | inl still ↦ inl still
          | inr all ↦ inr (λ x mx. inr (all x mx))
        ];
        ready =
            set_phase_all (Ready ((e, r.rowid_pk) ∷ σ.delivered) σ.accepted) σ.phase e _
              (upto σ.accepted h.0.0, h.1.0, h.0.1, h.1.1)
              (λ x. Ready-more σ.delivered (e, r.rowid_pk) σ.accepted x (σ.phase x) (v.ready x));
      }
    where
      upto :
          (acc : List BufferRow)
          → DeliveredBelow e σ.delivered r.rowid_pk acc
          → DeliveredBelow e ((e, r.rowid_pk) ∷ σ.delivered) (r.rowid_pk + 1) acc
      upto acc below q m b = elim (Nat-cases q.rowid_pk r.rowid_pk (omega arith)) [
        | inl same ↦ inl (ap (λ n. (e, n)) same)
        | inr less ↦ inr (below q m less)
      ]

  pub acknowledge-IsSound :
      (σ : System) (e : String) (r : BufferRow) (rows : List BufferRow)
      → σ.phase e ≡ published r rows
      → IsSound σ
      → IsSound (record σ {
        store = ack e r.rowid_pk σ.store;
        phase = set_phase σ.phase e (sending rows);
      })
  unfolding ack
  acknowledge-IsSound σ e r rows at_e v =
      let h : Ready σ.delivered σ.accepted e (published r rows) =
        subst (Ready σ.delivered σ.accepted e) at_e (v.ready e) in
      record {
        valid =
            ack-IsValid e r.rowid_pk σ.store
              (All-Member (WithinRowid σ.store.last_rowid) r σ.accepted v.numbered h.1) v.valid;
        numbered = v.numbered;
        known = v.known;
        before = λ x q m b. acked_before x q m h.0 b;
        held = v.held;
        ready = set_phase_all (Ready σ.delivered σ.accepted) σ.phase e _ (h.2, h.3) v.ready;
      }
    where
      acked_before :
          (x : String) (q : BufferRow)
          → Member q σ.accepted
          → DeliveredBelow e σ.delivered (r.rowid_pk + 1) σ.accepted
          → q.rowid_pk ≤ cursor (ack e r.rowid_pk σ.store) x
          → Delivered x σ.delivered q
      acked_before x q m upto b = elim (Bool-cases (str_eq e x)) [
        | inl same ↦
            let bound : q.rowid_pk ≤ r.rowid_pk =
              rw (cursor-ack e x r.rowid_pk σ.store, same) at b in
            subst (λ y. Delivered y σ.delivered q) ((eq_iff e x).0 same) (upto q m (omega arith))
        | inr other ↦
            let bound : q.rowid_pk ≤ cursor σ.store x =
              rw (cursor-ack e x r.rowid_pk σ.store, other) at b in
            v.before x q m bound
      ]

  pub retain-IsSound :
      (σ : System) (retention now : ℕ) (max_bytes : Option ℕ) (sm : Summary) (s' : Store)
      → prune db_bytes exporters retention max_bytes now σ.store ≡ some (sm, s')
      → IsSound σ
      → IsSound (record σ { store = s' })
  retain-IsSound σ retention now max_bytes sm s' h v =
      let d = prune-Deletes db_bytes retention max_bytes now σ.store exporters sm s' h in
      record {
        valid = prune-IsValid db_bytes retention max_bytes now σ.store exporters sm s' h v.valid;
        numbered = rw (d.last_rowid) v.numbered;
        known = λ r m.
            v.known r
              (Member-of_select d.keep r σ.store.buffer (subst (λ l. Member r l) d.buffer m)).0;
        before = λ e r m b.
            v.before e r m
              (subst (λ n. r.rowid_pk ≤ n) (cursor_eq σ.store s' e d.exporter_cursors) b);
        held = λ r m. elim (v.held r m) [
          | inl still ↦ elim (Bool-cases (d.keep r)) [
            | inl kept ↦ inl (rw (d.buffer) (Member-select d.keep r σ.store.buffer still kept))
            | inr gone ↦ inr (λ e me. v.before e r m (d.safe r e gone me))
          ]
          | inr all ↦ inr all
        ];
        ready = v.ready;
      }

  -- What a call of `process` leaves keeps the invariant, on each way it ends.
  pub emitted-IsSound :
      (σ : System) (m : String) (t : ℕ) (out : Outcome × Store)
      → Processed p engine m t σ.store out
      → IsSound σ
      → IsSound (record σ { store = out.1; accepted = σ.accepted ++ rows_of out.0 t σ.store })
  emitted-IsSound σ m t (integrity_error, s') h v = absurd h
  emitted-IsSound σ m t (dead_lettered reason, s') h v = rw append-nil (record {
    valid = h.numbered.valid;
    numbered = rw (h.last_rowid) v.numbered;
    known = λ r k. v.known r (subst (λ l. Member r l) h.buffer k);
    before = λ e r k b.
        v.before e r k
          (subst (λ n. r.rowid_pk ≤ n) (cursor_eq σ.store s' e h.numbered.exporter_cursors) b);
    held = λ r k. rw (h.buffer) (v.held r k);
    ready = v.ready;
  })
  emitted-IsSound σ m t (buffered e, s') h v =
      let row = new_row e t σ.store in
      let new = row ∷ [] in
      record {
        valid = h.numbered.valid;
        numbered = rw (h.last_rowid) (
            All-append (WithinRowid (σ.store.last_rowid + 1)) σ.accepted new
              (All-map (WithinRowid σ.store.last_rowid) _ σ.accepted (λ r b. omega arith)
                v.numbered)
              (omega arith));
        known = λ r k.
            elim (Member-append_cases r σ.store.buffer new (subst (λ l. Member r l) h.buffer k)) [
              | inl old ↦ Member-append_left r σ.accepted new (v.known r old)
              | inr fresh ↦ Member-append_right r σ.accepted new fresh
            ];
        before = λ x r k b.
            let bound : r.rowid_pk ≤ cursor σ.store x =
              subst (λ n. r.rowid_pk ≤ n) (cursor_eq σ.store s' x h.numbered.exporter_cursors) b in
            elim (Member-append_cases r σ.accepted new k) [
              | inl old ↦ v.before x r old bound
              | inr (inl same) ↦
                  absurd (omega (arith, v.valid.cursors x, ap (λ (q : BufferRow). q.rowid_pk) same))
              | inr (inr none_left) ↦ absurd none_left
            ];
        held = λ r k. elim (Member-append_cases r σ.accepted new k) [
          | inl old ↦ elim (v.held r old) [
            | inl still ↦ inl (rw (h.buffer) (Member-append_left r σ.store.buffer new still))
            | inr all ↦ inr all
          ]
          | inr fresh ↦ inl (rw (h.buffer) (Member-append_right r σ.store.buffer new fresh))
        ];
        ready = λ x.
            Ready-new σ.delivered σ.store.last_rowid σ.accepted new x (σ.phase x) v.numbered
              (omega arith) (v.ready x);
      }
