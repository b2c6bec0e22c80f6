-- ===== src/Exporter/Independent.antt =====
-- Exporters of different names are independent; those of one name are not.
use open_machine_protocol.Prelude.{
  ℕ, ◌<◌, ◌≡◌, ◌≢◌, refl, sym, subst, ap, ◌∙◌, Bool, true, false, List, [], ◌∷◌, ◌++◌, arith,
  is_empty, length, All, All-Member, All-of_Member, List-cases, inl, inr, if◌then◌else◌,
}
use open_machine_protocol.Store.{Store, BufferRow}
use open_machine_protocol.Store.Invariant.{Ascending}
use open_machine_protocol.Store.Delivery.{unread}
use open_machine_protocol.Exporter.{returned, stopped, drain}
use open_machine_protocol.Exporter.Drain.{deliver, ended_with, drain_lem}
use open_machine_protocol.Exporter.Others.{drain-other}
use open_machine_protocol.Exporter.Fanout.{Destination, Drained, worlds_of, behind, drain_all}

module _ {W : Type 0} where
  -- What the destinations come to if each is delivered its own unread rows of one store, in order up to the
  -- first that fails; and whether none did.
  pub fan : List (Destination W) → Store → Bool × List W
  fan [] s = (true, [])
  fan (d ∷ ds) s =
      let (w, left) = deliver d.publish (unread d.name s) d.world in
      let (open_still, ws) = fan ds s in
      if is_empty left then (open_still, w ∷ ws) else (false, w ∷ worlds_of ds)

  abbrev pub DistinctNames : List (Destination W) → Type 0
  DistinctNames [] = Unit
  DistinctNames (d ∷ ds) = All (λ e. d.name ≢ e.name) ds × DistinctNames ds

  fan-eq :
      (ds : List (Destination W)) (s s' : Store)
      → All (λ d. unread d.name s' ≡ unread d.name s) ds
      → fan ds s' ≡ fan ds s
  unfolding fan
  fan-eq [] s s' h = refl
  fan-eq (d ∷ ds) s s' h = rw (h.0, fan-eq ds s s' h.1) refl

  -- One exporter whose drain is over, and the rest.
  abbrev outcome : Drained W → Bool × List W
  outcome r = (r.open_still, r.worlds)

  drain_all-all :
      (fuel : ℕ) (d : Destination W) (ds : List (Destination W)) (s : Store) (n : ℕ)
      → (drain d.publish d.name fuel 500 d.world s).ended ≡ returned n
      → drain_all fuel (d ∷ ds) s
        ≡ behind
            (drain d.publish d.name fuel 500 d.world s).world
            (drain_all fuel ds (drain d.publish d.name fuel 500 d.world s).store)
  unfolding drain_all
  drain_all-all fuel d ds s n e = rw (drain_all, e) refl

  drain_all-closed :
      (fuel : ℕ) (d : Destination W) (ds : List (Destination W)) (s : Store)
      → (drain d.publish d.name fuel 500 d.world s).ended ≡ stopped
      → outcome (drain_all fuel (d ∷ ds) s)
        ≡ (false, (drain d.publish d.name fuel 500 d.world s).world ∷ worlds_of ds)
  unfolding drain_all
  drain_all-closed fuel d ds s e = rw (drain_all, e) refl

  fan-all :
      (d : Destination W) (ds : List (Destination W)) (s : Store)
      → (deliver d.publish (unread d.name s) d.world).1 ≡ []
      → fan (d ∷ ds) s
        ≡ ((fan ds s).0, (deliver d.publish (unread d.name s) d.world).0 ∷ (fan ds s).1)
  unfolding fan
  fan-all d ds s e = rw e refl

  fan-closed :
      (d : Destination W) (ds : List (Destination W)) (s : Store) (x : BufferRow)
      (xs : List BufferRow)
      → (deliver d.publish (unread d.name s) d.world).1 ≡ x ∷ xs
      → fan (d ∷ ds) s ≡ (false, (deliver d.publish (unread d.name s) d.world).0 ∷ worlds_of ds)
  unfolding fan
  fan-closed d ds s x xs e = rw e refl

  -- What is unread for the others after the first drain.
  unread_later :
      (fuel : ℕ) (d : Destination W) (ds : List (Destination W)) (s : Store)
      → All (λ e. d.name ≢ e.name) ds
      → All
          (λ e. unread e.name (drain d.publish d.name fuel 500 d.world s).store ≡ unread e.name s)
          ds
  unread_later fuel d ds s distinct = All-of_Member _ ds (λ e m.
      drain-other d.publish d.name e.name (All-Member (λ x. d.name ≢ x.name) e ds distinct m) fuel
        500 d.world s)

  outcome-fan :
      (fuel : ℕ) (ds : List (Destination W)) (s : Store)
      → Ascending 0 s.buffer
      → DistinctNames ds
      → All (λ d. length (unread d.name s) < fuel) ds
      → outcome (drain_all fuel ds s) ≡ fan ds s
  unfolding drain_all fan
  outcome-fan fuel [] s a distinct enough = refl
  outcome-fan fuel (d ∷ ds) s a distinct enough =
      let run = drain d.publish d.name fuel 500 d.world s in
      let b = drain_lem d.publish d.name fuel 500 d.world s a (omega arith) enough.0 in
      let later = unread_later fuel d ds s distinct.0 in
      elim (List-cases (deliver d.publish (unread d.name s) d.world).1) [
        | inl all ↦
            let ends : run.ended ≡ returned (length (unread d.name s)) =
              b.ended ∙ ap (λ l. ended_with l (length (unread d.name s))) all in
            let rest = outcome-fan fuel ds run.store (rw (b.buffer) a) distinct.1 (
              All-of_Member _ ds (λ e m.
                subst (λ l. length l < fuel)
                  (sym (All-Member (λ x. unread x.name run.store ≡ unread x.name s) e ds later m))
                  (All-Member (λ x. length (unread x.name s) < fuel) e ds enough.1 m))) in
            ap outcome (drain_all-all fuel d ds s _ ends)
            ∙ ap (λ (o : Bool × List W). (o.0, run.world ∷ o.1))
                (rest ∙ fan-eq ds s run.store later)
            ∙ ap (λ w. ((fan ds s).0, w ∷ (fan ds s).1)) (b.world)
            ∙ sym (fan-all d ds s all)
        | inr (x, xs, left) ↦
            let ends : run.ended ≡ stopped =
              b.ended ∙ ap (λ l. ended_with l (length (unread d.name s))) left in
            drain_all-closed fuel d ds s ends
            ∙ ap (λ w. (false, w ∷ worlds_of ds)) (b.world)
            ∙ sym (fan-closed d ds s x xs left)
      ]

  -- Whatever the destinations do, a call of `drain` over exporters of different names delivers to each what
  -- is unread for it in the store before the call, in the order of the exporters up to the first whose
  -- destination is closed, and returns whether none is.
  pub drain_all-fan :
      (fuel : ℕ) (ds : List (Destination W)) (s : Store)
      → Ascending 0 s.buffer
      → DistinctNames ds
      → All (λ d. length (unread d.name s) < fuel) ds
      → (drain_all fuel ds s).open_still ≡ (fan ds s).0
        × (drain_all fuel ds s).worlds ≡ (fan ds s).1
  drain_all-fan fuel ds s a distinct enough =
      let e = outcome-fan fuel ds s a distinct enough in (ap (λ o. o.0) e, ap (λ o. o.1) e)

  fan_none :
      (e : Destination W) (s : Store) → unread e.name s ≡ [] → fan (e ∷ []) s ≡ (true, e.world ∷ [])
  unfolding fan deliver
  fan_none e s h = rw h refl

  -- Of two exporters with one name, such as those of two MQTT brokers, the second is given nothing where the
  -- first takes all its rows: they share one cursor.
  pub drain_all-starved :
      (fuel : ℕ) (d e : Destination W) (s : Store)
      → Ascending 0 s.buffer
      → d.name ≡ e.name
      → length (unread d.name s) < fuel
      → (deliver d.publish (unread d.name s) d.world).1 ≡ []
      → (drain_all fuel (d ∷ e ∷ []) s).worlds
        ≡ (deliver d.publish (unread d.name s) d.world).0 ∷ e.world ∷ []
  drain_all-starved fuel d e s a same enough all =
      let run = drain d.publish d.name fuel 500 d.world s in
      let b = drain_lem d.publish d.name fuel 500 d.world s a (omega arith) enough in
      let ends : run.ended ≡ returned (length (unread d.name s)) =
        b.ended ∙ ap (λ l. ended_with l (length (unread d.name s))) all in
      let nothing_left : unread e.name run.store ≡ [] =
        subst (λ n. unread n run.store ≡ []) same (b.unread_left ∙ ap (λ l. l ++ []) all) in
      let second =
        drain_all-fan fuel (e ∷ []) run.store (rw (b.buffer) a) (tt, tt)
          (subst (λ l. length l < fuel) (sym nothing_left) (omega arith), tt) in
      ap (λ r. r.worlds) (drain_all-all fuel d (e ∷ []) s _ ends)
      ∙ ap (λ ws. run.world ∷ ws) (second.1 ∙ ap (λ o. o.1) (fan_none e run.store nothing_left))
      ∙ ap (λ w. w ∷ e.world ∷ []) (b.world)
