-- ===== src/Poll/History.antt =====
-- What the events of a register in `on_change` mode tell.
use open_machine_protocol.Prelude.{
  ◌≡◌, refl, ap, subst, String, none, some, List, [], ◌∷◌, arith, Bool-cases, inl, inr,
  if◌then◌else◌,
}
use open_machine_protocol.Prelude.Int.{ℤ, eq_of_parts}
use open_machine_protocol.Dict.{Dict, lookup, insert, lookup-insert_self}
use open_machine_protocol.Poll.{Emission, changed, on_change, eq_ℤ, emit_value, emissions}

-- The values read after `v`, without those that repeat the one before.
pub changes : ℤ → List ℤ → List ℤ
changes v [] = []
changes v (w ∷ ws) = let rest = changes w ws in if eq_ℤ w v then rest else w ∷ rest

-- The events from the state `v` on, one for each new state, each from the state before.
pub history : ℤ → List ℤ → List Emission
history v [] = []
history v (w ∷ ws) = changed v w ∷ history w ws

emissions-history :
    (name : String) (v : ℤ) (ws : List ℤ) (last : Dict ℤ)
    → lookup name last ≡ some v
    → emissions on_change name ws last ≡ history v (changes v ws)
unfolding emissions emit_value history changes
emissions-history name v [] last h = refl
emissions-history name v (w ∷ ws) last h =
    let ih = emissions-history name w ws (insert name w last) (lookup-insert_self name w last) in
    elim (Bool-cases (eq_ℤ w v)) [
      | inl same ↦
          let e : w ≡ v = eq_of_parts w v (ground arith) in
          rw (h, same, emissions)
            (subst
              (λ x. emissions on_change name ws (insert name w last) ≡ history x (changes w ws)) e
              ih)
      | inr new ↦ rw (h, new, emissions) (ap (λ es. changed v w ∷ es) ih)
    ]

-- In `on_change` mode the events of a register, from its first read on, tell its whole history: there is
-- one for each value that differs from the one before, in order, from that one to the new one.
pub emissions-tell_history :
    (name : String) (v : ℤ) (ws : List ℤ) (last : Dict ℤ)
    → lookup name last ≡ none
    → emissions on_change name (v ∷ ws) last ≡ history v (changes v ws)
unfolding emissions emit_value
emissions-tell_history name v ws last h =
    rw (h, emissions)
      (emissions-history name v ws (insert name v last) (lookup-insert_self name v last))
