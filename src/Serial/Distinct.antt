-- ===== src/Serial/Distinct.antt =====
-- The aggregator of adapters/generic-serial/protocol.py holds one window for each channel.
use open_machine_protocol.Prelude.{
  ℕ, ◌≡◌, ◌∙◌, String, none, [], ◌∷◌, arith, str_eq, Bool-cases, Option-cases, inl, inr,
}
use open_machine_protocol.Prelude.Int.{ℤ}
use open_machine_protocol.Dict.{Dict, lookup, delete, lookup-delete, Distinct, insert-Distinct}
use open_machine_protocol.Serial.{Acc, opened, sampled, close_or_keep, add}

lookup-delete_other :
    (k j : String) (acc : Dict Acc) → lookup j acc ≡ none → lookup j (delete k acc) ≡ none
lookup-delete_other k j acc h = lookup-delete k j acc ∙ ground arith

delete-Distinct : (k : String) (acc : Dict Acc) → Distinct acc → Distinct (delete k acc)
unfolding delete
delete-Distinct k [] h = tt
delete-Distinct k ((j, b) ∷ acc) h = elim (Bool-cases (str_eq j k)) [
  | inl same ↦ rw same (delete-Distinct k acc h.1)
  | inr other ↦ rw other (lookup-delete_other k j acc h.0, delete-Distinct k acc h.1)
]

close_or_keep-Distinct :
    (window : ℕ) (channel ts : String) (mono : ℕ) (a : Acc) (acc : Dict Acc)
    → Distinct acc
    → Distinct (close_or_keep window channel ts mono a acc).1
unfolding close_or_keep
close_or_keep-Distinct window channel ts mono a acc h =
    ground (arith, insert-Distinct channel a acc h, delete-Distinct channel acc h)

pub add-Distinct :
    (window : ℕ) (channel unit ts : String) (v : ℤ) (mono : ℕ) (acc : Dict Acc)
    → Distinct acc
    → Distinct (add window channel unit v ts mono acc).1
unfolding add
add-Distinct window channel unit ts v mono acc h = elim (Option-cases (lookup channel acc)) [
  | inl first ↦ rw (first, add) (insert-Distinct channel (opened unit v ts mono) acc h)
  | inr (a, e) ↦ rw (e, add) (close_or_keep-Distinct window channel ts mono (sampled a v) acc h)
]
