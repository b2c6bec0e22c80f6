-- ===== src/Json/Lengths.antt =====
-- How long the canonical text of a dict is, whatever the order of its keys.
use open_machine_protocol.Prelude.{
  ℕ, ◌+◌, ◌-◌, ◌≡◌, refl, ap, ◌∙◌, List, [], ◌∷◌, ◌++◌, arith, length, length-append, Bool-cases,
  inl, inr,
}
use open_machine_protocol.Json.Dumps.{
  Entry, codes, quoted, text_lt, insert_sorted, sort_entries, join_commas, entry_texts, braces,
}

-- An entry counts its key, a colon, its value and a comma.
unfoldable pub weight : List Entry → ℕ
weight [] = 0
weight (e ∷ es) = length (quoted e.0) + length e.1 + 2 + weight es

weight-insert_sorted : (e : Entry) (es : List Entry) → weight (insert_sorted e es) ≡ weight (e ∷ es)
unfolding weight insert_sorted
weight-insert_sorted e [] = refl
weight-insert_sorted e (x ∷ es) = elim (Bool-cases (text_lt (codes x.0) (codes e.0))) [
  | inl before ↦ rw before (omega (arith, weight-insert_sorted e es))
  | inr after ↦ rw after refl
]

weight-sort_entries : (es : List Entry) → weight (sort_entries es) ≡ weight es
unfolding weight sort_entries
weight-sort_entries [] = refl
weight-sort_entries (e ∷ es) =
    weight-insert_sorted e (sort_entries es)
    ∙ ap (λ n. length (quoted e.0) + length e.1 + 2 + n) (weight-sort_entries es)

length-entry :
    (e : Entry) → length (quoted e.0 ++ b':' ∷ e.1) ≡ length (quoted e.0) + length e.1 + 1
length-entry e = omega (arith, length-append (quoted e.0) (b':' ∷ e.1))

length-join_commas : (es : List Entry) → length (join_commas (entry_texts es)) ≡ weight es - 1
unfolding weight join_commas entry_texts
length-join_commas [] = refl
length-join_commas (e ∷ []) = omega (arith, length-entry e)
length-join_commas (e ∷ f ∷ es) = omega (
  arith,
  length-entry e,
  length-join_commas (f ∷ es),
  length-append (quoted e.0 ++ b':' ∷ e.1) (b',' ∷ join_commas (entry_texts (f ∷ es))),
)

-- The braces stand in place of the last comma and one character more.
pub length-braces : (es : List Entry) → length (braces es) ≡ weight es - 1 + 2
unfolding braces
length-braces es = omega (
  arith,
  length-append (join_commas (entry_texts (sort_entries es))) (b'}' ∷ []),
  length-join_commas (sort_entries es),
  weight-sort_entries es,
)
