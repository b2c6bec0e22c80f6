-- ===== src/Dict.antt =====
-- Python dicts with text keys, and SQL tables whose primary key is one text column, as association
-- lists in insertion order: `d.get(k)`, `d[k] = v` and `INSERT ... ON CONFLICT(k) DO UPDATE`.
use text.Mathlib.TextPositions.{eq_refl}
use open_machine_protocol.Prelude.{
  String, ◌≡◌, refl, ◌≢◌, Option, none, some, List, [], ◌∷◌, arith, str_eq, eq_iff, if◌then◌else◌,
  false, Bool-cases, subst, ◌∙◌, inl, inr,
}

abbrev pub Dict : Type 0 → Type 0
Dict V = List (String × V)

module _ {V : Type 0} where
  unfoldable pub lookup : String → Dict V → Option V
  lookup k [] = none
  lookup k ((j, v) ∷ d) = if str_eq j k then some v else lookup k d

  unfoldable pub insert : String → V → Dict V → Dict V
  insert k v [] = (k, v) ∷ []
  insert k v ((j, w) ∷ d) = if str_eq j k then (k, v) ∷ d else (j, w) ∷ insert k v d

  -- `d.pop(k, None)`
  unfoldable pub delete : String → Dict V → Dict V
  delete k [] = []
  delete k ((j, w) ∷ d) = let rest = delete k d in if str_eq j k then rest else (j, w) ∷ rest

  pub lookup-insert :
      (k j : String) (v : V) (d : Dict V)
      → lookup j (insert k v d) ≡ (if str_eq k j then some v else lookup j d)
  unfolding lookup insert
  lookup-insert k j v [] = refl
  lookup-insert k j v ((i, w) ∷ d) =
      ground (arith, eq_iff k j, eq_iff i k, eq_iff i j, lookup-insert k j v d)

  pub lookup-delete :
      (k j : String) (d : Dict V)
      → lookup j (delete k d) ≡ (if str_eq k j then none else lookup j d)
  unfolding lookup delete
  lookup-delete k j [] = ground arith
  lookup-delete k j ((i, w) ∷ d) =
      ground (arith, eq_iff k j, eq_iff i k, eq_iff i j, lookup-delete k j d)

  pub lookup-insert_self : (k : String) (v : V) (d : Dict V) → lookup k (insert k v d) ≡ some v
  lookup-insert_self k v d = simp (lookup-insert, eq_refl)

  pub lookup-insert_ne :
      (k j : String) (v : V) (d : Dict V) → k ≢ j → lookup j (insert k v d) ≡ lookup j d
  lookup-insert_ne k j v d h = ground (arith, lookup-insert k j v d, eq_iff k j)

pub ruleset dict_laws = (lookup-insert, lookup-delete)

-- No key stands twice.
abbrev pub Distinct : {A : Type 0} → Dict A → Type 0
Distinct [] = Unit
Distinct ((k, a) ∷ acc) = (lookup k acc ≡ none) × Distinct acc

lookup-insert_other :
    {A : Type 0} (k j : String) (a : A) (acc : Dict A)
    → str_eq k j ≡ false
    → lookup j acc ≡ none
    → lookup j (insert k a acc) ≡ none
lookup-insert_other k j a acc d h = lookup-insert k j a acc ∙ rw d h

pub insert-Distinct :
    {A : Type 0} (k : String) (a : A) (acc : Dict A) → Distinct acc → Distinct (insert k a acc)
unfolding insert lookup
insert-Distinct k a [] h = (refl, tt)
insert-Distinct k a ((j, b) ∷ acc) h = elim (Bool-cases (str_eq j k)) [
  | inl same ↦ rw same (subst (λ i. lookup i acc ≡ none) ((eq_iff j k).0 same) h.0, h.1)
  | inr other ↦ rw other (
    lookup-insert_other k j a acc (ground (arith, eq_iff j k, eq_iff k j)) h.0,
    insert-Distinct k a acc h.1,
  )
]
