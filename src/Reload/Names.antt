-- ===== src/Reload/Names.antt =====
-- Lists of names as the loops of a reload go through them, and the keys of a table.
use open_machine_protocol.Prelude.{
  ◌≡◌, refl, ap, ◌∙◌, String, Bool, true, false, ◌&&◌, Option, none, some, List, [], ◌∷◌, arith,
  str_eq, eq_iff, any, select, Bool-cases, inl, inr, if◌then◌else◌,
}
use open_machine_protocol.Dict.{Dict, lookup}
use open_machine_protocol.Reload.{is_in, keys, each}

abbrev pub has : String → List String → Bool
has j ks = any (λ k. str_eq k j) ks

once_more :
    {V : Type 0} (g : Option V → Option V) (b c : Bool) (x y : Option V)
    → g (g x) ≡ g x
    → y ≡ (if b then g x else x)
    → (if c then g y else y) ≡ (if (if b then true else c) then g x else x)
once_more g true true x y idem e = ap g e ∙ idem
once_more g true false x y idem e = e
once_more g false true x y idem e = ap g e
once_more g false false x y idem e = e

-- A loop whose body changes the entry of its own key alone, by an idempotent function of the old one.
pub each_lem :
    {V : Type 0} (f : String → Dict V → Dict V) (g : String → Option V → Option V)
    → ((k j : String) (r : Dict V)
        → lookup j (f k r) ≡ (if str_eq k j then g j (lookup j r) else lookup j r))
    → ((j : String) (x : Option V) → g j (g j x) ≡ g j x)
    → (ks : List String) (j : String) (r : Dict V)
    → lookup j (each f ks r) ≡ (if has j ks then g j (lookup j r) else lookup j r)
unfolding each
each_lem f g h idem [] j r = refl
each_lem f g h idem (k ∷ ks) j r =
    each_lem f g h idem ks j (f k r)
    ∙ once_more (g j) (str_eq k j) (has j ks) (lookup j r) (lookup j (f k r)) (idem j (lookup j r))
        (h k j r)

pub has-select :
    (p : String → Bool) (ks : List String) (j : String) → has j (select p ks) ≡ (has j ks && p j)
has-select p [] j = refl
has-select p (k ∷ ks) j = elim (Bool-cases (str_eq k j)) [
  | inl same ↦
      let e : p k ≡ p j = ap p ((eq_iff k j).0 same) in
      elim (Bool-cases (p k)) [
        | inl kept ↦ ground (arith, same, kept, e)
        | inr gone ↦ ground (arith, has-select p ks j, same, gone, e)
      ]
  | inr other ↦ elim (Bool-cases (p k)) [
    | inl kept ↦ rw (kept, other) (has-select p ks j)
    | inr gone ↦ rw (gone, other) (has-select p ks j)
  ]
]

pub has-keys : {V : Type 0} (d : Dict V) (j : String) → has j (keys d) ≡ is_in j d
unfolding keys lookup
has-keys [] j = refl
has-keys ((k, v) ∷ d) j = elim (Bool-cases (str_eq k j)) [
  | inl same ↦ rw (same, is_in, lookup) refl
  | inr other ↦ rw (other, is_in, lookup) (has-keys d j)
]

abbrev pub or_old : {V : Type 0} → Option V → Option V → Option V
or_old (some x) old = some x
or_old none old = old

pub or_none : {V : Type 0} (x : Option V) → or_old x none ≡ x
or_none (some x) = refl
or_none none = refl

pub or_old-or_old : {V : Type 0} (x old : Option V) → or_old x (or_old x old) ≡ or_old x old
or_old-or_old (some x) old = refl
or_old-or_old none old = refl
