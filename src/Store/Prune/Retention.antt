-- ===== src/Store/Prune/Retention.antt =====
-- What `Store.prune` deletes and what it keeps.
use open_machine_protocol.Prelude.{
  ℕ, ◌+◌, ◌≤◌, ◌≡◌, refl, sym, String, Bool, not, ◌&&◌, inl, inr, Option, none, some, List, [], ◌∷◌,
  ◌∙◌, arith, select, length, Member, Bool-cases, length-select-not, select-not_none, select-select,
  ◌==◌, subst,
}
use open_machine_protocol.Store.{Store, BufferRow, cursor}
use open_machine_protocol.Store.Prune.{
  Pass, min_cursor, is_expired, is_delivered, age_pass, disk_pass,
}

-- The bound is at most every configured exporter's cursor, and is one of them.
pub min_cursor-le :
    (s : Store) (name : String) (names : List String) (e : String)
    → Member e (name ∷ names)
    → min_cursor s name names ≤ cursor s e
unfolding min_cursor
min_cursor-le s name [] e (inl same) =
    subst (λ x. cursor s name ≤ cursor s x) (sym same) (omega arith)
min_cursor-le s name [] e (inr m) = absurd m
min_cursor-le s name (n ∷ names) e (inl same) =
    subst (λ x. min_cursor s name (n ∷ names) ≤ cursor s x) (sym same) (omega arith)
min_cursor-le s name (n ∷ names) e (inr m) = omega (arith, min_cursor-le s n names e m)

-- The row survives both passes.
abbrev pub is_kept : ℕ → ℕ → Option ℕ → BufferRow → Bool
is_kept safe_upto cutoff none r = not (is_expired safe_upto cutoff r)
is_kept safe_upto cutoff (some _) r =
    not (is_expired safe_upto cutoff r) && not (is_delivered safe_upto r)

pub age_pass-rows :
    (safe cutoff retention : ℕ) (rows : List BufferRow)
    → (age_pass safe cutoff retention rows).rows ≡ select (λ r. not (is_expired safe cutoff r)) rows
unfolding age_pass
age_pass-rows safe cutoff retention rows =
    elim (Bool-cases (length (select (is_expired safe cutoff) rows) == 0)) [
      | inl nothing ↦
          rw nothing (sym (select-not_none (is_expired safe cutoff) rows (ground arith)))
      | inr more ↦ rw more
    ]

pub disk_pass-rows :
    (safe : ℕ) (over : Option ℕ) (p : Pass)
    → (disk_pass safe over p).rows
      ≡ elim over [ none ↦ p.rows | some _ ↦ select (λ r. not (is_delivered safe r)) p.rows ]
unfolding disk_pass
disk_pass-rows safe none p = refl
disk_pass-rows safe (some b) p =
    elim (Bool-cases (length (select (is_delivered safe) p.rows) == 0)) [
      | inl nothing ↦ rw nothing (sym (select-not_none (is_delivered safe) p.rows (ground arith)))
      | inr more ↦ rw more
    ]

pub passes-rows :
    (safe cutoff retention : ℕ) (over : Option ℕ) (rows : List BufferRow)
    → (disk_pass safe over (age_pass safe cutoff retention rows)).rows
      ≡ select (is_kept safe cutoff over) rows
passes-rows safe cutoff retention none rows =
    disk_pass-rows safe none _ ∙ age_pass-rows safe cutoff retention rows
passes-rows safe cutoff retention (some b) rows =
    rw (disk_pass-rows, age_pass-rows) (select-select _ _ rows)

-- The passes count what they delete.
pub passes-deleted :
    (safe cutoff retention : ℕ) (over : Option ℕ) (rows : List BufferRow)
    → let p = disk_pass safe over (age_pass safe cutoff retention rows) in
      p.deleted + length p.rows ≡ length rows
unfolding disk_pass age_pass
passes-deleted safe cutoff retention none rows =
    ground (arith, length-select-not (is_expired safe cutoff) rows)
passes-deleted safe cutoff retention (some b) rows = ground (
  arith,
  length-select-not (is_expired safe cutoff) rows,
  length-select-not (is_delivered safe) rows,
  length-select-not (is_delivered safe) (select (λ r. not (is_expired safe cutoff r)) rows),
)
