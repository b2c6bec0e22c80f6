-- ===== src/Registry/Entries.antt =====
-- What the checks of a registry entry ask for, said without them: its id, its location and its config.
use open_machine_protocol.Prelude.{
  not, ℕ, ◌≤◌, ◌≡◌, ◌≢◌, ◌⊎◌, ◌↔◌, refl, ap, String, Bool, true, false, Option, none, some, List,
  [], ◌∷◌, ◌++◌, arith, All, any, length, ◌==◌, ==_iff, str_eq, eq_iff, Bool-cases, Option-cases,
  inl, inr,
}
use open_machine_protocol.Json.{Value, Items, Fields, get}
use open_machine_protocol.Json.Dumps.{codes}
use open_machine_protocol.Registry.{
  all_id_chars, matches_id, is_prefix, is_infix, is_text, has_item, is_some, lacks_site,
  append_field, set_default,
}

-- ------------------------------------------------------------------------------ ids
-- A small letter or a digit.
abbrev pub IsAlnum : ℕ → Type 0
IsAlnum c = ((97 ≤ c) × (c ≤ 122)) ⊎ ((48 ≤ c) × (c ≤ 57))

-- 3 to 63 characters, a letter or a digit and then letters, digits and dashes.
abbrev pub IsId : List ℕ → Type 0
IsId [] = ⊥
IsId (c ∷ cs) = IsAlnum c × All (λ d. IsAlnum d ⊎ (d ≡ 45)) cs × (2 ≤ length cs) × (length cs ≤ 62)

all_id_chars_iff : (cs : List ℕ) → (all_id_chars cs ≡ true) ↔ All (λ d. IsAlnum d ⊎ (d ≡ 45)) cs
unfolding all_id_chars
all_id_chars_iff [] = (λ h. tt, λ h. refl)
all_id_chars_iff (c ∷ cs) =
    let rest = all_id_chars_iff cs in
    (λ h. (ground arith, rest.0 (ground arith)), λ h. ground (arith, h.0, rest.1 h.1))

pub matches_id_iff : (cs : List ℕ) → (matches_id cs ≡ true) ↔ IsId cs
unfolding matches_id
matches_id_iff [] = (λ h. absurd (ground arith), λ h. absurd h)
matches_id_iff (c ∷ cs) =
    let rest = all_id_chars_iff cs in
    (
      λ h. (ground arith, rest.0 (ground arith), ground arith, ground arith),
      λ h. ground (arith, h.0, rest.1 h.1, h.2, h.3),
    )

pub none_before_iff :
    (seen : List String) (mid : String)
    → (any (λ s. str_eq s mid) seen ≡ false) ↔ All (λ s. s ≢ mid) seen
none_before_iff [] mid = (λ h. tt, λ h. refl)
none_before_iff (s ∷ seen) mid = elim (Bool-cases (str_eq s mid)) [
  | inl same ↦ rw same (λ h. absurd (ground arith), λ h. absurd (h.0 ((eq_iff s mid).0 same)))
  | inr other ↦ rw other (
    λ h. (λ e. absurd (ground (arith, other, eq_iff s mid)), (none_before_iff seen mid).0 h),
    λ h. (none_before_iff seen mid).1 h.1,
  )
]

-- ---------------------------------------------------------------------------- config
-- One mapping behind the other.
abbrev pub then_fields : Fields → Fields → Fields
then_fields Fields.end gs = gs
then_fields (Fields.field k v fs) gs = Fields.field k v (then_fields fs gs)

-- An entry as it is, if it has a config, or with an empty one at its end.
abbrev pub WithConfig : Fields → Fields → Type 0
WithConfig m o =
    ((v : Value) × (get "config" m ≡ some v) × (o ≡ m))
    ⊎ ((get "config" m ≡ none)
        × (o ≡ then_fields m (Fields.field "config" (Value.dict Fields.end) Fields.end)))

append_field-eq :
    (m : Fields) (k : String) (v : Value)
    → append_field m k v ≡ then_fields m (Fields.field k v Fields.end)
append_field-eq Fields.end k v = refl
append_field-eq (Fields.field j w fs) k v = ap (Fields.field j w) (append_field-eq fs k v)

pub set_default_iff :
    (m o : Fields) → (o ≡ set_default "config" (Value.dict Fields.end) m) ↔ WithConfig m o
unfolding set_default
set_default_iff m o = elim (Option-cases (get "config" m)) [
  | inr (v, e) ↦
      rw (e, set_default)
        (
          λ h. inl (v, refl, h),
          λ h. elim h [ inl (w, f, k) ↦ k | inr (f, k) ↦ absurd (ground (arith, f)) ],
        )
  | inl gone ↦
      rw (gone, set_default, append_field-eq m "config" (Value.dict Fields.end))
        (
          λ h. inr (refl, h),
          λ h. elim h [ inl (w, f, k) ↦ absurd (ground (arith, f)) | inr (f, k) ↦ k ],
        )
]

-- --------------------------------------------------------------------------- location
abbrev pub Begins : List ℕ → List ℕ → Type 0
Begins p cs = (rest : List ℕ) × (cs ≡ p ++ rest)

-- The text stands somewhere in the other.
abbrev pub StandsIn : List ℕ → List ℕ → Type 0
StandsIn p cs = (before after : List ℕ) × (cs ≡ before ++ (p ++ after))

is_prefix_iff : (p cs : List ℕ) → (is_prefix p cs ≡ true) ↔ Begins p cs
is_prefix_iff [] cs = (λ h. (cs, refl), λ h. refl)
is_prefix_iff (x ∷ p) [] = (λ h. absurd (ground arith), λ (rest, e). absurd (ground arith))
is_prefix_iff (x ∷ p) (c ∷ cs) = elim (Bool-cases (x == c)) [
  | inl same ↦ rw same (
    λ h.
        let (rest, e) = (is_prefix_iff p cs).0 h in
        (rest, cc_cons x c cs (p ++ rest) ((==_iff x c).0 same) e),
    λ (rest, e). (is_prefix_iff p cs).1 (rest, tail_eq c cs x (p ++ rest) e),
  )
  | inr other ↦ rw other (
    λ h. absurd (ground arith),
    λ (rest, e). absurd (ground (arith, other, ==_iff x c, head_eq c cs x (p ++ rest) e)),
  )
]
  where
    cc_cons : (a b : ℕ) (xs ys : List ℕ) → a ≡ b → xs ≡ ys → b ∷ xs ≡ a ∷ ys
    cc_cons a b xs ys e f = cc

    tail_eq : (a : ℕ) (xs : List ℕ) (b : ℕ) (ys : List ℕ) → a ∷ xs ≡ b ∷ ys → xs ≡ ys
    tail_eq a xs b ys e = cc

    head_eq : (a : ℕ) (xs : List ℕ) (b : ℕ) (ys : List ℕ) → a ∷ xs ≡ b ∷ ys → a ≡ b
    head_eq a xs b ys e = cc

StandsIn-infix : (p cs before after : List ℕ) → cs ≡ before ++ (p ++ after) → is_infix p cs ≡ true
StandsIn-infix p [] [] after e = (is_prefix_iff p []).1 (after, e)
StandsIn-infix p [] (b ∷ before) after e = absurd (ground arith)
StandsIn-infix p (c ∷ cs) [] after e = rw ((is_prefix_iff p (c ∷ cs)).1 (after, e)) refl
StandsIn-infix p (c ∷ cs) (b ∷ before) after e =
    ground (arith, StandsIn-infix p cs before after (tail c cs b (before ++ (p ++ after)) e))
  where
    tail : (a : ℕ) (xs : List ℕ) (d : ℕ) (ys : List ℕ) → a ∷ xs ≡ d ∷ ys → xs ≡ ys
    tail a xs d ys h = cc

infix-StandsIn : (p cs : List ℕ) → is_infix p cs ≡ true → StandsIn p cs
infix-StandsIn p [] h = let (rest, e) = (is_prefix_iff p []).0 h in ([], rest, e)
infix-StandsIn p (c ∷ cs) h = elim (Bool-cases (is_prefix p (c ∷ cs))) [
  | inl here ↦ let (rest, e) = (is_prefix_iff p (c ∷ cs)).0 here in ([], rest, e)
  | inr later ↦
      let (before, after, e) = infix-StandsIn p cs (rw later at h) in
      (c ∷ before, after, ap (λ l. c ∷ l) e)
]

abbrev pub Lists : String → Items → Type 0
Lists k Items.nil = ⊥
Lists k (Items.cons v vs) = (v ≡ Value.text k) ⊎ Lists k vs

is_text_iff : (k : String) (v : Value) → (is_text k v ≡ true) ↔ (v ≡ Value.text k)
is_text_iff k (Value.text s) =
    (λ h. ap Value.text ((eq_iff s k).0 h), λ h. (eq_iff s k).1 (text_eq s k h))
  where
    text_eq : (a b : String) → Value.text a ≡ Value.text b → a ≡ b
    text_eq a b h = cc
is_text_iff k Value.null = (λ h. absurd (ground arith), λ h. absurd (ground arith))
is_text_iff k (Value.boolean b) = (λ h. absurd (ground arith), λ h. absurd (ground arith))
is_text_iff k (Value.int n) = (λ h. absurd (ground arith), λ h. absurd (ground arith))
is_text_iff k (Value.float f) = (λ h. absurd (ground arith), λ h. absurd (ground arith))
is_text_iff k (Value.list vs) = (λ h. absurd (ground arith), λ h. absurd (ground arith))
is_text_iff k (Value.dict fs) = (λ h. absurd (ground arith), λ h. absurd (ground arith))

has_item_iff : (k : String) (vs : Items) → (has_item k vs ≡ true) ↔ Lists k vs
has_item_iff k Items.nil = (λ h. absurd (ground arith), λ h. absurd h)
has_item_iff k (Items.cons v vs) =
    let rest = has_item_iff k vs in
    let here = is_text_iff k v in
    elim (Bool-cases (is_text k v)) [
      | inl found ↦ rw found (λ h. inl (here.0 found), λ h. refl)
      | inr missed ↦ rw missed (
        λ h. inr (rest.0 h),
        λ h. elim h [
          | inl e ↦ absurd (ground (arith, missed, here.1 e))
          | inr later ↦ rest.1 later
        ],
      )
    ]

-- The location, if any, names a site: as a key, as an item of a list, or within a text.
abbrev pub HasSite : Option Value → Type 0
HasSite none = Unit
HasSite (some Value.null) = Unit
HasSite (some (Value.dict fs)) = (v : Value) × (get "site" fs ≡ some v)
HasSite (some (Value.list vs)) = Lists "site" vs
HasSite (some (Value.text s)) = StandsIn (codes "site") (codes s)
HasSite (some (Value.boolean b)) = ⊥
HasSite (some (Value.int n)) = ⊥
HasSite (some (Value.float f)) = ⊥

is_some_iff :
    (o : Option Value) → (some (not (is_some o)) ≡ some false) ↔ ((v : Value) × (o ≡ some v))
is_some_iff none = (λ h. absurd (ground arith), λ (v, e). absurd (ground arith))
is_some_iff (some v) = (λ h. (v, refl), λ h. refl)

not_iff : (b : Bool) → (some (not b) ≡ some false) ↔ (b ≡ true)
not_iff true = (λ h. refl, λ h. refl)
not_iff false = (λ h. absurd (ground arith), λ h. absurd (ground arith))

pub lacks_site_iff : (o : Option Value) → (lacks_site o ≡ some false) ↔ HasSite o
lacks_site_iff none = (λ h. tt, λ h. refl)
lacks_site_iff (some Value.null) = (λ h. tt, λ h. refl)
lacks_site_iff (some (Value.dict fs)) = is_some_iff (get "site" fs)
lacks_site_iff (some (Value.list vs)) =
    let n = not_iff (has_item "site" vs) in
    let m = has_item_iff "site" vs in (λ h. m.0 (n.0 h), λ h. n.1 (m.1 h))
lacks_site_iff (some (Value.text s)) =
    let n = not_iff (is_infix (codes "site") (codes s)) in
    (
      λ h. infix-StandsIn (codes "site") (codes s) (n.0 h),
      λ (before, after, e). n.1 (StandsIn-infix (codes "site") (codes s) before after e),
    )
lacks_site_iff (some (Value.boolean b)) = (λ h. absurd (ground arith), λ h. absurd h)
lacks_site_iff (some (Value.int n)) = (λ h. absurd (ground arith), λ h. absurd h)
lacks_site_iff (some (Value.float f)) = (λ h. absurd (ground arith), λ h. absurd h)
