-- ===== src/Registry/Loading.antt =====
-- What a registry that is loaded has.
use open_machine_protocol.Prelude.{
  ℕ, suc, ◌≡◌, ◌≢◌, All, refl, sym, ap, ◌∙◌, subst, ◌⊎◌, ◌↔◌, String, true, false, some, List, [],
  ◌∷◌, arith, str_eq, any, Bool-cases, Option-cases, inl, inr,
}
use open_machine_protocol.Json.{Value, Fields, get}
use open_machine_protocol.Json.Dumps.{codes}
use open_machine_protocol.Spec.{as_text}
use open_machine_protocol.Registry.Entries.{
  IsId, matches_id_iff, none_before_iff, WithConfig, set_default_iff, HasSite, lacks_site_iff,
}
use open_machine_protocol.Registry.{
  Loaded, loaded, refused, matches_id, lacks_site, set_default, check_id, check_machine,
  RegistryError, load_machines, load_registry, machines_of,
}

-- An entry with a valid id that is not in `seen`, an adapter, and a site in its location, if any.
pub record IsMachine (seen : List String) (m : Fields) (mid : String) : Type 0 where
  pub id : get "machine_id" m ≡ some (Value.text mid)
  pub well_formed : IsId (codes mid)
  pub new : All (λ s. s ≢ mid) seen
  pub adapter : (v : Value) × (get "adapter" m ≡ some v)
  pub site : HasSite (get "location" m)

as_text-eq-some : (v : Value) (mid : String) → as_text (some v) ≡ some mid → v ≡ Value.text mid
as_text-eq-some Value.null mid h = absurd (ground arith)
as_text-eq-some (Value.boolean b) mid h = absurd (ground arith)
as_text-eq-some (Value.int n) mid h = absurd (ground arith)
as_text-eq-some (Value.float f) mid h = absurd (ground arith)
as_text-eq-some (Value.text s) mid h = cc
as_text-eq-some (Value.list vs) mid h = absurd (ground arith)
as_text-eq-some (Value.dict fs) mid h = absurd (ground arith)

-- The checks on an id, once it is there.
check_id-loaded :
    (i : ℕ) (seen : List String) (m : Fields) (mid r : String)
    → check_id i seen m mid ≡ loaded r
    → (r ≡ mid)
      × (matches_id (codes mid) ≡ true)
      × (any (λ s. str_eq s mid) seen ≡ false)
      × (lacks_site (get "location" m) ≡ some false)
unfolding check_id
check_id-loaded i seen m mid r h = elim (Bool-cases (matches_id (codes mid))) [
  | inr bad ↦ absurd (ground (arith, bad))
  | inl good ↦ elim (Bool-cases (any (λ s. str_eq s mid) seen)) [
    | inl twice ↦ absurd (ground (arith, good, twice))
    | inr new ↦ elim (Option-cases (lacks_site (get "location" m))) [
      | inl no_in ↦ absurd (ground (arith, good, new, no_in))
      | inr (lacks, e) ↦ elim (Bool-cases lacks) [
        | inl without ↦ absurd (ground (arith, good, new, e, without))
        | inr site ↦ (ground (arith, good, new, e, site), good, new, e ∙ ap some site)
      ]
    ]
  ]
]

check_machine-loaded :
    (i : ℕ) (seen : List String) (m : Fields) (mid : String)
    → check_machine i seen m ≡ loaded mid
    → IsMachine seen m mid
unfolding check_machine
check_machine-loaded i seen m mid h = elim (Option-cases (get "machine_id" m)) [
  | inl gone ↦ absurd (ground (arith, gone))
  | inr (v, e) ↦ elim (Option-cases (get "adapter" m)) [
    | inl gone ↦ absurd (ground (arith, e, gone))
    | inr (a, f) ↦ elim (Option-cases (as_text (some v))) [
      | inl other ↦ absurd (ground (arith, e, f, other))
      | inr (name, text) ↦
          let k = check_id-loaded i seen m name mid (rw (e, f, text, check_machine) at h) in
          let same : name ≡ mid = sym k.0 in
          record {
            id = e ∙ ap some (as_text-eq-some v name text ∙ ap Value.text same);
            well_formed = subst (λ n. IsId (codes n)) same ((matches_id_iff (codes name)).0 k.1);
            new = subst (λ n. All (λ s. s ≢ n) seen) same ((none_before_iff seen name).0 k.2);
            adapter = (a, f);
            site = (lacks_site_iff (get "location" m)).0 k.3;
          }
    ]
  ]
]

IsMachine-loaded :
    (i : ℕ) (seen : List String) (m : Fields) (mid : String)
    → IsMachine seen m mid
    → check_machine i seen m ≡ loaded mid
unfolding check_machine check_id
IsMachine-loaded i seen m mid v =
    let (a, f) = v.adapter in
    rw
      (
        v.id,
        f,
        check_machine,
        check_id,
        (matches_id_iff (codes mid)).1 v.well_formed,
        (none_before_iff seen mid).1 v.new,
        (lacks_site_iff (get "location" m)).1 v.site,
      )
      refl

-- The entries are machines, each with an id that none before it has, and what is returned of each is
-- the entry with a `config`.
abbrev pub AreMachines : List String → List Fields → List Fields → Type 0
AreMachines seen [] [] = Unit
AreMachines seen [] (o ∷ os) = ⊥
AreMachines seen (m ∷ ms) [] = ⊥
AreMachines seen (m ∷ ms) (o ∷ os) =
    (mid : String) × IsMachine seen m mid × WithConfig m o × AreMachines (mid ∷ seen) ms os

Loaded-cases :
    {A : Type 0} (r : Loaded A)
    → ((a : A) × (r ≡ loaded a)) ⊎ ((e : RegistryError) × (r ≡ refused e))
Loaded-cases (loaded a) = inl (a, refl)
Loaded-cases (refused e) = inr (e, refl)

load_machines-AreMachines :
    (i : ℕ) (seen : List String) (ms out : List Fields)
    → load_machines i seen ms ≡ loaded out
    → AreMachines seen ms out
unfolding load_machines
load_machines-AreMachines i seen [] [] h = tt
load_machines-AreMachines i seen [] (o ∷ os) h = absurd (ground arith)
load_machines-AreMachines i seen (m ∷ ms) out h = elim (Loaded-cases (check_machine i seen m)) [
  | inr (e, bad) ↦ absurd (ground (arith, bad))
  | inl (mid, good) ↦ elim (Loaded-cases (load_machines (suc i) (mid ∷ seen) ms)) [
    | inr (e, bad) ↦ absurd (ground (arith, good, bad))
    | inl (rest, later) ↦
        let made : set_default "config" (Value.dict Fields.end) m ∷ rest ≡ out =
          loaded_eq _ _ (rw (good, later, load_machines) at h) in
        subst (AreMachines seen (m ∷ ms)) made (
          mid,
          check_machine-loaded i seen m mid good,
          (set_default_iff m (set_default "config" (Value.dict Fields.end) m)).0 refl,
          load_machines-AreMachines (suc i) (mid ∷ seen) ms rest later,
        )
  ]
]
  where
    loaded_eq : (x y : List Fields) → loaded x ≡ loaded y → x ≡ y
    loaded_eq x y e = cc

AreMachines-loaded :
    (i : ℕ) (seen : List String) (ms out : List Fields)
    → AreMachines seen ms out
    → load_machines i seen ms ≡ loaded out
unfolding load_machines
AreMachines-loaded i seen [] [] h = refl
AreMachines-loaded i seen [] (o ∷ os) h = absurd h
AreMachines-loaded i seen (m ∷ ms) [] h = absurd h
AreMachines-loaded i seen (m ∷ ms) (o ∷ os) (mid, v, e, rest) =
    rw
      (
        IsMachine-loaded i seen m mid v,
        load_machines,
        AreMachines-loaded (suc i) (mid ∷ seen) ms os rest,
      )
      (ap (λ x. loaded (x ∷ os)) (sym ((set_default_iff m o).1 e)))

-- A registry whose `machines` is a list is loaded exactly if each entry has an adapter, an id of 3 to 63
-- small letters, digits and dashes, not with a dash first, which no entry before it has, and a site in its
-- location, if there is one; and what is returned is each entry with its config, or with an empty one.
pub load_registry_iff :
    (parsed : Fields) (ms out : List Fields)
    → machines_of (get "machines" parsed) ≡ loaded ms
    → (load_registry parsed ≡ loaded out) ↔ AreMachines [] ms out
unfolding load_registry
load_registry_iff parsed ms out h = (
  λ e. load_machines-AreMachines 0 [] ms out (rw (h, load_registry) at e),
  λ v. rw (h, load_registry) (AreMachines-loaded 0 [] ms out v),
)
