-- ===== src/Prelude/Members.antt =====
-- Membership and universal predicates by recursion, which the tactics take apart.
use mathlib.Core.Path.{◌≡◌, refl, sym, subst}
use mathlib.Core.Logic.{◌⊎◌, inl, inr}
use mathlib.Core.Bool.{Bool, true}
use mathlib.Core.List.{List, [], ◌∷◌, ◌++◌}
use native.Mathlib.Omega.{arith}
use Prim.Native.Nat.{ℕ, zero, suc}
use open_machine_protocol.Prelude.Lists.{select, take}

abbrev pub Member : {A : Type 0} → A → List A → Type 0
Member x [] = ⊥
Member x (y ∷ ys) = (x ≡ y) ⊎ Member x ys

abbrev pub All : {A : Type 0} → (A → Type 0) → List A → Type 0
All P [] = Unit
All P (x ∷ xs) = P x × All P xs

module _ {A : Type 0} where
  pub Member-append_left : (x : A) (xs ys : List A) → Member x xs → Member x (xs ++ ys)
  Member-append_left x [] ys m = absurd m
  Member-append_left x (y ∷ xs) ys (inl e) = inl e
  Member-append_left x (y ∷ xs) ys (inr m) = inr (Member-append_left x xs ys m)

  pub Member-append_right : (x : A) (xs ys : List A) → Member x ys → Member x (xs ++ ys)
  Member-append_right x [] ys m = m
  Member-append_right x (y ∷ xs) ys m = inr (Member-append_right x xs ys m)

  pub Member-append_cases :
      (x : A) (xs ys : List A) → Member x (xs ++ ys) → Member x xs ⊎ Member x ys
  Member-append_cases x [] ys m = inr m
  Member-append_cases x (y ∷ xs) ys (inl e) = inl (inl e)
  Member-append_cases x (y ∷ xs) ys (inr m) = ground (arith, Member-append_cases x xs ys m)

  pub Member-select :
      (p : A → Bool) (x : A) (xs : List A) → Member x xs → p x ≡ true → Member x (select p xs)
  Member-select p x [] m h = absurd m
  Member-select p x (y ∷ xs) (inl e) h = ground arith
  Member-select p x (y ∷ xs) (inr m) h = ground (arith, Member-select p x xs m h)

  pub Member-of_select :
      (p : A → Bool) (x : A) (xs : List A) → Member x (select p xs) → Member x xs × (p x ≡ true)
  Member-of_select p x [] m = absurd m
  Member-of_select p x (y ∷ xs) m = ground (arith, Member-of_select p x xs)

module _ {A : Type 0} (P : A → Type 0) where
  pub All-Member : (x : A) (xs : List A) → All P xs → Member x xs → P x
  All-Member x [] h m = absurd m
  All-Member x (y ∷ xs) h (inl e) = subst P (sym e) h.0
  All-Member x (y ∷ xs) h (inr m) = All-Member x xs h.1 m

  pub All-append : (xs ys : List A) → All P xs → All P ys → All P (xs ++ ys)
  All-append [] ys h k = k
  All-append (x ∷ xs) ys h k = (h.0, All-append xs ys h.1 k)

  pub All-select : (p : A → Bool) (xs : List A) → All P xs → All P (select p xs)
  All-select p [] h = tt
  All-select p (x ∷ xs) h = ground (arith, All-select p xs h.1)

  pub All-of_Member : (xs : List A) → ((x : A) → Member x xs → P x) → All P xs
  All-of_Member [] h = tt
  All-of_Member (x ∷ xs) h = (h x (inl refl), All-of_Member xs (λ y m. h y (inr m)))

pub All-map :
    {A : Type 0} (P Q : A → Type 0) (xs : List A) → ((x : A) → P x → Q x) → All P xs → All Q xs
All-map P Q [] f h = tt
All-map P Q (x ∷ xs) f h = (f x h.0, All-map P Q xs f h.1)

pub All-take : {A : Type 0} (P : A → Type 0) (n : ℕ) (xs : List A) → All P xs → All P (take n xs)
All-take P zero xs h = tt
All-take P (suc n) [] h = tt
All-take P (suc n) (x ∷ xs) h = (h.0, All-take P n xs h.1)
