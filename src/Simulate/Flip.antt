-- ===== src/Simulate/Flip.antt =====
-- A payload with a number made a text has a longer canonical text.
use Prim.Native.Char.{code}
use open_machine_protocol.Prelude.{
  ℕ, zero, suc, ◌+◌, ◌/◌, ◌%◌, ◌≤◌, ◌<◌, ◌≡◌, ◌≢◌, refl, ap, sym, subst, ◌⊎◌, String, Bool, true,
  false, some, List, [], ◌∷◌, arith, All, length, length-append, Bool-cases, Option-cases, inl, inr,
  ◌==◌, ==_iff, ltb, ◌&&◌, str_eq,
}
use open_machine_protocol.Prelude.Int.{ℤ, pos, negsuc}
use open_machine_protocol.Json.{Float, Value, Fields, get}
use open_machine_protocol.Json.Dumps.{
  codes, decimal_fuel, decimal, int_repr, escape, escape_all, quoted, dumps, dump_fields,
}
use open_machine_protocol.Json.Lengths.{weight, length-braces}
use open_machine_protocol.Simulate.Chaos.{int_char, int_text, str_of_int, flip_first, replace}

abbrev IsIntChar : ℕ → Type 0
IsIntChar c = (c ≡ 45) ⊎ ((48 ≤ c) × (c ≤ 57))

decimal_fuel-All :
    (f n : ℕ) (acc : List ℕ) → All IsIntChar acc → All IsIntChar (decimal_fuel f n acc)
unfolding decimal_fuel
decimal_fuel-All zero n acc h = h
decimal_fuel-All (suc f) n acc h =
    let here : All IsIntChar ((b'0' + n % 10) ∷ acc) = (inr (omega arith, omega arith), h) in
    elim (Bool-cases (ltb n 10)) [
      | inl small ↦ rw small here
      | inr big ↦ rw big (decimal_fuel-All f (n / 10) _ here)
    ]

int_repr-All : (n : ℤ) → All IsIntChar (int_repr n)
unfolding int_repr decimal
int_repr-All (pos n) = decimal_fuel-All (suc n) n [] tt
int_repr-All (negsuc n) = (inl refl, decimal_fuel-All (suc (suc n)) (suc n) [] tt)

escape-int_char : (c : ℕ) → IsIntChar c → escape c ≡ c ∷ []
unfolding escape
escape-int_char c (inl e) = ground arith
escape-int_char c (inr h) = ground arith

-- The `k` codes from `c` on are those of their own characters.
reads_back : ℕ → ℕ → Bool
reads_back c zero = true
reads_back c (suc k) = (code (int_char c) == c) && reads_back (c + 1) k

reads_back-code : (c k d : ℕ) → reads_back c k ≡ true → c ≤ d → d < c + k → code (int_char d) ≡ d
unfolding reads_back
reads_back-code c zero d h least most = absurd (omega arith)
reads_back-code c (suc k) d h least most = elim (Bool-cases (code (int_char c) == c)) [
  | inr e ↦ absurd (ground (arith, e))
  | inl e ↦ elim (Bool-cases (c == d)) [
    | inl here ↦ subst (λ x. code (int_char x) ≡ x) ((==_iff c d).0 here) ((==_iff _ c).0 e)
    | inr later ↦
        reads_back-code (c + 1) k d (rw e at h) (ground (arith, later, ==_iff c d)) (omega arith)
  ]
]

digits_read_back : reads_back 48 10 ≡ true
unfolding reads_back
digits_read_back = refl

code-int_char : (c : ℕ) → IsIntChar c → code (int_char c) ≡ c
code-int_char c (inl e) = rw e refl
code-int_char c (inr h) = reads_back-code 48 10 c digits_read_back h.0 (omega arith)

escape_all-int_text : (cs : List ℕ) → All IsIntChar cs → escape_all (codes (int_text cs)) ≡ cs
unfolding escape_all int_text
escape_all-int_text [] h = refl
escape_all-int_text (c ∷ cs) h =
    rw (code-int_char c h.0, escape-int_char c h.0, escape_all-int_text cs h.1) refl

-- The text is written with two quotes more than the number.
length-int_text : (n : ℤ) → length (quoted (int_text (int_repr n))) ≡ length (int_repr n) + 2
unfolding quoted
length-int_text n =
    rw (escape_all-int_text (int_repr n) (int_repr-All n))
      (omega (arith, length-append (int_repr n) (34 ∷ [])))

-- ------------------------------------------------------------------- a payload that was flipped
some_eq : {A : Type 0} (a b : A) → some a ≡ some b → a ≡ b
some_eq a b h = cc

module _ (float_repr : Float → List ℕ) where
  abbrev size : Value → ℕ
  size v = length (dumps float_repr v)

  size-str_of_int :
      (v : Value) (s : String) → str_of_int v ≡ some s → size (Value.text s) ≡ size v + 2
  unfolding str_of_int dumps
  size-str_of_int (Value.int n) s h =
      subst (λ t. size (Value.text t) ≡ size (Value.int n) + 2) (some_eq _ s h) (length-int_text n)
  size-str_of_int (Value.boolean true) s h =
      subst (λ t. size (Value.text t) ≡ 6) (some_eq _ s h) refl
  size-str_of_int (Value.boolean false) s h =
      subst (λ t. size (Value.text t) ≡ 7) (some_eq _ s h) refl
  size-str_of_int Value.null s h = absurd (ground arith)
  size-str_of_int (Value.float f) s h = absurd (ground arith)
  size-str_of_int (Value.text t) s h = absurd (ground arith)
  size-str_of_int (Value.list vs) s h = absurd (ground arith)
  size-str_of_int (Value.dict fs) s h = absurd (ground arith)

  size_field : String → Value → ℕ
  size_field k v = length (quoted k) + size v + 2

  weight-field :
      (k : String) (v : Value) (fs : Fields)
      → weight (dump_fields float_repr (Fields.field k v fs))
        ≡ size_field k v + weight (dump_fields float_repr fs)
  unfolding weight dump_fields size_field
  weight-field k v fs = refl

  weight-lt :
      (k : String) (v : Value) (fs : Fields)
      → 0 < weight (dump_fields float_repr (Fields.field k v fs))
  unfolding size_field
  weight-lt k v fs = omega (arith, weight-field k v fs)

  -- One value that is two characters longer makes the dict two longer.
  weight-grown :
      (k : String) (v w : Value) (fs : Fields)
      → size w ≡ size v + 2
      → weight (dump_fields float_repr (Fields.field k w fs))
        ≡ weight (dump_fields float_repr (Fields.field k v fs)) + 2
  unfolding size_field
  weight-grown k v w fs h = omega (arith, weight-field k v fs, weight-field k w fs)

  weight-behind :
      (k : String) (v : Value) (fs fs' : Fields)
      → weight (dump_fields float_repr fs') ≡ weight (dump_fields float_repr fs) + 2
      → weight (dump_fields float_repr (Fields.field k v fs'))
        ≡ weight (dump_fields float_repr (Fields.field k v fs)) + 2
  weight-behind k v fs fs' h = omega (arith, weight-field k v fs, weight-field k v fs')

  size-dict :
      (fs fs' : Fields)
      → weight (dump_fields float_repr fs') ≡ weight (dump_fields float_repr fs) + 2
      → 0 < weight (dump_fields float_repr fs)
      → size (Value.dict fs') ≡ size (Value.dict fs) + 2
  unfolding dumps
  size-dict fs fs' h p =
      omega (
        arith,
        length-braces (dump_fields float_repr fs),
        length-braces (dump_fields float_repr fs'),
      )

  weight-flip_first :
      (fs fs' : Fields)
      → flip_first fs ≡ some fs'
      → weight (dump_fields float_repr fs') ≡ weight (dump_fields float_repr fs) + 2
  unfolding flip_first
  weight-flip_first Fields.end fs' h = absurd (ground arith)
  weight-flip_first (Fields.field k v fs) fs' h = elim (Option-cases (str_of_int v)) [
    | inl no_int ↦ elim (Option-cases (flip_first fs)) [
      | inl nowhere ↦ absurd (ground (arith, no_int, nowhere))
      | inr (fs'', later) ↦
          let e : Fields.field k v fs'' ≡ fs' = some_eq _ _ (rw (no_int, flip_first, later) at h) in
          subst
            (λ gs.
              weight (dump_fields float_repr gs)
              ≡ weight (dump_fields float_repr (Fields.field k v fs)) + 2)
            e (weight-behind k v fs fs'' (weight-flip_first fs fs'' later))
    ]
    | inr (s, here) ↦
        let e : Fields.field k (Value.text s) fs ≡ fs' = some_eq _ _ (rw (here, flip_first) at h) in
        subst
          (λ gs.
            weight (dump_fields float_repr gs)
            ≡ weight (dump_fields float_repr (Fields.field k v fs)) + 2)
          e (weight-grown k v (Value.text s) fs (size-str_of_int v s here))
  ]

  weight-flipped_lt :
      (fs fs' : Fields) → flip_first fs ≡ some fs' → 0 < weight (dump_fields float_repr fs)
  unfolding flip_first
  weight-flipped_lt Fields.end fs' h = absurd (ground arith)
  weight-flipped_lt (Fields.field k v fs) fs' h = weight-lt k v fs

  weight-replace :
      (k : String) (v w : Value) (fs : Fields)
      → get k fs ≡ some v
      → size w ≡ size v + 2
      → (weight (dump_fields float_repr (replace k w fs)) ≡ weight (dump_fields float_repr fs) + 2)
        × (0 < weight (dump_fields float_repr fs))
  unfolding get replace
  weight-replace k v w Fields.end h g = absurd (ground arith)
  weight-replace k v w (Fields.field j u fs) h g = elim (Bool-cases (str_eq j k)) [
    | inl same ↦
        let e : u ≡ v = some_eq u v (rw (get, same) at h) in
        rw same (
          subst
              (λ x.
                weight (dump_fields float_repr (Fields.field j w fs))
                ≡ weight (dump_fields float_repr (Fields.field j x fs)) + 2)
              (sym e) (weight-grown j v w fs g),
          weight-lt j u fs,
        )
    | inr other ↦ rw other (
      weight-behind j u fs (replace k w fs) (weight-replace k v w fs (rw (get, other) at h) g).0,
      weight-lt j u fs,
    )
  ]

  -- The text of a body whose payload was flipped is another one.
  pub dumps-flipped :
      (body payload payload' : Fields)
      → get "payload" body ≡ some (Value.dict payload)
      → flip_first payload ≡ some payload'
      → dumps float_repr (Value.dict (replace "payload" (Value.dict payload') body))
        ≢ dumps float_repr (Value.dict body)
  dumps-flipped body payload payload' g h same =
      let w = weight-replace "payload" (Value.dict payload) (Value.dict payload') body g (
        size-dict payload payload' (weight-flip_first payload payload' h)
          (weight-flipped_lt payload payload' h)) in
      not_longer _ _ (size-dict body (replace "payload" (Value.dict payload') body) w.0 w.1)
        (ap length same)
    where
      not_longer : (m n : ℕ) → m ≡ n + 2 → m ≡ n → ⊥
      not_longer m n e f = absurd (omega arith)
