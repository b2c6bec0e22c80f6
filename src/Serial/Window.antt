-- ===== src/Serial/Window.antt =====
-- What a block of statistics summarises.
use open_machine_protocol.Prelude.{
  ℕ, ◌-◌, ◌≡◌, refl, sym, ap, subst, ◌∙◌, String, Option, none, some, List, [], ◌∷◌, ◌++◌, arith,
  str_eq, leb, length, length-append, All, All-map, All-append, Member, Member-append_left,
  Member-append_right, Bool-cases, Option-cases, List-cases, inl, inr, if◌then◌else◌,
}
use open_machine_protocol.Prelude.Int.{ℤ, pos, ◌+ℤ◌, ◌≤ℤ◌, ltb_ℤ}
use open_machine_protocol.Dict.{Dict, lookup, insert, delete, lookup-insert, lookup-delete}
use open_machine_protocol.Serial.{
  Acc, Block, opened, sampled, min_ℤ, max_ℤ, close, close_or_keep, add,
}

-- The sum of the samples, from the first on.
abbrev pub total_from : ℤ → List ℤ → ℤ
total_from s [] = s
total_from s (v ∷ vs) = total_from (s +ℤ v) vs

abbrev pub total : List ℤ → ℤ
total [] = pos 0
total (v ∷ vs) = total_from v vs

-- A sample that no other is below, and one that no other is above.
abbrev pub IsLeast : ℤ → List ℤ → Type 0
IsLeast m xs = Member m xs × All (λ x. m ≤ℤ x) xs

abbrev pub IsGreatest : ℤ → List ℤ → Type 0
IsGreatest m xs = Member m xs × All (λ x. x ≤ℤ m) xs

pub record Summarises (a : Acc) (xs : List ℤ) : Type 0 where
  pub least : IsLeast a.least xs
  pub greatest : IsGreatest a.greatest xs
  pub sum : a.sum ≡ total xs
  pub count : a.count ≡ length xs

IsLeast-append : (m v : ℤ) (xs : List ℤ) → IsLeast m xs → IsLeast (min_ℤ m v) (xs ++ v ∷ [])
IsLeast-append m v xs h = elim (Bool-cases (ltb_ℤ v m)) [
  | inl below ↦
      let e : min_ℤ m v ≡ v = rw below refl in
      subst (λ k. IsLeast k (xs ++ v ∷ [])) (sym e)
        (
          Member-append_right v xs (v ∷ []) (inl refl),
          All-append (λ x. v ≤ℤ x) xs (v ∷ [])
              (All-map (λ x. m ≤ℤ x) (λ x. v ≤ℤ x) xs (λ y k. ground arith) h.1) (omega arith, tt),
        )
  | inr above ↦
      let e : min_ℤ m v ≡ m = rw above refl in
      subst (λ k. IsLeast k (xs ++ v ∷ [])) (sym e)
        (
          Member-append_left m xs (v ∷ []) h.0,
          All-append (λ x. m ≤ℤ x) xs (v ∷ []) h.1 (ground arith, tt),
        )
]

IsGreatest-append :
    (m v : ℤ) (xs : List ℤ) → IsGreatest m xs → IsGreatest (max_ℤ m v) (xs ++ v ∷ [])
IsGreatest-append m v xs h = elim (Bool-cases (ltb_ℤ m v)) [
  | inl above ↦
      let e : max_ℤ m v ≡ v = rw above refl in
      subst (λ k. IsGreatest k (xs ++ v ∷ [])) (sym e)
        (
          Member-append_right v xs (v ∷ []) (inl refl),
          All-append (λ x. x ≤ℤ v) xs (v ∷ [])
              (All-map (λ x. x ≤ℤ m) (λ x. x ≤ℤ v) xs (λ y k. ground arith) h.1) (omega arith, tt),
        )
  | inr below ↦
      let e : max_ℤ m v ≡ m = rw below refl in
      subst (λ k. IsGreatest k (xs ++ v ∷ [])) (sym e)
        (
          Member-append_left m xs (v ∷ []) h.0,
          All-append (λ x. x ≤ℤ m) xs (v ∷ []) h.1 (ground arith, tt),
        )
]

pub opened-Summarises :
    (unit ts : String) (mono : ℕ) (v : ℤ) → Summarises (opened unit v ts mono) (v ∷ [])
opened-Summarises unit ts mono v = record {
  least = (inl refl, (omega arith, tt));
  greatest = (inl refl, (omega arith, tt));
  sum = refl;
  count = omega arith;
}

total-append : (x : ℤ) (xs : List ℤ) (v : ℤ) → total_from x (xs ++ v ∷ []) ≡ total_from x xs +ℤ v
total-append x [] v = refl
total-append x (y ∷ ys) v = total-append (x +ℤ y) ys v

sampled-Summarises :
    (a : Acc) (x : ℤ) (xs : List ℤ) (v : ℤ)
    → Summarises a (x ∷ xs)
    → Summarises (sampled a v) (x ∷ xs ++ v ∷ [])
unfolding sampled
sampled-Summarises a x xs v s = record {
  least = IsLeast-append a.least v (x ∷ xs) s.least;
  greatest = IsGreatest-append a.greatest v (x ∷ xs) s.greatest;
  sum = ap (λ t. t +ℤ v) s.sum ∙ sym (total-append x xs v);
  count = omega (arith, s.count, length-append (x ∷ xs) (v ∷ []));
}

-- The samples of each channel's window.
abbrev pub Samples : Type 0
Samples = String → List ℤ

abbrev pub Window : Option Acc → List ℤ → Type 0
Window none xs = xs ≡ []
Window (some a) [] = ⊥
Window (some a) (x ∷ xs) = Summarises a (x ∷ xs)

abbrev pub put : Samples → String → List ℤ → Samples
put h channel xs c = if str_eq channel c then xs else h c

-- A block, if there is one, is of a window that summarises the samples with the new one, and the
-- channel starts again; with no block the sample joins them. The other channels are as they were.
abbrev pub Follows : Samples → String → ℤ → Option Block × Dict Acc → Type 0
Follows h channel v (none, acc) =
    (c : String) → Window (lookup c acc) (put h channel (h channel ++ v ∷ []) c)
Follows h channel v (some block, acc) =
    ((a : Acc) × (ts : String) × (block ≡ close channel ts a) × Summarises a (h channel ++ v ∷ []))
    × ((c : String) → Window (lookup c acc) (put h channel [] c))

-- A table whose entry of one channel was set, and the samples likewise.
pub put-Window :
    (acc acc' : Dict Acc) (h : Samples) (channel : String) (o : Option Acc) (xs : List ℤ)
    → ((c : String) → lookup c acc' ≡ (if str_eq channel c then o else lookup c acc))
    → ((c : String) → Window (lookup c acc) (h c))
    → Window o xs
    → (c : String) → Window (lookup c acc') (put h channel xs c)
put-Window acc acc' h channel o xs set all here c = elim (Bool-cases (str_eq channel c)) [
  | inl same ↦
      let e : put h channel xs c ≡ xs = rw same refl in
      let f : lookup c acc' ≡ o = set c ∙ rw same refl in rw (e, f) here
  | inr other ↦
      let e : put h channel xs c ≡ h c = rw other refl in
      let f : lookup c acc' ≡ lookup c acc = set c ∙ rw other refl in rw (e, f) (all c)
]

module _ (window : ℕ) (channel unit ts : String) (v : ℤ) (mono : ℕ) (acc : Dict Acc) (h : Samples)
    (all : (c : String) → Window (lookup c acc) (h c)) where
  close_or_keep-Follows :
      (a : Acc) (x : ℤ) (xs : List ℤ)
      → h channel ++ v ∷ [] ≡ x ∷ xs
      → Summarises a (x ∷ xs)
      → Follows h channel v (close_or_keep window channel ts mono a acc)
  unfolding close_or_keep
  close_or_keep-Follows a x xs e s = elim (Bool-cases (leb window (mono - a.start_mono))) [
    | inl full ↦
        rw (full, close_or_keep)
          (
            (a, ts, refl, subst (Summarises a) (sym e) s),
            put-Window acc (delete channel acc) h channel none [] (λ c. lookup-delete channel c acc)
                all refl,
          )
    | inr going ↦
        rw (going, close_or_keep)
          (put-Window acc (insert channel a acc) h channel (some a) (h channel ++ v ∷ [])
            (λ c. lookup-insert channel c a acc) all (subst (Window (some a)) (sym e) s))
  ]

  -- If each open window summarises the samples of its channel, then after one more sample each still
  -- does, and a block that is returned is of a window that summarises all samples of its channel since
  -- the last block, the new one included: its least and greatest are samples with all others between
  -- them, and its sum and count are theirs.
  pub add-Follows : Follows h channel v (add window channel unit v ts mono acc)
  unfolding add
  add-Follows = elim (Option-cases (lookup channel acc)) [
    | inl first ↦
        let empty : h channel ≡ [] = rw first at (all channel) in
        rw (first, add)
          (put-Window acc (insert channel (opened unit v ts mono) acc) h channel
            (some (opened unit v ts mono)) (h channel ++ v ∷ [])
            (λ c. lookup-insert channel c (opened unit v ts mono) acc) all
            (rw empty (opened-Summarises unit ts mono v)))
    | inr (a, e) ↦
        let w : Window (some a) (h channel) = rw e at (all channel) in
        elim (List-cases (h channel)) [
          | inl none_yet ↦ absurd (subst (Window (some a)) none_yet w)
          | inr (x, xs, f) ↦
              rw (e, add)
                (close_or_keep-Follows (sampled a v) x (xs ++ v ∷ []) (ap (λ l. l ++ v ∷ []) f)
                  (sampled-Summarises a x xs v (subst (Window (some a)) f w)))
        ]
  ]
