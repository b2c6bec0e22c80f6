-- ===== src/Audit/Order.antt =====
-- The hash of a bundle does not depend on the order of its lines.
use open_machine_protocol.Prelude.{
  ◌<◌, ◌≡◌, ◌≢◌, ◌↔◌, ◌⊎◌, refl, sym, subst, ap, ◌∙◌, true, List, [], ◌∷◌, arith, Member, All,
  All-Member, All-of_Member, Bool-cases, inl, inr, ltb,
}
use open_machine_protocol.Envelope.{Envelope, Primitives}
use open_machine_protocol.Audit.{insert_by_seq, sort_by_seq, joined_checksums, records_hash}

-- No two envelopes have one number; the numbers rise.
abbrev pub DistinctSeqs : List Envelope → Type 0
DistinctSeqs [] = Unit
DistinctSeqs (e ∷ es) = All (λ x. x.seq ≢ e.seq) es × DistinctSeqs es

abbrev Rising : List Envelope → Type 0
Rising [] = Unit
Rising (e ∷ es) = All (λ x. e.seq < x.seq) es × Rising es

-- The same envelopes, in whatever order.
abbrev pub SameMembers : List Envelope → List Envelope → Type 0
SameMembers xs ys = (x : Envelope) → Member x xs ↔ Member x ys

Member-insert_by_seq :
    (x e : Envelope) (es : List Envelope) → Member x (insert_by_seq e es) ↔ Member x (e ∷ es)
unfolding insert_by_seq
Member-insert_by_seq x e [] = (λ m. m, λ m. m)
Member-insert_by_seq x e (y ∷ es) = elim (Bool-cases (ltb e.seq y.seq)) [
  | inl before ↦ rw before (λ m. m, λ m. m)
  | inr after ↦ let ih = Member-insert_by_seq x e es in rw after (to ih.0, from ih.1)
]
  where
    to :
        (Member x (insert_by_seq e es) → Member x (e ∷ es))
        → Member x (y ∷ insert_by_seq e es)
        → Member x (e ∷ y ∷ es)
    to ih (inl h) = inr (inl h)
    to ih (inr m) = elim (ih m) [ inl h ↦ inl h | inr k ↦ inr (inr k) ]

    from :
        (Member x (e ∷ es) → Member x (insert_by_seq e es))
        → Member x (e ∷ y ∷ es)
        → Member x (y ∷ insert_by_seq e es)
    from ih (inl h) = inr (ih (inl h))
    from ih (inr (inl h)) = inl h
    from ih (inr (inr k)) = inr (ih (inr k))

-- A number is below all of a list's.
all_insert :
    (P : Envelope → Type 0) (e : Envelope) (es : List Envelope)
    → P e
    → All P es
    → All P (insert_by_seq e es)
all_insert P e es h k =
    All-of_Member P (insert_by_seq e es)
      (λ x m. All-Member P x (e ∷ es) (h, k) ((Member-insert_by_seq x e es).0 m))

insert_by_seq-Rising :
    (e : Envelope) (es : List Envelope)
    → All (λ x. x.seq ≢ e.seq) es
    → Rising es
    → Rising (insert_by_seq e es)
unfolding insert_by_seq
insert_by_seq-Rising e [] d r = (tt, tt)
insert_by_seq-Rising e (y ∷ es) d r = elim (Bool-cases (ltb e.seq y.seq)) [
  | inl before ↦ rw before (
    (ground (arith, before), All-of_Member _ es (λ x m. above x (All-Member _ x es r.0 m) before)),
    r,
  )
  | inr after ↦ rw after (
    all_insert (λ x. y.seq < x.seq) e es (ground (arith, after, d.0)) r.0,
    insert_by_seq-Rising e es d.1 r.1,
  )
]
  where
    above : (x : Envelope) → y.seq < x.seq → ltb e.seq y.seq ≡ true → e.seq < x.seq
    above x h before = ground (arith, before)

-- Two rising lists with the same members are one list.
head_eq :
    (x y : Envelope) (xs ys : List Envelope)
    → Rising (x ∷ xs)
    → Rising (y ∷ ys)
    → Member x (y ∷ ys)
    → Member y (x ∷ xs)
    → x ≡ y
head_eq x y xs ys r s (inl e) m = e
head_eq x y xs ys r s (inr k) (inl e) = sym e
head_eq x y xs ys r s (inr k) (inr m) = absurd (
    omega (
      arith,
      All-Member (λ z. y.seq < z.seq) x ys s.0 k,
      All-Member (λ z. x.seq < z.seq) y xs r.0 m,
    ))

member_tail :
    (x z : Envelope) (xs ys : List Envelope)
    → Rising (x ∷ xs)
    → Member z xs
    → Member z (x ∷ ys)
    → Member z ys
member_tail x z xs ys r m (inr k) = k
member_tail x z xs ys r m (inl e) =
    let h : x.seq < x.seq =
      subst (λ w. x.seq < w.seq) e (All-Member (λ w. x.seq < w.seq) z xs r.0 m) in
    absurd (omega arith)

Rising-eq : (xs ys : List Envelope) → Rising xs → Rising ys → SameMembers xs ys → xs ≡ ys
Rising-eq [] [] r s h = refl
Rising-eq [] (y ∷ ys) r s h = absurd ((h y).1 (inl refl))
Rising-eq (x ∷ xs) [] r s h = absurd ((h x).0 (inl refl))
Rising-eq (x ∷ xs) (y ∷ ys) r s h =
    let e : x ≡ y = head_eq x y xs ys r s ((h x).0 (inl refl)) ((h y).1 (inl refl)) in
    let s' : Rising (x ∷ ys) = subst (λ w. Rising (w ∷ ys)) (sym e) s in
    let h' : SameMembers (x ∷ xs) (x ∷ ys) = subst (λ w. SameMembers (x ∷ xs) (w ∷ ys)) (sym e) h in
    ap (λ l. x ∷ l)
      (Rising-eq xs ys r.1 s.1 (λ z. (
        λ m. member_tail x z xs ys r m ((h' z).0 (inr m)),
        λ m. member_tail x z ys xs s' m ((h' z).1 (inr m)),
      )))
    ∙ ap (λ w. w ∷ ys) e

sort_by_seq-Rising :
    (es sorted : List Envelope)
    → DistinctSeqs es
    → All (λ e. All (λ x. x.seq ≢ e.seq) sorted) es
    → Rising sorted
    → Rising (sort_by_seq es sorted)
unfolding sort_by_seq
sort_by_seq-Rising [] sorted d a r = r
sort_by_seq-Rising (e ∷ es) sorted d a r =
    sort_by_seq-Rising es (insert_by_seq e sorted) d.1
      (All-of_Member _ es (λ e' m.
        all_insert (λ x. x.seq ≢ e'.seq) e sorted
          (λ q. All-Member (λ x. x.seq ≢ e.seq) e' es d.0 m (sym q)) (All-Member _ e' es a.1 m)))
      (insert_by_seq-Rising e sorted a.0 r)

Member-sort_by_seq :
    (x : Envelope) (es sorted : List Envelope)
    → Member x (sort_by_seq es sorted) ↔ (Member x es ⊎ Member x sorted)
unfolding sort_by_seq
Member-sort_by_seq x [] sorted = (λ m. inr m, λ m. elim m [ inl n ↦ absurd n | inr k ↦ k ])
Member-sort_by_seq x (e ∷ es) sorted =
    let ih = Member-sort_by_seq x es (insert_by_seq e sorted) in
    let here = Member-insert_by_seq x e sorted in
    (λ m. to here.0 (ih.0 m), λ m. ih.1 (from here.1 m))
  where
    to :
        (Member x (insert_by_seq e sorted) → Member x (e ∷ sorted))
        → Member x es ⊎ Member x (insert_by_seq e sorted)
        → Member x (e ∷ es) ⊎ Member x sorted
    to f (inl m) = inl (inr m)
    to f (inr m) = elim (f m) [ inl q ↦ inl (inl q) | inr k ↦ inr k ]

    from :
        (Member x (e ∷ sorted) → Member x (insert_by_seq e sorted))
        → Member x (e ∷ es) ⊎ Member x sorted
        → Member x es ⊎ Member x (insert_by_seq e sorted)
    from f (inl (inl q)) = inr (f (inl q))
    from f (inl (inr m)) = inl m
    from f (inr m) = inr (f (inr m))

sorted-SameMembers :
    (xs ys : List Envelope)
    → SameMembers xs ys
    → SameMembers (sort_by_seq xs []) (sort_by_seq ys [])
sorted-SameMembers xs ys h x = (through xs ys (h x).0, through ys xs (h x).1)
  where
    through :
        (us vs : List Envelope)
        → (Member x us → Member x vs)
        → Member x (sort_by_seq us [])
        → Member x (sort_by_seq vs [])
    through us vs f m =
        (Member-sort_by_seq x vs []).1
          (elim ((Member-sort_by_seq x us []).0 m) [ inl k ↦ inl (f k) | inr n ↦ inr n ])

-- Two bundles with the same envelopes, no two of one number, have one hash, in whatever order their lines
-- stand.
pub records_hash-SameMembers :
    (p : Primitives) (xs ys : List Envelope)
    → DistinctSeqs xs
    → DistinctSeqs ys
    → SameMembers xs ys
    → records_hash p xs ≡ records_hash p ys
unfolding records_hash
records_hash-SameMembers p xs ys d e h =
    ap (λ l. p.sha256_hex (joined_checksums l))
      (Rising-eq (sort_by_seq xs []) (sort_by_seq ys [])
        (sort_by_seq-Rising xs [] d (All-of_Member _ xs (λ z m. tt)) tt)
        (sort_by_seq-Rising ys [] e (All-of_Member _ ys (λ z m. tt)) tt)
        (sorted-SameMembers xs ys h))
