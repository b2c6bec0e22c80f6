-- ===== src/Audit.antt =====
-- tools/omp_tools/audit.py and sigverify.py: the selection of the run, the checks of completeness,
-- integrity, authenticity and conformance, and the hash of the records. The messages are kept as data; the
-- findings and errors of the child modules are here too.
-- The bundles are those whose envelopes have the field types of the envelope schema.
pub mod Completeness
pub mod Flags
pub mod Order
pub mod Facts
pub mod Telling
pub mod Told
pub mod Readings
pub mod Known
pub mod Consistency
pub mod Comparisons
pub mod Agreement
pub mod Bundle
pub mod Cited
pub mod Evidence
pub mod Tests
use open_machine_protocol.Prelude.{
  ℕ, zero, suc, ◌+◌, ◌-◌, ◌*◌, String, Bool, true, false, not, ◌&&◌, ◌||◌, Option, none, some, List,
  [], ◌∷◌, ◌++◌, map, str_eq, ◌==◌, ltb, leb, any, select, take, length, is_empty, max,
  if◌then◌else◌,
}
use open_machine_protocol.Prelude.Int.{ℤ}
use open_machine_protocol.Json.{Float, Value, Fields, Items, get}
use open_machine_protocol.Json.Dumps.{codes, decimal}
use open_machine_protocol.Envelope.{Envelope, ValueError, Primitives, Result, ok, raised, checksum}
use open_machine_protocol.Spec.{Spec, Invalid, validate_envelope, as_text}

pub data Finding : Type 0 where
  -- the first twenty, and the number of the others
  missing_seqs : List ℕ → ℕ → Finding
  mismatch : ℕ → Finding
  not_canonicalizable : ℕ → ValueError → Finding
  unverified : ℕ → Finding
  unsigned : ℕ → Finding
  non_conformant : ℕ → Invalid → Finding
  unstarted_phases undeclared_phases : List String → Finding
  quantity_differs : String → ℤ → ℤ → Finding
  no_run_start no_run_end : Finding

-- The name of a check is the field of the report that it stands in; `detail` is built from numbers that
-- the other fields and the bundle determine, and is left out.
pub record Check : Type 0 where
  pub passed : Option Bool
  pub findings : List Finding

pub data AuditError : Type 0 where
  no_such_run no_run several_runs : AuditError
  -- a KeyError or TypeError at `rng["first"]`
  malformed_range : AuditError
  -- a body that its schema rules out, in the consistency check
  malformed_body : AuditError
  no_run_id : AuditError

pub data Audited (A : Type 0) : Type 0 where
  done : A → Audited A
  error : AuditError → Audited A

-- `body.get("event_seq_range")` with its two numbers; an empty one is as good as none.
pub data Range : Type 0 where
  absent malformed : Range
  between : ℕ → ℕ → Range

abbrev pub as_nat : Option Value → Option ℕ
as_nat (some (Value.int (ℤ.pos n))) = some n
as_nat _ = none

-- 0.0 and -0.0
abbrev pub is_zero : Float → Bool
is_zero (Float.finite negative m e) = m == 0
is_zero _ = false

abbrev pub both : Option ℕ → Option ℕ → Range
both (some a) (some b) = between a b
both _ _ = malformed

unfoldable pub range_in : Value → Range
range_in Value.null = absent
range_in (Value.boolean b) = if b then malformed else absent
range_in (Value.int (ℤ.pos n)) = if n == 0 then absent else malformed
range_in (Value.int (ℤ.negsuc n)) = malformed
range_in (Value.float f) = if is_zero f then absent else malformed
range_in (Value.text s) = if str_eq s "" then absent else malformed
range_in (Value.list Items.nil) = absent
range_in (Value.list (Items.cons v vs)) = malformed
range_in (Value.dict Fields.end) = absent
range_in (Value.dict (Fields.field k v fs)) =
    both (as_nat (get "first" (Fields.field k v fs))) (as_nat (get "last" (Fields.field k v fs)))

unfoldable pub range_of : Fields → Range
unfolding range_in
range_of body = elim (get "event_seq_range" body) [ none ↦ absent | some v ↦ range_in v ]

abbrev pub of_machine : Envelope → Envelope → Bool
of_machine run e = str_eq e.gateway_id run.gateway_id && str_eq e.machine_id run.machine_id

-- ------------------------------------------------------------ completeness
-- `seq in have`
unfoldable pub cites : List Envelope → Envelope → ℕ → Bool
cites cited run n = any (λ e. of_machine run e && e.seq == n) cited

-- sorted(want - have), on the `count` numbers from `first`
unfoldable pub missing_from : (ℕ → Bool) → ℕ → ℕ → List ℕ
missing_from has first zero = []
missing_from has first (suc count) =
    let rest = missing_from has (first + 1) count in if has first then rest else first ∷ rest

abbrev pub completeness_of : List ℕ → Check
completeness_of [] = record { passed = some true; findings = [] }
completeness_of (n ∷ missing) = record {
  passed = some false;
  findings = missing_seqs (take 20 (n ∷ missing)) (length (n ∷ missing) - 20) ∷ [];
}

abbrev pub completeness_in : List Envelope → Envelope → Range → Audited Check
completeness_in cited run absent = done (record { passed = none; findings = [] })
completeness_in cited run malformed = error malformed_range
completeness_in cited run (between first last) =
    done (completeness_of (missing_from (cites cited run) first (last + 1 - first)))

unfoldable pub check_completeness : List Envelope → Envelope → Audited Check
check_completeness cited run = completeness_in cited run (range_of run.body)

-- --------------------------------------- integrity, authenticity, conformance
-- The loops that gather what is wrong with each envelope.
unfoldable pub gather : (Envelope → Option Finding) → List Envelope → List Finding
gather f [] = []
gather f (e ∷ es) = let rest = gather f es in elim (f e) [ none ↦ rest | some b ↦ b ∷ rest ]

abbrev pub verdict : List Finding → List Finding → Check
verdict [] notes = record { passed = some true; findings = notes }
verdict (b ∷ bad) notes = record { passed = some false; findings = take 20 (b ∷ bad) }

abbrev pub digest_finding : Envelope → Result String → Option Finding
digest_finding e (ok digest) = if str_eq digest e.checksum then none else some (mismatch e.seq)
digest_finding e (raised err) = some (not_canonicalizable e.seq err)

unfoldable pub check_integrity : Primitives → List Envelope → Check
unfolding gather
check_integrity p cited = verdict (gather (λ e. digest_finding e (checksum p e.body)) cited) []

abbrev pub first_error : Envelope → List Invalid → Option Finding
first_error e [] = none
first_error e (x ∷ xs) = some (non_conformant e.seq x)

unfoldable pub check_conformance : Primitives → Spec → List Envelope → Check
unfolding gather
check_conformance p spec cited =
    verdict (gather (λ e. first_error e (validate_envelope p spec e false)) cited) []

-- Ed25519 over base64 texts: the public key, the signature and the signed code points. Whatever is
-- wrong with them, the answer is `false`.
abbrev pub Verifier : Type 0
Verifier = String → String → List ℕ → Bool

-- f"{gateway_id}\n{machine_id}\n{seq}\n{checksum}", as code points
unfoldable pub sig_input : String → String → ℕ → String → List ℕ
unfolding decimal
sig_input gateway_id machine_id seq checksum =
    codes gateway_id ++ 10 ∷ (codes machine_id ++ 10 ∷ (decimal seq ++ 10 ∷ codes checksum))

unfoldable pub verify_envelope_sig : Verifier → Envelope → String → Bool
unfolding sig_input
verify_envelope_sig verify e pubkey = elim e.sig [
  | none ↦ false
  | some sig ↦ verify pubkey sig (sig_input e.gateway_id e.machine_id e.seq e.checksum)
]

-- `"sig" in e`
abbrev pub is_signed : Envelope → Bool
is_signed e = elim e.sig [ none ↦ false | some sig ↦ true ]

abbrev pub unsigned_note : ℕ → List Finding
unsigned_note n = if n == 0 then [] else unsigned n ∷ []

abbrev pub sig_finding : Verifier → String → Envelope → Option Finding
sig_finding verify pubkey e =
    if verify_envelope_sig verify e pubkey then none else some (unverified e.seq)

-- The signed envelopes of a bundle of `count`.
abbrev pub signed_check : Verifier → String → ℕ → List Envelope → Check
signed_check verify pubkey count [] = record { passed = none; findings = [] }
signed_check verify pubkey count (e ∷ es) =
    verdict (gather (sig_finding verify pubkey) (e ∷ es)) (unsigned_note (count - length (e ∷ es)))

unfoldable pub check_authenticity : Verifier → List Envelope → Option String → Check
check_authenticity verify cited none = record { passed = none; findings = [] }
check_authenticity verify cited (some pubkey) =
    if str_eq pubkey ""
    then record { passed = none; findings = [] }
    else signed_check verify pubkey (length cited) (select is_signed cited)

-- ------------------------------------------------------------------ driver
abbrev pub has_run_id : String → Envelope → Bool
has_run_id run_id e = elim (as_text (get "run_id" e.body)) [
  | none ↦ false
  | some s ↦ str_eq s run_id
]

abbrev pub only_run : AuditError → List Envelope → Audited Envelope
only_run e [] = error e
only_run e (r ∷ []) = done r
only_run e (r ∷ s ∷ rest) = error several_runs

unfoldable pub select_run : List Envelope → Option String → Audited Envelope
select_run envelopes run_id =
    let runs = select (λ e. str_eq e.schema "process_run") envelopes in
    elim run_id [
      | none ↦ only_run no_run runs
      | some name ↦
          if str_eq name ""
          then only_run no_run runs
          else only_run no_such_run (select (has_run_id name) runs)
    ]

abbrev pub within : Range → ℕ → Bool
within (between first last) n = leb first n && leb n last
within _ n = true

-- The envelopes that the run's range cites, and the run itself, which is in the list already exactly if
-- its own number is in the range.
unfoldable pub cited_by : Envelope → List Envelope → List Envelope
unfolding range_of
cited_by run envelopes =
    let rng = range_of run.body in
    let cited = select (λ e. of_machine run e && within rng e.seq) envelopes in
    if within rng run.seq then cited else cited ++ run ∷ []

unfoldable pub insert_by_seq : Envelope → List Envelope → List Envelope
insert_by_seq e [] = e ∷ []
insert_by_seq e (x ∷ xs) =
    let rest = insert_by_seq e xs in if ltb e.seq x.seq then e ∷ x ∷ xs else x ∷ rest

-- sorted(envelopes, key=seq), which is stable
unfoldable pub sort_by_seq : List Envelope → List Envelope → List Envelope
unfolding insert_by_seq
sort_by_seq [] sorted = sorted
sort_by_seq (e ∷ es) sorted = sort_by_seq es (insert_by_seq e sorted)

unfoldable pub joined_checksums : List Envelope → List ℕ
joined_checksums [] = []
joined_checksums (e ∷ es) = codes e.checksum ++ joined_checksums es

unfoldable pub records_hash : Primitives → List Envelope → String
unfolding sort_by_seq joined_checksums
records_hash p envelopes = p.sha256_hex (joined_checksums (sort_by_seq envelopes []))
