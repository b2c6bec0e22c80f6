-- ===== src/Audit/Flags.antt =====
-- What the verdicts on checksums, schemas and signatures mean.
use open_machine_protocol.Prelude.{
  ℕ, ◌-◌, sym, subst, ◌≡◌, ◌≢◌, refl, ◌↔◌, String, true, false, Option, none, some, List, [], ◌∷◌,
  arith, str_eq, eq_iff, select, length, All, Bool-cases, Option-cases, inl, inr,
}
use open_machine_protocol.Envelope.{Envelope, Primitives, Result, ok, raised, checksum}
use open_machine_protocol.Spec.{Spec, Invalid, validate_envelope}
use open_machine_protocol.Engine.{Signer, sign, sig_input as signer_input}
use open_machine_protocol.Audit.{
  sig_input, Finding, gather, verdict, digest_finding, first_error, check_integrity,
  check_conformance, Verifier, verify_envelope_sig, is_signed, unsigned_note, sig_finding,
  signed_check, check_authenticity,
}

gather-eq-nil :
    (f : Envelope → Option Finding) (es : List Envelope)
    → (gather f es ≡ []) ↔ All (λ e. f e ≡ none) es
unfolding gather
gather-eq-nil f [] = (λ h. tt, λ h. refl)
gather-eq-nil f (e ∷ es) = elim (Option-cases (f e)) [
  | inl fine ↦
      rw (fine, gather) (λ h. (refl, (gather-eq-nil f es).0 h), λ h. (gather-eq-nil f es).1 h.1)
  | inr (b, bad) ↦ rw (bad, gather) (λ h. absurd (ground arith), λ h. absurd (ground (arith, h.0)))
]

verdict-passed : (bad notes : List Finding) → ((verdict bad notes).passed ≡ some true) ↔ (bad ≡ [])
verdict-passed [] notes = (λ h. refl, λ h. refl)
verdict-passed (b ∷ bad) notes = (λ h. absurd (ground arith), λ h. absurd (ground arith))

All-iff :
    (P Q : Envelope → Type 0) (es : List Envelope)
    → ((e : Envelope) → P e ↔ Q e)
    → All P es ↔ All Q es
All-iff P Q [] h = (λ k. k, λ k. k)
All-iff P Q (e ∷ es) h =
    (λ k. ((h e).0 k.0, (All-iff P Q es h).0 k.1), λ k. ((h e).1 k.0, (All-iff P Q es h).1 k.1))

both_ways : (A B C : Type 0) → A ↔ B → B ↔ C → A ↔ C
both_ways A B C h k = (λ a. k.0 (h.0 a), λ c. h.1 (k.1 c))

-- A loop that gathers nothing is one whose every envelope is as it should be.
judged :
    (f : Envelope → Option Finding) (P : Envelope → Type 0) (notes : List Finding)
    (es : List Envelope)
    → ((e : Envelope) → (f e ≡ none) ↔ P e)
    → ((verdict (gather f es) notes).passed ≡ some true) ↔ All P es
judged f P notes es h =
    both_ways _ _ _ (verdict-passed (gather f es) notes)
      (both_ways _ _ _ (gather-eq-nil f es) (All-iff _ P es h))

digest_finding-eq-none :
    (e : Envelope) (r : Result String) → (digest_finding e r ≡ none) ↔ (r ≡ ok e.checksum)
digest_finding-eq-none e (ok digest) =
    (λ h. ground (arith, eq_iff digest e.checksum), λ h. ground (arith, eq_iff digest e.checksum))
digest_finding-eq-none e (raised err) = (λ h. absurd (ground arith), λ h. absurd (ground arith))

-- The integrity check passes exactly if the checksum of every cited envelope is the one that its body
-- gives again.
pub check_integrity-passed :
    (p : Primitives) (cited : List Envelope)
    → ((check_integrity p cited).passed ≡ some true)
      ↔ All (λ e. checksum p e.body ≡ ok e.checksum) cited
unfolding check_integrity
check_integrity-passed p cited =
    judged _ _ [] cited (λ e. digest_finding-eq-none e (checksum p e.body))

first_error-eq-none : (e : Envelope) (xs : List Invalid) → (first_error e xs ≡ none) ↔ (xs ≡ [])
first_error-eq-none e [] = (λ h. refl, λ h. refl)
first_error-eq-none e (x ∷ xs) = (λ h. absurd (ground arith), λ h. absurd (ground arith))

-- The conformance check passes exactly if every cited envelope is valid, in the strict reading of
-- profiles.
pub check_conformance-passed :
    (p : Primitives) (spec : Spec) (cited : List Envelope)
    → ((check_conformance p spec cited).passed ≡ some true)
      ↔ All (λ e. validate_envelope p spec e false ≡ []) cited
unfolding check_conformance
check_conformance-passed p spec cited =
    judged _ _ [] cited (λ e. first_error-eq-none e (validate_envelope p spec e false))

sig_finding-eq-none :
    (verify : Verifier) (pubkey : String) (e : Envelope)
    → (sig_finding verify pubkey e ≡ none) ↔ (verify_envelope_sig verify e pubkey ≡ true)
sig_finding-eq-none verify pubkey e = elim (Bool-cases (verify_envelope_sig verify e pubkey)) [
  | inl fine ↦ rw fine (λ h. refl, λ h. refl)
  | inr bad ↦ rw bad (λ h. absurd (ground arith), λ h. absurd (ground arith))
]

-- A key is given, some envelope is signed, and every signature verifies.
abbrev pub AllVerify : Verifier → List Envelope → Option String → Type 0
AllVerify verify signed none = ⊥
AllVerify verify [] (some pubkey) = ⊥
AllVerify verify (e ∷ es) (some pubkey) =
    (pubkey ≢ "") × All (λ x. verify_envelope_sig verify x pubkey ≡ true) (e ∷ es)

signed_check-passed :
    (verify : Verifier) (pubkey : String) (count : ℕ) (signed : List Envelope)
    → pubkey ≢ ""
    → ((signed_check verify pubkey count signed).passed ≡ some true)
      ↔ AllVerify verify signed (some pubkey)
signed_check-passed verify pubkey count [] h = (λ k. absurd (ground arith), λ k. absurd k)
signed_check-passed verify pubkey count (e ∷ es) h =
    let j =
      judged (sig_finding verify pubkey) (λ x. verify_envelope_sig verify x pubkey ≡ true)
        (unsigned_note (count - length (e ∷ es))) (e ∷ es) (sig_finding-eq-none verify pubkey) in
    (λ k. (h, j.0 k), λ k. j.1 k.1)

AllVerify-empty_key :
    (verify : Verifier) (signed : List Envelope) → AllVerify verify signed (some "") → ⊥
AllVerify-empty_key verify [] h = h
AllVerify-empty_key verify (e ∷ es) h = h.0 refl

-- The authenticity check passes exactly if a key is given, some cited envelope is signed, and every
-- signature among them verifies under the key: what could not be checked never passes.
pub check_authenticity-passed :
    (verify : Verifier) (cited : List Envelope) (pubkey : Option String)
    → ((check_authenticity verify cited pubkey).passed ≡ some true)
      ↔ AllVerify verify (select is_signed cited) pubkey
unfolding check_authenticity
check_authenticity-passed verify cited none = (λ h. absurd (ground arith), λ h. absurd h)
check_authenticity-passed verify cited (some pubkey) = elim (Bool-cases (str_eq pubkey "")) [
  | inl blank ↦
      let same : pubkey ≡ "" = (eq_iff pubkey "").0 blank in
      subst
        (λ (k : String).
          ((check_authenticity verify cited (some k)).passed ≡ some true)
          ↔ AllVerify verify (select is_signed cited) (some k))
        (sym same) (λ h. absurd (ground arith), λ h. absurd (AllVerify-empty_key verify _ h))
  | inr key ↦
      rw (key, check_authenticity)
        (signed_check-passed verify pubkey (length cited) (select is_signed cited)
          (λ same. absurd (ground (arith, eq_iff pubkey ""))))
]

-- An envelope that the gateway signs verifies under every public key whose verifier takes what the
-- gateway's key signs.
pub verify_envelope_sig-sign :
    (verify : Verifier) (key : Signer) (pubkey : String) (e : Envelope)
    → ((m : List ℕ) → verify pubkey (key m) m ≡ true)
    → verify_envelope_sig verify (sign (some key) e) pubkey ≡ true
unfolding verify_envelope_sig sign sig_input signer_input
verify_envelope_sig-sign verify key pubkey e sound = sound _
