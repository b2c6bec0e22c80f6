-- ===== src/Validate/Exit.antt =====
-- When `omp-validate` exits with 0.
use open_machine_protocol.Prelude.{
  ℕ, ◌+◌, ◌≡◌, ◌⊎◌, refl, ◌↔◌, String, true, false, str_eq, eq_iff, Bool-cases, Option, none, some,
  List, [], ◌∷◌, arith, All, Option-cases, inl, inr,
}
use open_machine_protocol.Envelope.{Envelope, Primitives}
use open_machine_protocol.Spec.{Spec, Invalid, validate_envelope}
use open_machine_protocol.Spec.Validity.{IsConforming, validate_envelope_iff}
use open_machine_protocol.Ingest.{Line, blank, not_json, not_object, malformed, object}
use open_machine_protocol.Audit.{Verifier, sig_input, verify_envelope_sig}
use open_machine_protocol.Validate.{
  Tally, zero_tally, reject, accept, Reason, signature_fault, first_invalid, fault_of, tally_line,
  tally_all, exit_code,
}

module _ (p : Primitives) (spec : Spec) (verify : Verifier) (pubkey : Option String) where
  -- With a key, a signature that verifies over the four lines that the gateway signs.
  abbrev pub IsVerified : Option String → Envelope → Type 0
  IsVerified none e = Unit
  IsVerified (some key) e =
      (key ≡ "")
      ⊎ ((sig : String) × (e.sig ≡ some sig)
          × (verify key sig (sig_input e.gateway_id e.machine_id e.seq e.checksum) ≡ true))

  -- A line that is blank, or an envelope that conforms in the strict reading and is verified.
  abbrev pub IsFine : Line → Type 0
  IsFine blank = Unit
  IsFine not_json = ⊥
  IsFine not_object = ⊥
  IsFine (malformed m) = ⊥
  IsFine (object e) = IsConforming p spec e false × IsVerified pubkey e

  signature_fault-none :
      (key : Option String) (e : Envelope)
      → (signature_fault verify key e ≡ none) ↔ IsVerified key e
  unfolding signature_fault verify_envelope_sig
  signature_fault-none none e = (λ h. tt, λ h. refl)
  signature_fault-none (some key) e = on_sig e.sig
    where
      not_both :
          (sig s : String)
          → some sig ≡ some s
          → verify key s (sig_input e.gateway_id e.machine_id e.seq e.checksum) ≡ true
          → verify key sig (sig_input e.gateway_id e.machine_id e.seq e.checksum) ≡ false
          → ⊥
      not_both sig s same good bad = cc

      on_sig :
          (sig : Option String)
          → (signature_fault verify (some key) (record e { sig = sig }) ≡ none)
            ↔ IsVerified (some key) (record e { sig = sig })
      on_sig none = elim (Bool-cases (str_eq key "")) [
        | inl empty ↦ rw empty (λ h. inl ((eq_iff key "").0 empty), λ h. refl)
        | inr given ↦ rw given (
          λ h. absurd (ground arith),
          λ h. elim h [
            | inl empty ↦ absurd (ground (arith, given, eq_iff key ""))
            | inr (s, e', v) ↦ absurd (ground (arith, e'))
          ],
        )
      ]
      on_sig (some sig) = elim (Bool-cases (str_eq key "")) [
        | inl empty ↦ rw empty (λ h. inl ((eq_iff key "").0 empty), λ h. refl)
        | inr given ↦
            elim (Bool-cases
              (verify key sig (sig_input e.gateway_id e.machine_id e.seq e.checksum))) [
                | inl good ↦ rw (given, good) (λ h. inr (sig, refl, good), λ h. refl)
                | inr bad ↦
                    rw (given, bad)
                      (
                        λ h. absurd (ground arith),
                        λ h. elim h [
                          | inl empty ↦ absurd (ground (arith, given, eq_iff key ""))
                          | inr (s, same, v) ↦ absurd (not_both sig s same v bad)
                        ],
                      )
              ]
      ]

  first_invalid-none :
      (errors : List Invalid) (rest : Option Reason)
      → (first_invalid errors rest ≡ none) ↔ ((errors ≡ []) × (rest ≡ none))
  first_invalid-none [] rest = (λ h. (refl, h), λ h. h.1)
  first_invalid-none (x ∷ xs) rest = (λ h. absurd (ground arith), λ h. absurd (ground (arith, h.0)))

  fault_of-none : (e : Envelope) → (fault_of p spec verify pubkey e ≡ none) ↔ IsFine (object e)
  unfolding fault_of
  fault_of-none e =
      let first =
        first_invalid-none (validate_envelope p spec e false) (signature_fault verify pubkey e) in
      let conforming = validate_envelope_iff p spec e false in
      let signed = signature_fault-none pubkey e in
      (
        λ h. (conforming.0 (first.0 h).0, signed.0 (first.0 h).1),
        λ h. first.1 (conforming.1 h.0, signed.1 h.1),
      )

  abbrev pub visible : Line → ℕ
  visible blank = 0
  visible _ = 1

  abbrev pub lines_seen : List Line → ℕ
  lines_seen [] = 0
  lines_seen (l ∷ ls) = visible l + lines_seen ls

  -- `n` more faults from `t` to `t'`, none exactly if `Fine`, over `seen` lines.
  record Grows (Fine : Type 0) (seen : ℕ) (t t' : Tally) : Type 0 where
    faults : ℕ
    invalid_count : t'.invalid_count ≡ t.invalid_count + faults
    fine : (faults ≡ 0) ↔ Fine
    valid : t'.valid + faults ≡ t.valid + seen

  rejected :
      (l : Line) (t t' : Tally)
      → t'.invalid_count ≡ t.invalid_count + 1
      → t'.valid ≡ t.valid
      → visible l ≡ 1
      → (IsFine l → ⊥)
      → Grows (IsFine l) (visible l) t t'
  rejected l t t' h k v bad = record {
    faults = 1;
    invalid_count = h;
    fine = (λ e. absurd (omega arith), λ f. absurd (bad f));
    valid = omega arith;
  }

  tally_line-Grows :
      (l : Line) (t : Tally) → Grows (IsFine l) (visible l) t (tally_line p spec verify pubkey l t)
  unfolding tally_line reject accept
  tally_line-Grows blank t = record {
    faults = 0;
    invalid_count = omega arith;
    fine = (λ h. tt, λ h. refl);
    valid = omega arith;
  }
  tally_line-Grows not_json t = rejected not_json t _ refl refl refl (λ f. f)
  tally_line-Grows not_object t = rejected not_object t _ refl refl refl (λ f. f)
  tally_line-Grows (malformed m) t = rejected (malformed m) t _ refl refl refl (λ f. f)
  tally_line-Grows (object e) t = elim (Option-cases (fault_of p spec verify pubkey e)) [
    | inl fine ↦
        rw (fine, tally_line)
          (record {
            faults = 0;
            invalid_count = omega arith;
            fine = (λ h. (fault_of-none e).0 fine, λ h. refl);
            valid = omega arith;
          })
    | inr (r, bad) ↦
        rw (bad, tally_line)
          (record {
            faults = 1;
            invalid_count = refl;
            fine = (
              λ h. absurd (omega arith),
              λ h. absurd (ground (arith, bad, (fault_of-none e).1 h)),
            );
            valid = omega arith;
          })
  ]

  tally_all-Grows :
      (ls : List Line) (t : Tally)
      → Grows (All IsFine ls) (lines_seen ls) t (tally_all p spec verify pubkey ls t)
  unfolding tally_all
  tally_all-Grows [] t = record {
    faults = 0;
    invalid_count = omega arith;
    fine = (λ h. tt, λ h. refl);
    valid = omega arith;
  }
  tally_all-Grows (l ∷ ls) t =
      let a = tally_line-Grows l t in
      let b = tally_all-Grows ls (tally_line p spec verify pubkey l t) in
      record {
        faults = a.faults + b.faults;
        invalid_count = omega (arith, a.invalid_count, b.invalid_count);
        fine = (
          λ h. (a.fine.0 (omega arith), b.fine.0 (omega arith)),
          λ h. omega (arith, a.fine.1 h.0, b.fine.1 h.1),
        );
        valid = omega (arith, a.valid, b.valid);
      }

  -- The exit code is 0 exactly if every line is blank or an envelope that is valid in the strict reading
  -- and, where a key is given, signed with a signature that verifies for it; and each line that is not blank
  -- is counted once, as valid or as invalid.
  pub exit_code_iff :
      (ls : List Line)
      → ((exit_code p spec verify pubkey ls ≡ 0) ↔ All IsFine ls)
        × ((tally_all p spec verify pubkey ls zero_tally).valid
              + (tally_all p spec verify pubkey ls zero_tally).invalid_count
            ≡ lines_seen ls)
  unfolding exit_code
  exit_code_iff ls =
      let g = tally_all-Grows ls zero_tally in
      let n = (tally_all p spec verify pubkey ls zero_tally).invalid_count in
      (
        (
          λ h. g.fine.0 (ground (arith, g.invalid_count)),
          λ h.
              let none_bad : n ≡ 0 = omega (arith, g.invalid_count, g.fine.1 h) in
              rw (exit_code, none_bad) refl,
        ),
        omega (arith, g.invalid_count, g.valid),
      )
