-- ===== src/Sniff/Tests.antt =====
-- A capture of an annotation, a blank line and a line with a byte that is no text.
use open_machine_protocol.Prelude.{ℕ, String, ◌≡◌, refl, some, none, List, [], ◌∷◌, arith}
use open_machine_protocol.Sniff.{data_line, annotation, capture_stdin}
use open_machine_protocol.Sniff.Capture.{Tells, data_lines, capture_stdin-Tells}

abbrev lines : List (List ℕ × String)
lines =
    (35 ∷ 32 ∷ 111 ∷ 107 ∷ 10 ∷ [], "t0")
    ∷ (13 ∷ 10 ∷ [], "t1")
    ∷ (67 ∷ 49 ∷ 13 ∷ 10 ∷ [], "t2")
    ∷ (2 ∷ 255 ∷ [], "t3")
    ∷ []

lines_captured :
    capture_stdin (λ s. s) lines
    ≡ annotation "t0" (111 ∷ 107 ∷ [])
      ∷ data_line "t2" "stdin" (52 ∷ 51 ∷ 32 ∷ 51 ∷ 49 ∷ []) (some (67 ∷ 49 ∷ []))
      ∷ data_line "t3" "stdin" (48 ∷ 50 ∷ 32 ∷ 102 ∷ 102 ∷ []) none
      ∷ []
unfolding capture_stdin
lines_captured = refl

capture_stdin-Tells_example : Tells (capture_stdin (λ s. s) lines) (data_lines lines)
capture_stdin-Tells_example = capture_stdin-Tells (λ s. s) lines (omega arith)
