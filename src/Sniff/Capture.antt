-- ===== src/Sniff/Capture.antt =====
-- What a capture keeps of the lines.
use open_machine_protocol.Prelude.{
  ℕ, ◌+◌, ◌-◌, ◌*◌, ◌/◌, ◌%◌, ◌<◌, ◌≡◌, ◌≢◌, refl, ap, ◌∙◌, String, Bool, true, false, not, ◌&&◌,
  Option, none, some, List, [], ◌∷◌, arith, All, ltb, ◌==◌, is_empty, Bool-cases, inl, inr,
  if◌then◌else◌, reverse_onto,
}
use open_machine_protocol.Sniff.{
  Entry, data_line, annotation, decode_ascii, is_space, is_newline, strip, lstrip, rstrip,
  is_printable, hex_digit, all_printable, hex, printable_text, entry_of, capture_stdin,
}

abbrev pub nibble : ℕ → ℕ
nibble c = if ltb c 58 then c - 48 else c - 87

-- The bytes that a hex field stands for, read independently of how it is written.
pub unhex : List ℕ → List ℕ
unhex [] = []
unhex (h ∷ []) = []
unhex (h ∷ l ∷ []) = (nibble h * 16 + nibble l) ∷ []
unhex (h ∷ l ∷ s ∷ rest) = (nibble h * 16 + nibble l) ∷ unhex rest

abbrev pub IsByte : ℕ → Type 0
IsByte b = b < 256

nibble-hex_digit : (d : ℕ) → d < 16 → nibble (hex_digit d) ≡ d
nibble-hex_digit d h = ground arith

byte_back : (b : ℕ) → b < 256 → nibble (hex_digit (b / 16)) * 16 + nibble (hex_digit (b % 16)) ≡ b
byte_back b h =
    omega (arith, nibble-hex_digit (b / 16) (omega arith), nibble-hex_digit (b % 16) (omega arith))

unhex-hex : (raw : List ℕ) → All IsByte raw → unhex (hex raw) ≡ raw
unfolding unhex hex
unhex-hex [] h = refl
unhex-hex (b ∷ []) h = ap (λ k. k ∷ []) (byte_back b h.0)
unhex-hex (b ∷ c ∷ bs) h =
    let rest = unhex-hex (c ∷ bs) h.1 in rw (byte_back b h.0) (ap (λ k. b ∷ k) rest)

-- ------------------------------------------------------------- what stripping keeps
All-reverse_onto :
    (P : ℕ → Type 0) (xs ys : List ℕ) → All P xs → All P ys → All P (reverse_onto xs ys)
All-reverse_onto P [] ys h k = k
All-reverse_onto P (x ∷ xs) ys h k = All-reverse_onto P xs (x ∷ ys) h.1 (h.0, k)

All-lstrip : (P : ℕ → Type 0) (space : ℕ → Bool) (cs : List ℕ) → All P cs → All P (lstrip space cs)
unfolding lstrip
All-lstrip P space [] h = tt
All-lstrip P space (c ∷ cs) h = elim (Bool-cases (space c)) [
  | inl blank ↦ rw blank (All-lstrip P space cs h.1)
  | inr kept ↦ rw kept h
]

All-rstrip : (P : ℕ → Type 0) (space : ℕ → Bool) (cs : List ℕ) → All P cs → All P (rstrip space cs)
unfolding rstrip
All-rstrip P space cs h =
    All-reverse_onto P (lstrip space (reverse_onto cs [])) []
      (All-lstrip P space (reverse_onto cs []) (All-reverse_onto P cs [] h tt)) tt

-- --------------------------------------------------------------------- the entries
-- A text that can be shown: some printable characters, and no other.
abbrev pub IsReadable : List ℕ → Type 0
IsReadable text = (text ≢ []) × All (λ c. is_printable c ≡ true) text

all_printable-All :
    (text : List ℕ) → all_printable text ≡ true → All (λ c. is_printable c ≡ true) text
unfolding all_printable
all_printable-All [] h = tt
all_printable-All (c ∷ cs) h = (ground arith, all_printable-All cs (ground arith))

abbrev pub OptionIsReadable : Option (List ℕ) → Type 0
OptionIsReadable none = Unit
OptionIsReadable (some text) = IsReadable text

shown_text : List ℕ → Option (List ℕ)
shown_text text = if not (is_empty text) && all_printable text then some text else none

shown_text-IsReadable : (text : List ℕ) → OptionIsReadable (shown_text text)
unfolding shown_text
shown_text-IsReadable [] = tt
shown_text-IsReadable (c ∷ cs) = elim (Bool-cases (all_printable (c ∷ cs))) [
  | inl all ↦ rw all (cc, all_printable-All (c ∷ cs) all)
  | inr some_not ↦ rw some_not tt
]

printable_text-IsReadable : (raw : List ℕ) → OptionIsReadable (printable_text raw)
unfolding printable_text shown_text
printable_text-IsReadable raw = shown_text-IsReadable (strip is_space (decode_ascii raw))

abbrev pub EntryIsReadable : Entry → Type 0
EntryIsReadable (data_line t src h text) = OptionIsReadable text
EntryIsReadable (annotation t text) = Unit

-- The raw lines that a capture holds, read back from the hex fields.
pub raw_lines : List Entry → List (List ℕ)
raw_lines [] = []
raw_lines (data_line t src h text ∷ entries) = unhex h ∷ raw_lines entries
raw_lines (annotation t text ∷ entries) = raw_lines entries

-- The lines of the input that are data: not blank, and not an annotation.
pub is_data : List ℕ → Bool
is_data [] = false
is_data (c ∷ cs) = not (c == b'#')

pub data_lines : List (List ℕ × String) → List (List ℕ)
data_lines [] = []
data_lines ((line, now) ∷ lines) =
    let raw = rstrip is_newline line in
    let rest = data_lines lines in if is_data raw then raw ∷ rest else rest

-- What a capture tells of its input.
abbrev pub Tells : List Entry → List (List ℕ) → Type 0
Tells entries raws = (raw_lines entries ≡ raws) × All EntryIsReadable entries

module _ (decode_utf8 : List ℕ → List ℕ) where
  -- One more line, by what is left of it without its line end.
  Tells-line :
      (raw : List ℕ) (now : String) (entries : List Entry) (raws : List (List ℕ))
      → All IsByte raw
      → Tells entries raws
      → Tells
          (if is_empty raw then entries else entry_of decode_utf8 raw now ∷ entries)
          (if is_data raw then raw ∷ raws else raws)
  unfolding is_data raw_lines entry_of
  Tells-line [] now entries raws b h = h
  Tells-line (c ∷ cs) now entries raws b h = elim (Bool-cases (c == b'#')) [
    | inl hash ↦ rw hash (h.0, (tt, h.1))
    | inr other ↦ rw other (
      ap (λ k. k ∷ raw_lines entries) (unhex-hex (c ∷ cs) b) ∙ ap (λ k. (c ∷ cs) ∷ k) h.0,
      (printable_text-IsReadable (c ∷ cs), h.1),
    )
  ]

  -- From the hex fields of a capture of lines of bytes one reads back, in order and without their line
  -- ends, exactly the lines that are neither blank nor annotations; and the text beside a hex field, where
  -- there is one, is not empty and all of it printable.
  pub capture_stdin-Tells :
      (lines : List (List ℕ × String))
      → All (λ l. All IsByte l.0) lines
      → Tells (capture_stdin decode_utf8 lines) (data_lines lines)
  unfolding capture_stdin data_lines raw_lines
  capture_stdin-Tells [] b = (refl, tt)
  capture_stdin-Tells ((line, now) ∷ lines) b =
      Tells-line (rstrip is_newline line) now (capture_stdin decode_utf8 lines) (data_lines lines)
        (All-rstrip IsByte is_newline line b.0) (capture_stdin-Tells lines b.1)
