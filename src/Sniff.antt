-- ===== src/Sniff.antt =====
-- tools/omp_tools/sniff.py: the records of a capture, `capture_stdin` and `decode`. Bytes and texts are
-- lists of numbers; UTF-8 decoding with replacement is a parameter, and a clock gives each record its time.
pub mod Capture
pub mod Tests
use open_machine_protocol.Prelude.{
  ℕ, suc, ◌+◌, ◌-◌, ◌/◌, ◌%◌, String, Bool, true, false, not, ◌&&◌, ◌||◌, Option, none, some, List,
  [], ◌∷◌, ◌++◌, ltb, leb, ◌==◌, is_empty, reverse_onto, if◌then◌else◌,
}
use open_machine_protocol.Engine.{ts_or_now}

-- One line of a capture: raw bytes, with their text where it is printable, or an annotation.
pub data Entry : Type 0 where
  data_line : String → String → List ℕ → Option (List ℕ) → Entry
  annotation : String → List ℕ → Entry

-- raw.decode("ascii", errors="replace")
unfoldable pub decode_ascii : List ℕ → List ℕ
decode_ascii [] = []
decode_ascii (b ∷ bs) = (if ltb b 128 then b else 65533) ∷ decode_ascii bs

-- `str.isspace` on what `decode_ascii` gives, and the whitespace of `bytes.strip`.
unfoldable pub is_space : ℕ → Bool
is_space c = (leb 9 c && leb c 13) || (leb 28 c && leb c 32)

unfoldable pub is_byte_space : ℕ → Bool
is_byte_space c = (leb 9 c && leb c 13) || c == 32

-- rstrip(b"\r\n")
unfoldable pub is_newline : ℕ → Bool
is_newline c = c == 10 || c == 13

unfoldable pub lstrip : (ℕ → Bool) → List ℕ → List ℕ
lstrip space [] = []
lstrip space (c ∷ cs) = let rest = lstrip space cs in if space c then rest else c ∷ cs

unfoldable pub rstrip : (ℕ → Bool) → List ℕ → List ℕ
unfolding lstrip
rstrip space cs = reverse_onto (lstrip space (reverse_onto cs [])) []

unfoldable pub strip : (ℕ → Bool) → List ℕ → List ℕ
unfolding lstrip rstrip
strip space cs = rstrip space (lstrip space cs)

unfoldable pub is_printable : ℕ → Bool
is_printable c = (ltb 31 c && ltb c 127) || c == 9

unfoldable pub all_printable : List ℕ → Bool
unfolding is_printable
all_printable [] = true
all_printable (c ∷ cs) = is_printable c && all_printable cs

abbrev hex_digit : ℕ → ℕ
hex_digit d = if ltb d 10 then b'0' + d else b'a' + (d - 10)

-- " ".join(f"{b:02x}" for b in raw)
unfoldable pub hex : List ℕ → List ℕ
hex [] = []
hex (b ∷ []) = hex_digit (b / 16) ∷ hex_digit (b % 16) ∷ []
hex (b ∷ c ∷ bs) = hex_digit (b / 16) ∷ hex_digit (b % 16) ∷ 32 ∷ hex (c ∷ bs)

unfoldable pub printable_text : List ℕ → Option (List ℕ)
unfolding decode_ascii is_space strip all_printable
printable_text raw =
    let text = strip is_space (decode_ascii raw) in
    if not (is_empty text) && all_printable text then some text else none

unfoldable pub record_line : List ℕ → String → Option String → String → Entry
unfolding hex printable_text
record_line raw src ts now = data_line (ts_or_now ts now) src (hex raw) (printable_text raw)

unfoldable pub note : List ℕ → Option String → String → Entry
note text ts now = annotation (ts_or_now ts now) text

module _ (decode_utf8 : List ℕ → List ℕ) where
  -- A line that is not empty once its line end is off.
  unfoldable pub entry_of : List ℕ → String → Entry
  unfolding strip is_byte_space record_line note
  entry_of [] now = record_line [] "stdin" none now
  entry_of (c ∷ cs) now =
      if c == b'#'
      then note (decode_utf8 (strip is_byte_space cs)) none now
      else record_line (c ∷ cs) "stdin" none now

  -- The loop over the lines, each with the clock at which it is handled.
  unfoldable pub capture_stdin : List (List ℕ × String) → List Entry
  unfolding rstrip is_newline entry_of
  capture_stdin [] = []
  capture_stdin ((line, now) ∷ lines) =
      let rest = capture_stdin lines in
      let raw = rstrip is_newline line in if is_empty raw then rest else entry_of raw now ∷ rest

-- What `decode` shows of an entry, after its time; the dashes around a note are left out.
unfoldable pub shown : Entry → List ℕ
shown (annotation t text) = text
shown (data_line t src h none) = h
shown (data_line t src h (some text)) = if is_empty text then h else text
