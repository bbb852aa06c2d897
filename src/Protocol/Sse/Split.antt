-- ===== src/Protocol/Sse/Split.antt =====
-- That the splitter of crates/protocol/src/sse.rs does not depend on where packets are cut.
use quotamiser.Prelude.{
  ℕ, ◌+◌, ◌≡◌, inl, inr, refl, Option, none, some, List, [], ◌∷◌, ◌++◌, Bool, true, false, ◌&&◌,
  ◌||◌, ltb, ◌==◌, if◌then◌else◌, length, is_some, arith, Option-cases, Bool-cases, all, ap, ◌∙◌,
}
use quotamiser.Protocol.Sse.{
  Bytes, find_from, ends_cr, valid_utf8, parse_event, split_lines, add_first, read_lines, read_line,
  Fields, event_of, follow,
}

abbrev pub starts_lf : Bytes → Bool
starts_lf [] = false
starts_lf (b ∷ _) = b == 10

-- One more byte where the event ends with the buffer, in a CR, and an LF follows.
abbrev pub extra : ℕ → Bytes → Bytes → ℕ
extra n buf later = if n == length buf && ends_cr buf && starts_lf later then 1 else 0

abbrev pub extended : Option ℕ → Bytes → Bytes → Option ℕ
extended none buf later = none
extended (some n) buf later = some (n + extra n buf later)

-- An event that is complete in a buffer is complete in every longer one, and ends where it did,
-- but for the LF of a CRLF that was cut in two.
pub find_from-append :
    (prev : Bool) (buf later : Bytes)
    → is_some (find_from prev buf) ≡ true
    → find_from prev (buf ++ later) ≡ extended (find_from prev buf) buf later
unfolding find_from
find_from-append prev [] later h = ground arith
find_from-append prev (b ∷ []) [] h = ground arith
find_from-append prev (b ∷ []) (c ∷ later) h = ground arith
find_from-append prev (b ∷ c ∷ []) later h =
    ground (arith, find_from-append true (c ∷ []) later, find_from-append false (c ∷ []) later)
find_from-append prev (b ∷ c ∷ d ∷ buf) later h = elim (Bool-cases (b == 13 && c == 10)) [
  | inl pair ↦ elim (Bool-cases prev) [
    | inl after ↦ ground arith
    | inr before ↦ ground (arith, find_from-append true (d ∷ buf) later)
  ]
  | inr single ↦ elim (Bool-cases (b == 10 || b == 13)) [
    | inl ends ↦ elim (Bool-cases prev) [
      | inl after ↦ ground arith
      | inr before ↦ ground (arith, find_from-append true (c ∷ d ∷ buf) later)
    ]
    | inr inside ↦ ground (arith, find_from-append false (c ∷ d ∷ buf) later)
  ]
]

add_first-append :
    (b : ℕ) (l : Bytes) (lines : List Bytes) (line : Bytes)
    → add_first b ((l ∷ lines) ++ line ∷ []) ≡ add_first b (l ∷ lines) ++ line ∷ []
add_first-append b l lines line = refl

-- There is always a line.
split_lines-cons :
    (text : Bytes) → (line : Bytes) × (lines : List Bytes) × (split_lines text ≡ line ∷ lines)
split_lines-cons [] = ([], [], refl)
split_lines-cons (b ∷ text) =
    let (line, lines, is) = split_lines-cons text in
    elim (Bool-cases (b == 10 || b == 13)) [
      | inl ends ↦ ([], split_lines text, ground arith)
      | inr inside ↦ (b ∷ line, lines, ground arith)
    ]

split_lines-lf : (text : Bytes) → split_lines (text ++ 10 ∷ []) ≡ split_lines text ++ [] ∷ []
split_lines-lf [] = refl
split_lines-lf (b ∷ text) =
    let (line, lines, is) = split_lines-cons text in let same = split_lines-lf text in ground arith

read_lines-empty :
    (lines : List Bytes) (fields : Fields)
    → read_lines (lines ++ [] ∷ []) fields ≡ read_lines lines fields
read_lines-empty [] fields = ground arith
read_lines-empty (line ∷ lines) fields = read_lines-empty lines (read_line line fields)

-- One more line terminator adds nothing to an event.
pub parse_event-lf : (text : Bytes) → parse_event (text ++ 10 ∷ []) ≡ parse_event text
unfolding parse_event
parse_event-lf text = ap event_of (
    ap (λ lines. read_lines lines (none, [])) (split_lines-lf text)
    ∙ read_lines-empty (split_lines text) (none, []))

abbrev is_due : List (ℕ × ℕ) → Bool
is_due due = all (λ range. ltb 10 range.0) due

follow-is_due : (b : ℕ) (due : List (ℕ × ℕ)) → follow b ≡ some due → is_due due ≡ true
follow-is_due b due h = ground arith

pub valid_utf8-lf :
    (due : List (ℕ × ℕ)) (text : Bytes)
    → is_due due ≡ true
    → valid_utf8 due (text ++ 10 ∷ []) ≡ valid_utf8 due text
unfolding valid_utf8
valid_utf8-lf [] [] h = ground arith
valid_utf8-lf ((low, high) ∷ due) [] h = ground arith
valid_utf8-lf ((low, high) ∷ due) (b ∷ text) h = ground (arith, valid_utf8-lf due text)
valid_utf8-lf [] (b ∷ text) h = elim (Option-cases (follow b)) [
  | inl bad ↦ ground arith
  | inr (due, found) ↦ ground (arith, valid_utf8-lf due text (follow-is_due b due found))
]
