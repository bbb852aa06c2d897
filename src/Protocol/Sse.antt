-- ===== src/Protocol/Sse.antt =====
-- crates/protocol/src/sse.rs: incremental framing of Server-Sent Events. A packet, the buffer and
-- a text are lists of bytes; a Rust string is the bytes of its UTF-8 encoding.
pub mod Laws
pub mod Split
pub mod Resume
pub mod Packets
pub mod Cuts
use quotamiser.Prelude.{
  ℕ, zero, suc, ◌+◌, Option, none, some, List, [], ◌∷◌, ◌++◌, Bool, true, false, not, ◌&&◌, ◌||◌,
  ltb, leb, ◌==◌, if◌then◌else◌, length, is_some, and_then,
}

abbrev pub Bytes : Type 0
Bytes = List ℕ

abbrev pub lf : ℕ
lf = 10

abbrev pub cr : ℕ
cr = 13

abbrev pub max_event_bytes : ℕ
max_event_bytes = 1048576

pub record Event : Type 0 where
  pub event : Option Bytes
  -- the field `data`
  pub payload : Bytes

pub data FramingError : Type 0 where
  event_too_large invalid_utf8 : FramingError

pub record EventSplitter : Type 0 where
  pub buf : Bytes
  pub swallow_leading_lf : Bool
  pub failure : Option FramingError

abbrev pub new_splitter : EventSplitter
new_splitter = record { buf = []; swallow_leading_lf = false; failure = none }

-- A number of bytes further on.
abbrev pub further : ℕ → Option ℕ → Option ℕ
further k none = none
further k (some n) = some (k + n)

-- The loop of `find_event_end` from `i` on: the flag is `prev_wothersterminator`, and the result is
-- counted from `i`. The three clauses are the end of the buffer, its last byte, and the others.
unfoldable pub find_from : Bool → Bytes → Option ℕ
find_from prev [] = none
find_from prev (b ∷ []) = if b == 10 || b == 13 then (if prev then some 1 else none) else none
find_from prev (b ∷ c ∷ buf) = elim (b == 13 && c == 10) [
  | true ↦ elim prev [ true ↦ some 2 | false ↦ further 2 (find_from true buf) ]
  | false ↦ elim (b == 10 || b == 13) [
    | true ↦ elim prev [ true ↦ some 1 | false ↦ further 1 (find_from true (c ∷ buf)) ]
    | false ↦ further 1 (find_from false (c ∷ buf))
  ]
]

abbrev pub find_event_end : Bytes → Option ℕ
find_event_end buf = find_from false buf

-- The ranges of the continuation bytes that a leading byte asks for.
abbrev pub between : ℕ → ℕ → ℕ → Bool
between low high b = leb low b && leb b high

abbrev pub continuation : ℕ × ℕ
continuation = (128, 191)

abbrev pub follow : ℕ → Option (List (ℕ × ℕ))
follow b =
    if ltb b 128
    then some []
    else if between 194 223 b
    then some (continuation ∷ [])
    else if b == 224
    then some ((160, 191) ∷ continuation ∷ [])
    else if b == 237
    then some ((128, 159) ∷ continuation ∷ [])
    else if between 225 239 b
    then some (continuation ∷ continuation ∷ [])
    else if b == 240
    then some ((144, 191) ∷ continuation ∷ continuation ∷ [])
    else if between 241 243 b
    then some (continuation ∷ continuation ∷ continuation ∷ [])
    else if b == 244
    then some ((128, 143) ∷ continuation ∷ continuation ∷ [])
    else none

-- `std::str::from_utf8` succeeds, the continuation bytes that are due first.
unfoldable pub valid_utf8 : List (ℕ × ℕ) → Bytes → Bool
valid_utf8 [] [] = true
valid_utf8 (_ ∷ _) [] = false
valid_utf8 ((low, high) ∷ due) (b ∷ text) = between low high b && valid_utf8 due text
valid_utf8 [] (b ∷ text) = elim (follow b) [ none ↦ false | some due ↦ valid_utf8 due text ]

abbrev pub add_first : ℕ → List Bytes → List Bytes
add_first b [] = (b ∷ []) ∷ []
add_first b (line ∷ lines) = (b ∷ line) ∷ lines

-- `text.split(['\r', '\n'])`
abbrev pub split_lines : Bytes → List Bytes
split_lines [] = [] ∷ []
split_lines (b ∷ text) =
    if b == 10 || b == 13 then [] ∷ split_lines text else add_first b (split_lines text)

-- `line.split_once(':')`
abbrev pub split_once : Bytes → Option (Bytes × Bytes)
split_once [] = none
split_once (b ∷ line) =
    if b == 58
    then some ([], line)
    else and_then (split_once line) λ parts. some (b ∷ parts.0, parts.1)

-- `value.strip_prefix(' ').unwrap_or(value)`
abbrev pub strip_space : Bytes → Bytes
strip_space [] = []
strip_space (b ∷ value) = if b == 32 then value else b ∷ value

abbrev pub field_of : Bytes → Bytes × Bytes
field_of line = elim (split_once line) [
  | none ↦ (line, [])
  | some parts ↦ (parts.0, strip_space parts.1)
]

abbrev pub bytes_eq : Bytes → Bytes → Bool
bytes_eq [] [] = true
bytes_eq (a ∷ others) (b ∷ bs) = a == b && bytes_eq others bs
bytes_eq _ _ = false

-- "event" and "data".
abbrev pub event_field : Bytes
event_field = 101 ∷ 118 ∷ 101 ∷ 110 ∷ 116 ∷ []

abbrev pub data_field : Bytes
data_field = 100 ∷ 97 ∷ 116 ∷ 97 ∷ []

-- `line.is_empty() || line.starts_with(':')`
abbrev pub is_skipped : Bytes → Bool
is_skipped [] = true
is_skipped (b ∷ _) = b == 58

-- The event's name and the lines of its data, after the lines of the text.
abbrev pub Fields : Type 0
Fields = Option Bytes × List Bytes

abbrev pub read_line : Bytes → Fields → Fields
read_line line (event, payload) =
    let (field, value) = field_of line in
    if is_skipped line
    then (event, payload)
    else if bytes_eq field event_field
    then (some value, payload)
    else if bytes_eq field data_field
    then (event, payload ++ value ∷ [])
    else (event, payload)

abbrev pub read_lines : List Bytes → Fields → Fields
read_lines [] fields = fields
read_lines (line ∷ lines) fields = read_lines lines (read_line line fields)

-- `data.join("\n")`
abbrev pub join_lines : List Bytes → Bytes
join_lines [] = []
join_lines (line ∷ []) = line
join_lines (line ∷ lines) = line ++ 10 ∷ join_lines lines

abbrev pub event_of : Fields → List Event
event_of (event, []) = []
event_of (event, line ∷ lines) = record { event = event; payload = join_lines (line ∷ lines) } ∷ []

-- The event of a text, if it has one.
unfoldable pub parse_event : Bytes → List Event
parse_event text = event_of (read_lines (split_lines text) (none, []))

-- The events of the buffer, in order, and what is left of it.
pub record Drained : Type 0 where
  pub events : List Event
  pub rest : Bytes
  pub ended_cr : Bool
  pub undecodable : Bool

abbrev pub take : ℕ → Bytes → Bytes
take zero buf = []
take (suc n) [] = []
take (suc n) (b ∷ buf) = b ∷ take n buf

abbrev pub drop : ℕ → Bytes → Bytes
drop zero buf = buf
drop (suc n) [] = []
drop (suc n) (b ∷ buf) = drop n buf

-- `raw.last() == Some(&b'\r')`
abbrev pub ends_cr : Bytes → Bool
ends_cr [] = false
ends_cr (b ∷ []) = b == 13
ends_cr (b ∷ c ∷ buf) = ends_cr (c ∷ buf)

abbrev pub with_events : List Event → Drained → Drained
with_events events d = record d { events = events ++ d.events }

-- The loop of `push`, on fuel: each round takes bytes off the buffer, so its length is enough.
unfoldable pub drain : ℕ → Bool → Bytes → Drained
drain zero last buf = record { events = []; rest = buf; ended_cr = last; undecodable = false }
drain (suc fuel) last buf = elim (find_event_end buf) [
  | none ↦ record { events = []; rest = buf; ended_cr = last; undecodable = false }
  | some end ↦
      let raw = take end buf in
      elim (valid_utf8 [] raw) [
        | true ↦ with_events (parse_event raw) (drain fuel (ends_cr raw) (drop end buf))
        | false ↦ record {
          events = [];
          rest = drop end buf;
          ended_cr = ends_cr raw;
          undecodable = true;
        }
      ]
]

abbrev pub fail : FramingError → EventSplitter
fail error = record { buf = []; swallow_leading_lf = false; failure = some error }

abbrev pub is_empty : Bytes → Bool
is_empty [] = true
is_empty _ = false

-- The packet without the LF that completes a CRLF of the packet before.
abbrev pub without_lf : EventSplitter → Bytes → Bytes
without_lf s [] = []
without_lf s (b ∷ packet) =
    if s.swallow_leading_lf && is_empty s.buf && b == 10 then packet else b ∷ packet

-- The end of `push`, after the loop.
abbrev pub settled_as : Drained → EventSplitter
settled_as d =
    if d.undecodable
    then fail invalid_utf8
    else if ltb max_event_bytes (length d.rest)
    then fail event_too_large
    else record { buf = d.rest; swallow_leading_lf = d.ended_cr && is_empty d.rest; failure = none }

unfoldable pub push : Bytes → EventSplitter → List Event × EventSplitter
push packet s = elim s.failure [
  | some error ↦ ([], s)
  | none ↦
      let buf = s.buf ++ without_lf s packet in
      let d = drain (length buf) false buf in (d.events, settled_as d)
]

-- A sequence of packets: all the events, in order, and the splitter at the end.
abbrev pub push_all : List Bytes → EventSplitter → List Event × EventSplitter
push_all [] s = ([], s)
push_all (packet ∷ packets) s =
    let (events, s') = push packet s in
    let (later, s'') = push_all packets s' in (events ++ later, s'')

unfoldable pub is_mid_event : EventSplitter → Bool
is_mid_event s = not (is_empty s.buf)
