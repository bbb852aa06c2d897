-- ===== src/Protocol/Responses/Observed.antt =====
-- What an observer of crates/protocol/src/responses.rs reports in its life: one response, and its
-- end at most once.
use quotamiser.Prelude.{
  String, ◌≡◌, refl, sym, ap, subst, ◌∙◌, Option, none, some, List, [], ◌∷◌, ◌++◌, arith, str_eq,
  eq_iff, inl, inr, Bool-cases,
}
use mathlib.Core.List.{append-nil, append_assoc}
use quotamiser.Protocol.Sse
use quotamiser.Protocol.Sse.{Event}
use quotamiser.Protocol.Responses.{
  ResponseSummary, Observation, response_id, terminal, stream_error, ObserveFailure, StreamObserver,
  Seen, is_terminal, note_id, note_terminal, and_note, note_summary, note_lifecycle, adopt_failure,
  summary_eq,
}

abbrev pub ids_of : List Observation → List String
ids_of [] = []
ids_of (response_id id ∷ out) = id ∷ ids_of out
ids_of (terminal summary ∷ out) = ids_of out
ids_of (stream_error code message ∷ out) = ids_of out

abbrev pub terminals_of : List Observation → List ResponseSummary
terminals_of [] = []
terminals_of (response_id id ∷ out) = terminals_of out
terminals_of (terminal summary ∷ out) = summary ∷ terminals_of out
terminals_of (stream_error code message ∷ out) = terminals_of out

abbrev pub listed : {A : Type 0} → Option A → List A
listed none = []
listed (some a) = a ∷ []

-- A terminal summary is one of the response that was named.
abbrev pub IsNamed : Option ResponseSummary → Option String → Type 0
IsNamed none named = Unit {0}
IsNamed (some summary) named = named ≡ some summary.id

-- With what it reported before and now, the observer has reported the response it knows and the end
-- it knows, each once.
pub record Watched (before : List Observation) (o : StreamObserver) (out : List Observation)
    : Type 0 where
  pub ids : ids_of before ++ ids_of out ≡ listed o.response_id
  pub terminals : terminals_of before ++ terminals_of out ≡ listed o.terminal
  pub named : IsNamed o.terminal o.response_id

pub ids_of-append : (a b : List Observation) → ids_of (a ++ b) ≡ ids_of a ++ ids_of b
ids_of-append [] b = refl
ids_of-append (response_id id ∷ a) b = ap (λ ids. id ∷ ids) (ids_of-append a b)
ids_of-append (terminal summary ∷ a) b = ids_of-append a b
ids_of-append (stream_error code message ∷ a) b = ids_of-append a b

pub terminals_of-append :
    (a b : List Observation) → terminals_of (a ++ b) ≡ terminals_of a ++ terminals_of b
terminals_of-append [] b = refl
terminals_of-append (response_id id ∷ a) b = terminals_of-append a b
terminals_of-append (terminal summary ∷ a) b = ap (λ ends. summary ∷ ends) (terminals_of-append a b)
terminals_of-append (stream_error code message ∷ a) b = terminals_of-append a b

pub grown :
    {A : Type 0} (front now last : List A) {all : List A}
    → all ≡ now ++ last
    → front ++ all ≡ (front ++ now) ++ last
grown front now last e = ap (λ xs. front ++ xs) e ∙ sym (append_assoc front now last)

IsNamed-later :
    (ended : Option ResponseSummary) (later : Option String)
    → IsNamed ended none
    → IsNamed ended later
IsNamed-later none later h = tt
IsNamed-later (some summary) later h = cc

note_id-Watched :
    (before : List Observation) (known : Option String) (summary : ResponseSummary)
    (o : StreamObserver) (out : List Observation)
    → o.response_id ≡ known
    → Watched before o out
    → let (seen, failed) = note_id known summary (o, out) in Watched before seen.0 seen.1
note_id-Watched before none summary o out known w = record {
  ids =
      grown (ids_of before) (ids_of out) _ (ids_of-append out _)
      ∙ ap (λ ids. ids ++ summary.id ∷ []) (w.ids ∙ ap listed known);
  terminals =
      grown (terminals_of before) (terminals_of out) _ (terminals_of-append out _)
      ∙ append-nil _
      ∙ w.terminals;
  named = IsNamed-later o.terminal (some summary.id) (subst (IsNamed o.terminal) known w.named);
}
note_id-Watched before (some id) summary o out known w = elim (Bool-cases (str_eq id summary.id)) [
  | inl same ↦ rw same w
  | inr other ↦ rw other w
]

-- Where the id is noted, the observer knows the response.
note_id-known :
    (known : Option String) (summary : ResponseSummary) (o : StreamObserver)
    (out : List Observation)
    → o.response_id ≡ known
    → (note_id known summary (o, out)).1 ≡ none
    → (note_id known summary (o, out)).0.0.response_id ≡ some summary.id
note_id-known none summary o out known h = refl
note_id-known (some id) summary o out known h = ground (arith, eq_iff id summary.id)

note_terminal-Watched :
    (before : List Observation) (ended : Option ResponseSummary) (summary : ResponseSummary)
    (o : StreamObserver) (out : List Observation)
    → o.terminal ≡ ended
    → o.response_id ≡ some summary.id
    → Watched before o out
    → let (seen, failed) = note_terminal ended summary (o, out) in Watched before seen.0 seen.1
note_terminal-Watched before none summary o out ended known w = record {
  ids = grown (ids_of before) (ids_of out) _ (ids_of-append out _) ∙ append-nil _ ∙ w.ids;
  terminals =
      grown (terminals_of before) (terminals_of out) _ (terminals_of-append out _)
      ∙ ap (λ ends. ends ++ summary ∷ []) (w.terminals ∙ ap listed ended);
  named = known;
}
note_terminal-Watched before (some previous) summary o out ended known w =
    elim (Bool-cases (summary_eq previous summary)) [
      | inl same ↦ rw same w
      | inr other ↦ rw other w
    ]

and_note-Watched :
    (before : List Observation) (noted : Seen × Option ObserveFailure) (summary : ResponseSummary)
    → Watched before noted.0.0 noted.0.1
    → (noted.1 ≡ none → noted.0.0.response_id ≡ some summary.id)
    → let (seen, failed) = and_note noted summary in Watched before seen.0 seen.1
and_note-Watched before (seen, some failure) summary w known = w
and_note-Watched before ((o, out), none) summary w known = elim (Bool-cases (is_terminal summary)) [
  | inl ends ↦ rw ends (note_terminal-Watched before o.terminal summary o out refl (known refl) w)
  | inr goes_on ↦ rw goes_on w
]

pub note_lifecycle-Watched :
    (before : List Observation) (read : Option ResponseSummary) (o : StreamObserver)
    (out : List Observation)
    → Watched before o out
    → let (seen, failed) = note_lifecycle read (o, out) in Watched before seen.0 seen.1
unfolding note_summary
note_lifecycle-Watched before none o out w = w
note_lifecycle-Watched before (some summary) o out w =
    and_note-Watched before (note_id o.response_id summary (o, out)) summary
      (note_id-Watched before o.response_id summary o out refl w)
      (note_id-known o.response_id summary o out refl)

pub adopt_failure-Watched :
    (before : List Observation) (found : Option Sse.FramingError) (o : StreamObserver)
    (out : List Observation)
    → Watched before o out
    → Watched before (adopt_failure found o) out
adopt_failure-Watched before none o out w = w
adopt_failure-Watched before (some error) o out w = record {
  ids = w.ids;
  terminals = w.terminals;
  named = w.named;
}
