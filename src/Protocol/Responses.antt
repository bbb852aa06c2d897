-- ===== src/Protocol/Responses.antt =====
-- crates/protocol/src/responses.rs: what a stream of the Responses API reveals. The JSON parser is
-- a parameter, as in the rest of crates/protocol; the events are those of crates/protocol/src/sse.rs,
-- whose texts are bytes, as a Rust string is.
pub mod Observed
pub mod Packets
mod Tests
use quotamiser.Prelude.{
  ℕ, String, Option, none, some, List, [], ◌∷◌, ◌++◌, Bool, true, false, not, ◌&&◌, ◌||◌, str_eq,
  any, if◌then◌else◌, and_then, unwrap_or, Result, ok, err, ◌>>=◌,
}
use quotamiser.Prelude.Int.{ℤ, eqb_ℤ}
use quotamiser.Protocol.Json.{Value, value_get, as_str, as_i64, text_at}
use quotamiser.Protocol.Sse.{Event, EventSplitter, FramingError, new_splitter}
use quotamiser.Protocol.Sse

pub record Usage : Type 0 where
  pub input_tokens : ℤ
  pub output_tokens : ℤ

pub record ResponseSummary : Type 0 where
  pub id : String
  pub status : String
  pub model : Option String
  pub service_tier : Option String
  pub usage : Option Usage

abbrev pub usage_of : Value → Option Usage
usage_of value = and_then (and_then (value_get value "input_tokens") as_i64) λ input.
    and_then (and_then (value_get value "output_tokens") as_i64)
      λ output. some (record { input_tokens = input; output_tokens = output })

unfoldable pub from_object : Value → Option ResponseSummary
from_object value = and_then (text_at value "id") λ id. and_then (text_at value "status") λ status.
    some (record {
      id = id;
      status = status;
      model = text_at value "model";
      service_tier = text_at value "service_tier";
      usage = and_then (value_get value "usage") usage_of;
    })

unfoldable pub is_terminal : ResponseSummary → Bool
is_terminal s =
    any (λ status. str_eq s.status status)
      ("completed" ∷ "incomplete" ∷ "failed" ∷ "cancelled" ∷ [])

pub data Observation : Type 0 where
  response_id : String → Observation
  terminal : ResponseSummary → Observation
  stream_error : Option String → Option String → Observation

pub data ObserveFailure : Type 0 where
  framing : FramingError → ObserveFailure
  malformed_lifecycle_event conflicting_response_ids conflicting_terminals : ObserveFailure

abbrev pub lifecycle_events : List String
lifecycle_events =
    "response.created" ∷ "response.queued" ∷ "response.in_progress" ∷ "response.completed"
    ∷ "response.incomplete" ∷ "response.failed" ∷ "response.cancelled" ∷ []

abbrev pub is_lifecycle : String → Bool
is_lifecycle name = any (λ known. str_eq known name) lifecycle_events

pub record StreamObserver : Type 0 where
  pub splitter : EventSplitter
  pub response_id : Option String
  pub terminal : Option ResponseSummary
  pub failure : Option ObserveFailure

abbrev pub new_observer : StreamObserver
new_observer = record {
  splitter = new_splitter;
  response_id = none;
  terminal = none;
  failure = none;
}

-- The derived equality of summaries.
abbrev pub option_eq : {A : Type 0} → (A → A → Bool) → Option A → Option A → Bool
option_eq eq none none = true
option_eq eq (some a) (some b) = eq a b
option_eq eq _ _ = false

abbrev pub usage_eq : Usage → Usage → Bool
usage_eq a b = eqb_ℤ a.input_tokens b.input_tokens && eqb_ℤ a.output_tokens b.output_tokens

abbrev pub summary_eq : ResponseSummary → ResponseSummary → Bool
summary_eq a b =
    str_eq a.id b.id
    && str_eq a.status b.status
    && option_eq str_eq a.model b.model
    && option_eq str_eq a.service_tier b.service_tier
    && option_eq usage_eq a.usage b.usage

-- What the texts of the events are read with: the text of some bytes, and `serde_json::from_str`.
pub record Reader : Type 0 where
  pub text : Sse.Bytes → String
  pub from_str : String → Option Value

-- What is observed so far: the observer, and the observations in order.
abbrev pub Seen : Type 0
Seen = StreamObserver × List Observation

-- The type that a lifecycle event's data may name.
abbrev pub disagrees : Option String → String → Bool
disagrees none name = false
disagrees (some type) name = not (str_eq type name)

abbrev pub summary_of : Value → String → Option ResponseSummary
summary_of value name =
    if disagrees (text_at value "type") name
    then none
    else and_then (value_get value "response") from_object

-- The match on the response id: what is seen, and whether the observer fails.
abbrev pub note_id : Option String → ResponseSummary → Seen → Seen × Option ObserveFailure
note_id none summary (o, out) =
    ((record o { response_id = some summary.id }, out ++ response_id summary.id ∷ []), none)
note_id (some id) summary seen =
    if str_eq id summary.id then (seen, none) else (seen, some conflicting_response_ids)

-- The match on the terminal summary.
abbrev pub note_terminal :
    Option ResponseSummary → ResponseSummary → Seen → Seen × Option ObserveFailure
note_terminal none summary (o, out) =
    ((record o { terminal = some summary }, out ++ terminal summary ∷ []), none)
note_terminal (some previous) summary seen =
    if summary_eq previous summary then (seen, none) else (seen, some conflicting_terminals)

abbrev pub note_if_terminal : ResponseSummary → Seen → Seen × Option ObserveFailure
note_if_terminal summary seen =
    if is_terminal summary then note_terminal seen.0.terminal summary seen else (seen, none)

abbrev pub and_note : Seen × Option ObserveFailure → ResponseSummary → Seen × Option ObserveFailure
and_note (seen, some failure) summary = (seen, some failure)
and_note (seen, none) summary = note_if_terminal summary seen

unfoldable pub note_summary : ResponseSummary → Seen → Seen × Option ObserveFailure
note_summary summary seen = and_note (note_id seen.0.response_id summary seen) summary

abbrev pub note_lifecycle : Option ResponseSummary → Seen → Seen × Option ObserveFailure
note_lifecycle none seen = (seen, some malformed_lifecycle_event)
note_lifecycle (some summary) seen = note_summary summary seen

-- A failure is the observer's, and the events that follow are not looked at.
abbrev pub unless_failed : Option ObserveFailure → Seen → Seen → Seen
unless_failed none seen later = later
unless_failed (some failure) (o, out) later = (record o { failure = some failure }, out)

-- An observer that has failed takes nothing in.
abbrev pub unless_stopped : Option ObserveFailure → StreamObserver → Seen → Seen
unless_stopped none o fed = fed
unless_stopped (some failure) o fed = (o, [])

-- The end of `push`: the splitter's own failure is the observer's.
abbrev pub adopt_failure : Option FramingError → StreamObserver → StreamObserver
adopt_failure none o = o
adopt_failure (some error) o = record o { failure = some (framing error) }

module _ (reader : Reader) where
  abbrev pub name_of : Event → String
  name_of event = elim event.event [
    | some name ↦ reader.text name
    | none ↦
        unwrap_or
          (and_then (reader.from_str (reader.text event.payload)) λ value. text_at value "type") ""
  ]

  abbrev pub stream_error_of : Event → Observation
  stream_error_of event =
      let value = unwrap_or (reader.from_str (reader.text event.payload)) Value.null in
      stream_error (text_at value "code") (text_at value "message")

  unfoldable pub observe : Event → Seen → Seen × Option ObserveFailure
  observe event (o, out) =
      let name = name_of event in
      if str_eq name "error"
      then ((o, out ++ stream_error_of event ∷ []), none)
      else if not (is_lifecycle name)
      then ((o, out), none)
      else note_lifecycle
          (and_then (reader.from_str (reader.text event.payload)) λ value. summary_of value name)
          (o, out)

  unfoldable pub observe_all : List Event → Seen → Seen
  observe_all [] (o, out) = (adopt_failure o.splitter.failure o, out)
  observe_all (event ∷ events) seen =
      let (seen', failed) = observe event seen in
      unless_failed failed seen' (observe_all events seen')

  unfoldable pub push : Sse.Bytes → StreamObserver → Seen
  push bytes o =
      let (events, splitter) = Sse.push bytes o.splitter in
      unless_stopped o.failure o (observe_all events (record o { splitter = splitter }, []))

  -- The observations of a sequence of packets, in order.
  abbrev pub push_all : List Sse.Bytes → StreamObserver → Seen
  push_all [] o = (o, [])
  push_all (packet ∷ packets) o =
      let (o', out) = push packet o in let (o'', later) = push_all packets o' in (o'', out ++ later)
