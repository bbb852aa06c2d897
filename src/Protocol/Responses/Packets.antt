-- ===== src/Protocol/Responses/Packets.antt =====
-- An observer of crates/protocol/src/responses.rs over the packets of its life.
use quotamiser.Prelude.{
  String, ◌≡◌, refl, ◌∙◌, Option, none, some, List, [], ◌∷◌, ◌++◌, not, str_eq, inl, inr,
  Bool-cases,
}
use mathlib.Core.List.{append-nil, append_assoc}
use quotamiser.Protocol.Sse
use quotamiser.Protocol.Sse.{Event}
use quotamiser.Protocol.Responses.{
  Observation, stream_error, ObserveFailure, StreamObserver, new_observer, Reader, Seen, name_of,
  is_lifecycle, unless_failed, unless_stopped, observe, observe_all, push, push_all,
}
use quotamiser.Protocol.Responses.Observed.{
  IsNamed, Watched, adopt_failure-Watched, grown, ids_of, ids_of-append, listed,
  note_lifecycle-Watched, terminals_of, terminals_of-append,
}

stream_error-Watched :
    (before : List Observation) (code message : Option String) (o : StreamObserver)
    (out : List Observation)
    → Watched before o out
    → Watched before o (out ++ stream_error code message ∷ [])
stream_error-Watched before code message o out w = record {
  ids = grown (ids_of before) (ids_of out) _ (ids_of-append out _) ∙ append-nil _ ∙ w.ids;
  terminals =
      grown (terminals_of before) (terminals_of out) _ (terminals_of-append out _)
      ∙ append-nil _
      ∙ w.terminals;
  named = w.named;
}

unless_failed-Watched :
    (before : List Observation) (failed : Option ObserveFailure) (o : StreamObserver)
    (out : List Observation) (later : Seen)
    → Watched before o out
    → Watched before later.0 later.1
    → Watched before (unless_failed failed (o, out) later).0 (unless_failed failed (o, out) later).1
unless_failed-Watched before none o out later w w' = w'
unless_failed-Watched before (some failure) o out later w w' = record {
  ids = w.ids;
  terminals = w.terminals;
  named = w.named;
}

ids_regroup :
    (before a b : List Observation)
    → ids_of before ++ ids_of (a ++ b) ≡ ids_of (before ++ a) ++ ids_of b
ids_regroup before a b = simp (ids_of-append, append_assoc)

terminals_regroup :
    (before a b : List Observation)
    → terminals_of before ++ terminals_of (a ++ b) ≡ terminals_of (before ++ a) ++ terminals_of b
terminals_regroup before a b = simp (terminals_of-append, append_assoc)

-- What was reported just now is reported before, for the packets that follow.
regroup :
    (before a b : List Observation) (o : StreamObserver)
    → Watched (before ++ a) o b
    → Watched before o (a ++ b)
regroup before a b o w = record {
  ids = ids_regroup before a b ∙ w.ids;
  terminals = terminals_regroup before a b ∙ w.terminals;
  named = w.named;
}

ungroup :
    (before a : List Observation) (o : StreamObserver)
    → Watched before o a
    → Watched (before ++ a) o []
ungroup before a o w = record {
  ids = append-nil _ ∙ ids_of-append before a ∙ w.ids;
  terminals = append-nil _ ∙ terminals_of-append before a ∙ w.terminals;
  named = w.named;
}

unless_stopped-Watched :
    (before : List Observation) (failed : Option ObserveFailure) (o : StreamObserver) (fed : Seen)
    → Watched before o []
    → Watched before fed.0 fed.1
    → Watched before (unless_stopped failed o fed).0 (unless_stopped failed o fed).1
unless_stopped-Watched before none o fed w w' = w'
unless_stopped-Watched before (some failure) o fed w w' = w

module _ (reader : Reader) where
  observe-Watched :
      (before : List Observation) (event : Event) (o : StreamObserver) (out : List Observation)
      → Watched before o out
      → let (seen, failed) = observe reader event (o, out) in Watched before seen.0 seen.1
  unfolding observe
  observe-Watched before event o out w = elim (Bool-cases (str_eq (name_of reader event) "error")) [
    | inl error ↦ rw error (stream_error-Watched before _ _ o out w)
    | inr no_error ↦ elim (Bool-cases (not (is_lifecycle (name_of reader event)))) [
      | inl ignored ↦ rw (no_error, ignored) w
      | inr read ↦ rw (no_error, read) (note_lifecycle-Watched before _ o out w)
    ]
  ]

  observe_all-Watched :
      (before : List Observation) (events : List Event) (o : StreamObserver)
      (out : List Observation)
      → Watched before o out
      → let (o', out') = observe_all reader events (o, out) in Watched before o' out'
  unfolding observe_all
  observe_all-Watched before [] o out w = adopt_failure-Watched before o.splitter.failure o out w
  observe_all-Watched before (event ∷ events) o out w =
      let noted = observe-Watched before event o out w in
      let (o', out') = (observe reader event (o, out)).0 in
      unless_failed-Watched before (observe reader event (o, out)).1 o' out' _ noted
        (observe_all-Watched before events o' out' noted)

  -- Packet after packet: what was reported before stands, and the packet's reports are added.
  push-Watched :
      (packet : Sse.Bytes) (o : StreamObserver) (before : List Observation)
      → Watched before o []
      → let (o', out) = push reader packet o in Watched before o' out
  unfolding push
  push-Watched packet o before w =
      let (events, splitter) = Sse.push packet o.splitter in
      unless_stopped-Watched before o.failure o _ w (
        observe_all-Watched before events (record o { splitter = splitter }) []
          (record { ids = w.ids; terminals = w.terminals; named = w.named }))

  push_all-Watched :
      (packets : List Sse.Bytes) (o : StreamObserver) (before : List Observation)
      → Watched before o []
      → let (o', out) = push_all reader packets o in Watched before o' out
  push_all-Watched [] o before w = w
  push_all-Watched (packet ∷ packets) o before w =
      let (o', out) = push reader packet o in
      let first = push-Watched packet o before w in
      regroup before out (push_all reader packets o').1 (push_all reader packets o').0
        (push_all-Watched packets o' (before ++ out) (ungroup before out o' first))

  -- Whatever packets come, an observer reports one response id at most and one final summary at
  -- most, which are those it holds, and the summary is of the response with that id.
  pub push_all-reports :
      (packets : List Sse.Bytes)
      → let (o, out) = push_all reader packets new_observer in
        (ids_of out ≡ listed o.response_id)
        × (terminals_of out ≡ listed o.terminal)
        × IsNamed o.terminal o.response_id
  push_all-reports packets =
      let w =
        push_all-Watched packets new_observer []
          (record { ids = refl; terminals = refl; named = tt }) in
      (w.ids, w.terminals, w.named)
