-- ===== src/Protocol/Responses/Tests.antt =====
-- An observer of crates/protocol/src/responses.rs on a concrete stream.
use quotamiser.Prelude.{◌≡◌, some, List, [], ◌∷◌}
use quotamiser.Protocol.Json.{Value, end, field}
use quotamiser.Protocol.Responses.{Reader, new_observer, push_all}
use quotamiser.Protocol.Responses.Observed.{ids_of, terminals_of, listed, IsNamed}
use quotamiser.Protocol.Responses.Packets.{push_all-reports}
use quotamiser.Protocol.Sse.{Bytes}

-- A parser that reads a completed response from every text.
abbrev reader : Reader
reader = record {
  text = λ bytes. "response.completed";
  from_str = λ text. some (
      Value.object (
        field "response"
          (Value.object
            (field "id" (Value.string "resp_1") (field "status" (Value.string "completed") end)))
          end));
}

-- The event `x`, whose data are `y`, twice.
abbrev twice : List Bytes
twice =
    (101 ∷ 118 ∷ 101 ∷ 110 ∷ 116 ∷ 58 ∷ 120 ∷ 10 ∷ 100 ∷ 97 ∷ 116 ∷ 97 ∷ 58 ∷ 121 ∷ 10 ∷ 10 ∷ [])
    ∷ (101 ∷ 118 ∷ 101 ∷ 110 ∷ 116 ∷ 58 ∷ 120 ∷ 10 ∷ 100 ∷ 97 ∷ 116 ∷ 97 ∷ 58 ∷ 121 ∷ 10 ∷ 10 ∷ [])
    ∷ []

push_all-reports_example :
    (ids_of (push_all reader twice new_observer).1
      ≡ listed (push_all reader twice new_observer).0.response_id)
    × (terminals_of (push_all reader twice new_observer).1
        ≡ listed (push_all reader twice new_observer).0.terminal)
    × IsNamed
        (push_all reader twice new_observer).0.terminal
        (push_all reader twice new_observer).0.response_id
push_all-reports_example = push_all-reports reader twice
