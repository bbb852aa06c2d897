-- ===== src/Protocol/Tests.antt =====
-- The splitter of crates/protocol/src/sse.rs at concrete packets.
use quotamiser.Prelude.{◌≡◌, refl, true, none, [], ◌∷◌, ◌++◌, arith}
use quotamiser.Protocol.Sse.{
  Bytes, new_splitter, push, push_all, drain, find_from, valid_utf8, parse_event,
}
use quotamiser.Protocol.Sse.Laws.{IsSettled, push_all-IsSettled}
use quotamiser.Protocol.Sse.Cuts.{push-cut}

-- "data:a" and a blank line of two CRLF, cut before the last LF; then another event.
abbrev first_packet : Bytes
first_packet = 100 ∷ 97 ∷ 116 ∷ 97 ∷ 58 ∷ 97 ∷ 13 ∷ 10 ∷ 13 ∷ []

abbrev second_packet : Bytes
second_packet = 10 ∷ 100 ∷ 97 ∷ 116 ∷ 97 ∷ 58 ∷ 98 ∷ 10 ∷ 10 ∷ []

-- The event of the first packet, and the LF of the second that is swallowed.
first_event : push first_packet new_splitter ≡ (
  record { event = none; payload = 97 ∷ [] } ∷ [],
  record { buf = []; swallow_leading_lf = true; failure = none },
)
unfolding push drain find_from valid_utf8 parse_event
first_event = refl

survives : (push first_packet new_splitter).1.failure ≡ none
unfolding push drain find_from valid_utf8 parse_event
survives = refl

push-cut_example :
    push (first_packet ++ second_packet) new_splitter
    ≡ push_all (first_packet ∷ second_packet ∷ []) new_splitter
push-cut_example =
    push-cut 100 (97 ∷ 116 ∷ 97 ∷ 58 ∷ 97 ∷ 13 ∷ 10 ∷ 13 ∷ []) 10
      (100 ∷ 97 ∷ 116 ∷ 97 ∷ 58 ∷ 98 ∷ 10 ∷ 10 ∷ []) new_splitter refl survives

new_splitter-IsSettled : IsSettled new_splitter
unfolding find_from
new_splitter-IsSettled = record { partial = refl; capped = omega arith; swallows = λ h. refl }

push_all-IsSettled_example : IsSettled (push_all (first_packet ∷ second_packet ∷ []) new_splitter).1
push_all-IsSettled_example =
    push_all-IsSettled (first_packet ∷ second_packet ∷ []) new_splitter new_splitter-IsSettled
