-- ===== src/Protocol/Sse/Laws.antt =====
-- What the splitter of crates/protocol/src/sse.rs promises over a sequence of packets.
use quotamiser.Prelude.{
  ℕ, zero, suc, ◌+◌, ◌≤◌, ◌<◌, ◌≡◌, inl, inr, refl, sym, subst, Option, none, some, List, [], ◌∷◌,
  ◌++◌, Bool, true, false, length, arith, Option-cases, Bool-cases,
}
use quotamiser.Protocol.Sse.{
  Bytes, find_from, find_event_end, drain, Drained, take, drop, ends_cr, valid_utf8, EventSplitter,
  FramingError, push, push_all, settled_as, without_lf, max_event_bytes,
}

abbrev reach : ℕ → Option ℕ → ℕ
reach otherwise none = otherwise
reach otherwise (some n) = n

find_from-reach :
    (prev : Bool) (buf : Bytes)
    → (reach 0 (find_from prev buf) ≤ length buf) × (1 ≤ reach 1 (find_from prev buf))
unfolding find_from
find_from-reach prev [] = (ground arith, ground arith)
find_from-reach prev (b ∷ []) = (ground arith, ground arith)
find_from-reach prev (b ∷ c ∷ buf) =
    let (a1, a2) = find_from-reach true buf in
    let (b1, b2) = find_from-reach true (c ∷ buf) in
    let (c1, c2) = find_from-reach false (c ∷ buf) in (ground arith, ground arith)

-- A complete event is not empty, and lies within the buffer.
pub find_from-bounds :
    (prev : Bool) (buf : Bytes) {n : ℕ} → find_from prev buf ≡ some n → (0 < n) × (n ≤ length buf)
find_from-bounds prev buf h = let (a, b) = find_from-reach prev buf in (ground arith, ground arith)

pub length-drop : (n : ℕ) (buf : Bytes) → n ≤ length buf → length (drop n buf) + n ≡ length buf
length-drop zero buf h = ground arith
length-drop (suc n) [] h = ground arith
length-drop (suc n) (b ∷ buf) h = ground (arith, length-drop n buf)

pub find_empty : find_event_end [] ≡ none
unfolding find_from
find_empty = refl

-- The loop ends by itself: with the length of the buffer as fuel, what is left holds no event.
drain-done :
    (fuel : ℕ) (last : Bool) (buf : Bytes)
    → length buf ≤ fuel
    → (drain fuel last buf).undecodable ≡ false
    → find_event_end (drain fuel last buf).rest ≡ none
unfolding drain
drain-done zero last [] enough h = find_empty
drain-done zero last (b ∷ buf) enough h = ground arith
drain-done (suc fuel) last buf enough h = elim (Option-cases (find_event_end buf)) [
  | inl partial ↦ ground arith
  | inr (end, found) ↦
      let (some_bytes, within) = find_from-bounds false buf found in
      elim (Bool-cases (valid_utf8 [] (take end buf))) [
        | inr broken ↦ ground arith
        | inl text ↦
            ground
              (arith, drain-done fuel (ends_cr (take end buf)) (drop end buf), length-drop end buf)
      ]
]

-- A splitter between two packets: it has failed and dropped its buffer, or the buffer is within
-- the cap and holds no complete event.
pub record IsSettled (s : EventSplitter) : Type 0 where
  pub partial : find_event_end s.buf ≡ none
  pub capped : length s.buf ≤ max_event_bytes
  pub swallows : s.swallow_leading_lf ≡ true → s.buf ≡ []

settled_as-IsSettled :
    (d : Drained)
    → (d.undecodable ≡ false → find_event_end d.rest ≡ none)
    → IsSettled (settled_as d)
settled_as-IsSettled d done = record {
  partial = elim (Bool-cases d.undecodable) [
    | inl bad ↦ ground (arith, find_empty)
    | inr good ↦ ground (arith, find_empty, done good)
  ];
  capped = ground arith;
  swallows = λ h. ground arith;
}

push-failed :
    (packet : Bytes) (s : EventSplitter) {error : FramingError}
    → s.failure ≡ some error
    → push packet s ≡ ([], s)
unfolding push
push-failed packet s h = ground arith

pub push-intact :
    (packet : Bytes) (s : EventSplitter)
    → s.failure ≡ none
    → let buf = s.buf ++ without_lf s packet in
      push packet s
      ≡ ((drain (length buf) false buf).events, settled_as (drain (length buf) false buf))
unfolding push
push-intact packet s h = rw h refl

push-IsSettled : (packet : Bytes) (s : EventSplitter) → IsSettled s → IsSettled (push packet s).1
push-IsSettled packet s i = elim (Option-cases s.failure) [
  | inr (error, failed) ↦ subst (λ r. IsSettled r.1) (sym (push-failed packet s failed)) i
  | inl intact ↦
      let buf = s.buf ++ without_lf s packet in
      subst (λ r. IsSettled r.1) (sym (push-intact packet s intact))
        (settled_as-IsSettled (drain (length buf) false buf)
          (drain-done (length buf) false buf (ground arith)))
]

-- Between two packets, whatever bytes they hold, the splitter's buffer is within the cap of an
-- event and holds no complete event: each call of `push` gives every event that it completes.
pub push_all-IsSettled :
    (packets : List Bytes) (s : EventSplitter) → IsSettled s → IsSettled (push_all packets s).1
push_all-IsSettled [] s i = i
push_all-IsSettled (packet ∷ packets) s i =
    push_all-IsSettled packets (push packet s).1 (push-IsSettled packet s i)
