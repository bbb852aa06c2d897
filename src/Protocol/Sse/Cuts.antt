-- ===== src/Protocol/Sse/Cuts.antt =====
-- That `push` of crates/protocol/src/sse.rs gives the same events and ends in the same state
-- however a stream is cut into packets.
use quotamiser.Prelude.{
  ℕ, ◌≡◌, refl, sym, none, List, [], ◌∷◌, ◌++◌, false, ◌&&◌, length, arith, ap, ◌∙◌,
}
use quotamiser.Protocol.Sse.{
  Bytes, Drained, EventSplitter, push, push_all, settled_as, is_empty, without_lf, Event,
}
use quotamiser.Protocol.Sse.Laws.{push-intact}
use quotamiser.Protocol.Sse.Packets.{resumed, whole, drain-Resumes}

bytes_assoc : (a b c : Bytes) → a ++ (b ++ c) ≡ (a ++ b) ++ c
bytes_assoc [] b c = refl
bytes_assoc (x ∷ a) b c = ap (λ l. x ∷ l) (bytes_assoc a b c)

events_nil : (a : List Event) → a ++ [] ≡ a
events_nil [] = refl
events_nil (x ∷ a) = ap (λ l. x ∷ l) (events_nil a)

without_lf-append :
    (s : EventSplitter) (a : ℕ) (packet later : Bytes)
    → without_lf s (a ∷ packet ++ later) ≡ without_lf s (a ∷ packet) ++ later
without_lf-append s a packet later = ground arith

-- A splitter that has not failed, after a packet.
settled_as-intact :
    (d : Drained)
    → (settled_as d).failure ≡ none
    → (d.undecodable ≡ false)
      × (settled_as d ≡ record {
        buf = d.rest;
        swallow_leading_lf = d.ended_cr && is_empty d.rest;
        failure = none;
      })
settled_as-intact d h = (ground arith, ground arith)

without_lf-resumed :
    (d : Drained) (b : ℕ) (later : Bytes)
    → (settled_as d).failure ≡ none
    → (settled_as d).buf ++ without_lf (settled_as d) (b ∷ later) ≡ d.rest ++ resumed d (b ∷ later)
without_lf-resumed d b later h =
    let (u, is) = settled_as-intact d h in
    ap (λ s. s.buf ++ without_lf s (b ∷ later)) is ∙ ap (λ p. d.rest ++ p) (ground arith)

-- One packet or two, cut anywhere: the events are the same and so is the splitter afterwards, if
-- neither packet is empty and the first has not made the splitter fail.
pub push-cut :
    (a : ℕ) (packet : Bytes) (b : ℕ) (later : Bytes) (s : EventSplitter)
    → s.failure ≡ none
    → (push (a ∷ packet) s).1.failure ≡ none
    → push (a ∷ packet ++ b ∷ later) s ≡ push_all ((a ∷ packet) ∷ (b ∷ later) ∷ []) s
push-cut a packet b later s intact survives =
    let buf = s.buf ++ without_lf s (a ∷ packet) in
    let d = whole false buf in
    let p1 : push (a ∷ packet) s ≡ (d.events, settled_as d) = push-intact (a ∷ packet) s intact in
    let alive : (settled_as d).failure ≡ none = ap (λ r. r.1.failure) (sym p1) ∙ survives in
    let (text, is) = settled_as-intact d alive in
    let e = whole false (d.rest ++ resumed d (b ∷ later)) in
    let p2 : push (b ∷ later) (settled_as d) ≡ (e.events, settled_as e) =
      push-intact (b ∷ later) (settled_as d) alive
      ∙ ap (λ x. ((whole false x).events, settled_as (whole false x)))
          (without_lf-resumed d b later alive) in
    let w = whole false (buf ++ b ∷ later) in
    let p : push (a ∷ packet ++ b ∷ later) s ≡ (w.events, settled_as w) =
      push-intact (a ∷ packet ++ b ∷ later) s intact
      ∙ ap (λ x. ((whole false x).events, settled_as (whole false x)))
          (ap (λ x. s.buf ++ x) (without_lf-append s a packet (b ∷ later))
            ∙ bytes_assoc s.buf (without_lf s (a ∷ packet)) (b ∷ later)) in
    let (events_same, settled_same) =
      drain-Resumes (length buf) false buf b later (ground arith) refl text in
    let both : push_all ((a ∷ packet) ∷ (b ∷ later) ∷ []) s
        ≡ (d.events ++ (e.events ++ []), settled_as e) =
      ap (λ r. (r.0 ++ ((push (b ∷ later) r.1).0 ++ []), (push (b ∷ later) r.1).1)) p1
      ∙ ap (λ r. (d.events ++ (r.0 ++ []), r.1)) p2 in
    p
    ∙ ap (λ x. (x, settled_as w))
        (events_same ∙ ap (λ x. d.events ++ x) (sym (events_nil e.events)))
    ∙ ap (λ x. (d.events ++ (e.events ++ []), x)) settled_same
    ∙ sym both
