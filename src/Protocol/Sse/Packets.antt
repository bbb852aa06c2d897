-- ===== src/Protocol/Sse/Packets.antt =====
-- That `push` in crates/protocol/src/sse.rs gives the same events however a stream is cut into
-- packets.
use quotamiser.Prelude.{
  ℕ, zero, suc, ◌≤◌, ◌≡◌, inl, inr, refl, sym, subst, none, some, List, [], ◌∷◌, ◌++◌, Bool, true,
  false, ◌&&◌, ◌==◌, if◌then◌else◌, length, arith, Option-cases, Bool-cases, ap, ◌∙◌,
}
use quotamiser.Protocol.Sse.{
  Bytes, find_event_end, drain, Drained, take, drop, ends_cr, with_events, valid_utf8, parse_event,
  settled_as, is_empty, Event,
}
use quotamiser.Protocol.Sse.Laws.{find_from-bounds, find_empty, length-drop}
use quotamiser.Protocol.Sse.Split.{find_from-append, parse_event-lf, valid_utf8-lf}
use quotamiser.Protocol.Sse.Resume.{
  take-append, drop-append, take-all, drop-all, take-next, drop-next, ends_cr-next, idle,
  drain-none, drain-some, drain-broken, drain-fuel,
}

-- The same events, and the same splitter at the end of `push`.
abbrev pub Agrees : Drained → List Event → Drained → Type 0
Agrees w before e = (w.events ≡ before ++ e.events) × (settled_as w ≡ settled_as e)

-- The next packet, as `push` reads it after the loop has stopped.
abbrev pub resumed : Drained → Bytes → Bytes
resumed d [] = []
resumed d (b ∷ later) = if d.ended_cr && is_empty d.rest && b == 10 then later else b ∷ later

abbrev pub whole : Bool → Bytes → Drained
whole last buf = drain (length buf) last buf

idle-settled :
    (last : Bool) (b : ℕ) (buf : Bytes)
    → settled_as (idle last (b ∷ buf)) ≡ settled_as (idle false (b ∷ buf))
idle-settled true b buf = refl
idle-settled false b buf = refl

-- With bytes in the buffer, the flag from before does not matter.
whole-last :
    (last : Bool) (b : ℕ) (buf : Bytes) → Agrees (whole last (b ∷ buf)) [] (whole false (b ∷ buf))
whole-last last b buf = elim (Option-cases (find_event_end (b ∷ buf))) [
  | inl partial ↦
      let w = drain-none (suc (length buf)) last (b ∷ buf) partial in
      let e = drain-none (suc (length buf)) false (b ∷ buf) partial in
      (
        ap (λ d. d.events) w ∙ ap (λ d. d.events) (sym e),
        ap settled_as w ∙ idle-settled last b buf ∙ ap settled_as (sym e),
      )
  | inr (end, found) ↦ elim (Bool-cases (valid_utf8 [] (take end (b ∷ buf)))) [
    | inl text ↦
        let same =
          drain-some (length buf) last (b ∷ buf) found text
          ∙ sym (drain-some (length buf) false (b ∷ buf) found text) in
        (ap (λ d. d.events) same, ap settled_as same)
    | inr broken ↦
        let same =
          drain-broken (length buf) last (b ∷ buf) found broken
          ∙ sym (drain-broken (length buf) false (b ∷ buf) found broken) in
        (ap (λ d. d.events) same, ap settled_as same)
  ]
]

any-last :
    (last : Bool) (buf : Bytes) (b : ℕ) (later : Bytes)
    → Agrees (whole last (buf ++ b ∷ later)) [] (whole false (buf ++ b ∷ later))
any-last last [] b later = whole-last last b later
any-last last (c ∷ buf) b later = whole-last last c (buf ++ b ∷ later)

assoc : (a b c : List Event) → a ++ (b ++ c) ≡ (a ++ b) ++ c
assoc [] b c = refl
assoc (x ∷ a) b c = ap (λ l. x ∷ l) (assoc a b c)

-- One event of the loop, before the rest.
Agrees-with :
    (events before : List Event) (w e : Drained)
    → Agrees w before e
    → Agrees (with_events events w) (events ++ before) e
Agrees-with events before w e (a, b) = (ap (λ x. events ++ x) a ∙ assoc events before e.events, b)

resumed-same :
    (d : Drained) (b : ℕ) (later : Bytes)
    → (d.ended_cr && is_empty d.rest && b == 10) ≡ false
    → resumed d (b ∷ later) ≡ b ∷ later
resumed-same d b later h = ground arith

-- Where the buffer holds no event, the loop has done nothing.
stops :
    (fuel : ℕ) (last : Bool) (buf : Bytes) (b : ℕ) (later : Bytes)
    → (last && is_empty buf && b == 10) ≡ false
    → find_event_end buf ≡ none
    → let d = drain fuel last buf in
      Agrees
        (whole last (buf ++ b ∷ later))
        d.events
        (whole false (d.rest ++ resumed d (b ∷ later)))
stops fuel last buf b later apart partial =
    let d = drain-none fuel last buf partial in
    subst
      (λ d.
        Agrees (whole last (buf ++ b ∷ later)) d.events
          (whole false (d.rest ++ resumed d (b ∷ later))))
      (sym d)
      (subst (λ x. Agrees (whole last (buf ++ b ∷ later)) [] (whole false (buf ++ x)))
        (sym (resumed-same (idle last buf) b later apart)) (any-last last buf b later))

-- One round of the loop, on the whole of a buffer.
whole-some :
    (last : Bool) (buf : Bytes) {end : ℕ} (raw rest : Bytes)
    → find_event_end buf ≡ some end
    → take end buf ≡ raw
    → drop end buf ≡ rest
    → valid_utf8 [] raw ≡ true
    → whole last buf ≡ with_events (parse_event raw) (whole (ends_cr raw) rest)
whole-some last [] raw rest found t r v =
    let (a, c) = find_from-bounds false [] found in ground arith
whole-some last (x ∷ buf) {end} raw rest found t r v =
    let (a, c) = find_from-bounds false (x ∷ buf) found in
    let l = length-drop end (x ∷ buf) c in
    drain-some (length buf) last (x ∷ buf) found (subst (λ y. valid_utf8 [] y ≡ true) (sym t) v)
    ∙ ap (λ y. with_events (parse_event y) (drain (length buf) (ends_cr y) (drop end (x ∷ buf)))) t
    ∙ ap (λ y. with_events (parse_event raw) (drain (length buf) (ends_cr raw) y)) r
    ∙ ap (with_events (parse_event raw)) (
        drain-fuel (length buf) (length rest) (ends_cr raw) rest (ground (arith, ap length r))
          (ground arith))

-- The event ends before the cut, or with it and needs no LF.
uncut :
    (last : Bool) (buf : Bytes) (b : ℕ) (later : Bytes) {end : ℕ}
    → find_event_end buf ≡ some end
    → valid_utf8 [] (take end buf) ≡ true
    → (end == length buf && ends_cr buf && b == 10) ≡ false
    → whole last (buf ++ b ∷ later)
      ≡ with_events
          (parse_event (take end buf))
          (whole (ends_cr (take end buf)) (drop end buf ++ b ∷ later))
uncut last buf b later {end} found v apart =
    let (a, c) = find_from-bounds false buf found in
    let longer = find_from-append false buf (b ∷ later) (ground arith) in
    whole-some last (buf ++ b ∷ later) {end = end} (take end buf) (drop end buf ++ b ∷ later)
      (ground arith) (take-append end buf (b ∷ later) c) (drop-append end buf (b ∷ later) c) v

-- The cut is inside the CRLF that ends the event.
cut :
    (last : Bool) (buf : Bytes) (later : Bytes)
    → find_event_end buf ≡ some (length buf)
    → valid_utf8 [] buf ≡ true
    → ends_cr buf ≡ true
    → whole last (buf ++ 10 ∷ later) ≡ with_events (parse_event buf) (whole false later)
cut last buf later found v c =
    let longer = find_from-append false buf (10 ∷ later) (ground arith) in
    whole-some last (buf ++ 10 ∷ later) {end = suc (length buf)} (buf ++ 10 ∷ []) later
      (ground arith) (take-next buf later 10) (drop-next buf later 10)
      (valid_utf8-lf [] buf refl ∙ v)
    ∙ ap (λ e. with_events e (whole (ends_cr (buf ++ 10 ∷ [])) later)) (parse_event-lf buf)
    ∙ ap (λ e. with_events (parse_event buf) (whole e later)) (ends_cr-next buf)

abbrev pub Resumes : Bool → Bytes → ℕ → Bytes → Drained → Type 0
Resumes last buf b later d =
    Agrees (whole last (buf ++ b ∷ later)) d.events (whole false (d.rest ++ resumed d (b ∷ later)))

-- The loop has taken the event, and the packet after it brings the LF.
cut-Resumes :
    (fuel : ℕ) (last : Bool) (buf : Bytes) (later : Bytes)
    → find_event_end buf ≡ some (length buf)
    → valid_utf8 [] buf ≡ true
    → ends_cr buf ≡ true
    → Resumes last buf 10 later (drain (suc fuel) last buf)
cut-Resumes fuel last buf later found v c =
    let first =
      drain-some fuel last buf found (subst (λ y. valid_utf8 [] y ≡ true) (sym (take-all buf)) v) in
    let done : drain (suc fuel) last buf ≡ with_events (parse_event buf) (idle true []) =
      first
      ∙ ap (λ y. with_events (parse_event y) (drain fuel (ends_cr y) (drop (length buf) buf)))
          (take-all buf)
      ∙ ap (λ y. with_events (parse_event buf) (drain fuel y (drop (length buf) buf))) c
      ∙ ap (λ y. with_events (parse_event buf) (drain fuel true y)) (drop-all buf)
      ∙ ap (with_events (parse_event buf)) (drain-none fuel true [] find_empty) in
    let all_of = cut last buf later found v c in
    subst (Resumes last buf 10 later) (sym done) (
      ap (λ w. w.events) all_of ∙ assoc (parse_event buf) [] (whole false later).events,
      ap settled_as all_of,
    )

apart_after :
    (end : ℕ) (buf : Bytes) (b : ℕ)
    → end ≤ length buf
    → (end == length buf && ends_cr buf && b == 10) ≡ false
    → (ends_cr (take end buf) && is_empty (drop end buf) && b == 10) ≡ false
apart_after end buf b within clear =
    let l = length-drop end buf within in
    elim (Bool-cases (is_empty (drop end buf))) [
      | inr more ↦ ground arith
      | inl over ↦
          let e : end ≡ length buf = ground arith in
          let same : ends_cr (take end buf) ≡ ends_cr buf =
            ap (λ n. ends_cr (take n buf)) e ∙ ap ends_cr (take-all buf) in
          ground arith
    ]

-- The loop stops at the end of a buffer, and goes on with the bytes that follow.
pub drain-Resumes :
    (fuel : ℕ) (last : Bool) (buf : Bytes) (b : ℕ) (later : Bytes)
    → length buf ≤ fuel
    → (last && is_empty buf && b == 10) ≡ false
    → (drain fuel last buf).undecodable ≡ false
    → Resumes last buf b later (drain fuel last buf)
drain-Resumes zero last [] b later enough apart text = stops zero last [] b later apart find_empty
drain-Resumes zero last (c ∷ buf) b later enough apart text = ground arith
drain-Resumes (suc fuel) last buf b later enough apart text =
    elim (Option-cases (find_event_end buf)) [
      | inl partial ↦ stops (suc fuel) last buf b later apart partial
      | inr (end, found) ↦
          let (some_bytes, within) = find_from-bounds false buf found in
          let l = length-drop end buf within in
          elim (Bool-cases (valid_utf8 [] (take end buf))) [
            | inr broken ↦ ground (arith, drain-broken fuel last buf found broken)
            | inl v ↦ elim (Bool-cases (end == length buf && ends_cr buf && b == 10)) [
              | inl inside ↦
                  let e : end ≡ length buf = ground arith in
                  subst (λ c. Resumes last buf c later (drain (suc fuel) last buf)) (ground arith)
                    (cut-Resumes fuel last buf later (ground arith)
                      (ap (valid_utf8 []) (sym (take-all buf) ∙ ap (λ n. take n buf) (sym e)) ∙ v)
                      (ground arith))
              | inr clear ↦
                  let raw = take end buf in
                  let rest = drop end buf in
                  let first = drain-some fuel last buf found v in
                  subst (Resumes last buf b later) (sym first) (
                    subst
                      (λ w. Agrees w (parse_event raw ++ (drain fuel (ends_cr raw) rest).events) (
                        whole false (
                          (drain fuel (ends_cr raw) rest).rest
                          ++ resumed (drain fuel (ends_cr raw) rest) (b ∷ later))))
                      (sym (uncut last buf b later found v clear))
                      (Agrees-with (parse_event raw) (drain fuel (ends_cr raw) rest).events
                        (whole (ends_cr raw) (rest ++ b ∷ later))
                        (whole false (
                          (drain fuel (ends_cr raw) rest).rest
                          ++ resumed (drain fuel (ends_cr raw) rest) (b ∷ later)))
                        (drain-Resumes fuel (ends_cr raw) rest b later (ground arith)
                          (apart_after end buf b within clear)
                          (ap (λ d. d.undecodable) (sym first) ∙ text))))
            ]
          ]
    ]
