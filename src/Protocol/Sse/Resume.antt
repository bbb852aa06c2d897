-- ===== src/Protocol/Sse/Resume.antt =====
-- That the loop of `push` in crates/protocol/src/sse.rs can stop at any byte and go on with the
-- next packet.
use quotamiser.Prelude.{
  ℕ, zero, suc, ◌≤◌, ◌≡◌, inl, inr, refl, sym, none, some, [], ◌∷◌, ◌++◌, Bool, true, false, length,
  arith, Option-cases, Bool-cases, ap, ◌∙◌,
}
use quotamiser.Protocol.Sse.{
  Bytes, find_event_end, drain, Drained, take, drop, ends_cr, with_events, valid_utf8, parse_event,
}
use quotamiser.Protocol.Sse.Laws.{find_from-bounds, find_empty, length-drop}

pub take-append : (n : ℕ) (buf later : Bytes) → n ≤ length buf → take n (buf ++ later) ≡ take n buf
take-append zero buf later h = refl
take-append (suc n) [] later h = ground arith
take-append (suc n) (b ∷ buf) later h = ground (arith, take-append n buf later)

pub drop-append :
    (n : ℕ) (buf later : Bytes) → n ≤ length buf → drop n (buf ++ later) ≡ drop n buf ++ later
drop-append zero buf later h = refl
drop-append (suc n) [] later h = ground arith
drop-append (suc n) (b ∷ buf) later h = ground (arith, drop-append n buf later)

pub take-all : (buf : Bytes) → take (length buf) buf ≡ buf
take-all [] = refl
take-all (b ∷ buf) = ap (λ x. b ∷ x) (take-all buf)

pub drop-all : (buf : Bytes) → drop (length buf) buf ≡ []
drop-all [] = refl
drop-all (b ∷ buf) = drop-all buf

pub take-next :
    (buf later : Bytes) (c : ℕ) → take (suc (length buf)) (buf ++ c ∷ later) ≡ buf ++ c ∷ []
take-next [] later c = refl
take-next (b ∷ buf) later c = ap (λ x. b ∷ x) (take-next buf later c)

pub drop-next : (buf later : Bytes) (c : ℕ) → drop (suc (length buf)) (buf ++ c ∷ later) ≡ later
drop-next [] later c = refl
drop-next (b ∷ buf) later c = drop-next buf later c

pub ends_cr-next : (buf : Bytes) → ends_cr (buf ++ 10 ∷ []) ≡ false
ends_cr-next [] = ground arith
ends_cr-next (b ∷ []) = ground arith
ends_cr-next (b ∷ c ∷ buf) = ends_cr-next (c ∷ buf)

abbrev pub idle : Bool → Bytes → Drained
idle last buf = record { events = []; rest = buf; ended_cr = last; undecodable = false }

pub drain-none :
    (fuel : ℕ) (last : Bool) (buf : Bytes)
    → find_event_end buf ≡ none
    → drain fuel last buf ≡ idle last buf
unfolding drain
drain-none zero last buf h = refl
drain-none (suc fuel) last buf h = ground arith

pub drain-some :
    (fuel : ℕ) (last : Bool) (buf : Bytes) {end : ℕ}
    → find_event_end buf ≡ some end
    → valid_utf8 [] (take end buf) ≡ true
    → drain (suc fuel) last buf
      ≡ with_events
          (parse_event (take end buf))
          (drain fuel (ends_cr (take end buf)) (drop end buf))
unfolding drain
drain-some fuel last buf h v = ground arith

pub drain-broken :
    (fuel : ℕ) (last : Bool) (buf : Bytes) {end : ℕ}
    → find_event_end buf ≡ some end
    → valid_utf8 [] (take end buf) ≡ false
    → drain (suc fuel) last buf ≡ record {
      events = [];
      rest = drop end buf;
      ended_cr = ends_cr (take end buf);
      undecodable = true;
    }
unfolding drain
drain-broken fuel last buf h v = ground arith

-- The fuel does not matter, from the length of the buffer on.
pub drain-fuel :
    (f g : ℕ) (last : Bool) (buf : Bytes)
    → length buf ≤ f
    → length buf ≤ g
    → drain f last buf ≡ drain g last buf
drain-fuel zero g last [] a b =
    drain-none zero last [] find_empty ∙ sym (drain-none g last [] find_empty)
drain-fuel zero g last (x ∷ buf) a b = ground arith
drain-fuel (suc f) zero last [] a b =
    drain-none (suc f) last [] find_empty ∙ sym (drain-none zero last [] find_empty)
drain-fuel (suc f) zero last (x ∷ buf) a b = ground arith
drain-fuel (suc f) (suc g) last buf a b = elim (Option-cases (find_event_end buf)) [
  | inl partial ↦ drain-none (suc f) last buf partial ∙ sym (drain-none (suc g) last buf partial)
  | inr (end, found) ↦
      let (some_bytes, within) = find_from-bounds false buf found in
      let l = length-drop end buf within in
      elim (Bool-cases (valid_utf8 [] (take end buf))) [
        | inr broken ↦
            drain-broken f last buf found broken ∙ sym (drain-broken g last buf found broken)
        | inl text ↦
            drain-some f last buf found text
            ∙ ap (with_events (parse_event (take end buf))) (
                drain-fuel f g (ends_cr (take end buf)) (drop end buf) (ground arith)
                  (ground arith))
            ∙ sym (drain-some g last buf found text)
      ]
]
