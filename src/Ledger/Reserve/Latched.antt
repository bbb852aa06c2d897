-- ===== src/Ledger/Reserve/Latched.antt =====
-- The latches that `settle` of crates/ledger/src/transitions.rs sets, and the admissions of
-- crates/ledger/src/ledger.rs that they stop.
use quotamiser.Prelude.{
  ℕ, ◌≡◌, ◌≢◌, refl, subst, sym, ap, ◌∙◌, String, ◌<>◌, Bool, true, false, ◌&&◌, ◌||◌, Option, none,
  some, List, [], ◌∷◌, arith, ltb, str_eq, eq_iff, Result, ok, err, is_some,
}
use quotamiser.Prelude.Int.{ℤ}
use quotamiser.Ledger.Schema.{Db, Latch, Evidence}
use quotamiser.Ledger.Core.{Group, load_group, insert_latch}
use quotamiser.Ledger.Store.{Ledger}
use quotamiser.Ledger.Transitions.{settle_body}
use quotamiser.Ledger.Transitions.Usage.{
  CompletedResponse, UsageDefect, Settlement, settled_as, written_off, validate,
}
use quotamiser.Ledger.Transitions.Effects.{SettlesAs, overrun_latch, settle_body-SettlesAs}
use quotamiser.Ledger.Reserve.{ReservationRequest, reserved, reserve, latch_refusal}
use quotamiser.Ledger.Reserve.Effects.{reserve-Reserves}

-- A latch that is set last is found, if no other is.
insert_latch-blocks :
    (scope reason : String) (evidence : Option Evidence) (now : ℤ) (latches : List Latch)
    (pool model : String)
    → (str_eq scope pool || str_eq scope ("model:" <> model)) ≡ true
    → is_some (latch_refusal (insert_latch scope reason evidence now latches) pool model) ≡ true
unfolding insert_latch
insert_latch-blocks scope reason evidence now [] pool model h = ground arith
insert_latch-blocks scope reason evidence now (x ∷ latches) pool model h =
    ground (arith, insert_latch-blocks scope reason evidence now latches pool model)

-- Nothing is admitted for the requests that `p` picks.
abbrev pub Stopped : (ReservationRequest → Type 0) → Db → Type 0
Stopped P db =
    (request : ReservationRequest) (now : ℤ) (l l' : Ledger) (id : ℕ)
    → l.db ≡ db
    → P request
    → reserve request now l ≢ (ok (reserved id), l')

stopped :
    (P : ReservationRequest → Type 0) (db : Db)
    → ((request : ReservationRequest)
        → P request
        → is_some (latch_refusal db.latches request.pool_id request.model_snapshot) ≡ true)
    → Stopped P db
stopped P db latched request now l l' id same p admitted =
    let (_, r, _) = reserve-Reserves request now l l' admitted in
    let some_latch = latched request p in
    let none_at : latch_refusal db.latches request.pool_id request.model_snapshot ≡ none =
      ap (λ db. latch_refusal db.latches request.pool_id request.model_snapshot) (sym same)
      ∙ r.unlatched in
    ground arith

-- What a settlement stops, by its outcome: the pool, the model, or nothing.
abbrev pub Stops : Group → Settlement → Db → Db → Type 0
Stops g (written_off defect) db db' = Stopped (λ request. request.pool_id ≡ g.head.pool_id) db'
Stops g (settled_as actual true) db db' =
    Stopped (λ request. request.model_snapshot ≡ g.head.model_snapshot) db'
Stops g (settled_as actual false) db db' = db'.latches ≡ db.latches

same_scope : {scope name : String} → scope ≡ name → str_eq scope name ≡ true
same_scope e = (eq_iff _ _).1 e

true-or : {a : Bool} (b : Bool) → a ≡ true → (a || b) ≡ true
true-or b h = ground arith

or-true : (a : Bool) {b : Bool} → b ≡ true → (a || b) ≡ true
or-true a h = ground arith

overrun-Stops :
    (g : Group) (actual : ℕ) (now : ℤ) (db db' : Db) (over : Bool)
    → ltb g.head.liability actual ≡ over
    → db'.latches ≡ overrun_latch g actual now db.latches
    → Stops g (settled_as actual over) db db'
overrun-Stops g actual now db db' false is latches = ground arith
overrun-Stops g actual now db db' true is latches =
    stopped (λ request. request.model_snapshot ≡ g.head.model_snapshot) db'
      (λ request same.
        let set : db'.latches
            ≡ insert_latch ("model:" <> g.head.model_snapshot)
                "reported usage exceeded the reserved liability"
                (some (Evidence.of_overrun g.root actual g.head.liability)) now db.latches =
          ground arith in
        rw set (
          insert_latch-blocks _ _ _ now db.latches request.pool_id request.model_snapshot
            (or-true _ (same_scope (ap (λ m. "model:" <> m) (sym same))))))

SettlesAs-Stops :
    (g : Group) (v : Result UsageDefect ℕ) (now : ℤ) (db : Db) (s : Settlement) (db' : Db)
    → SettlesAs g v now db s db'
    → Stops g s db db'
SettlesAs-Stops g (ok actual) now db s db' (same, _, latches) =
    subst (λ s. Stops g s db db') (sym same)
      (overrun-Stops g actual now db db' (ltb g.head.liability actual) refl latches)
SettlesAs-Stops g (err defect) now db s db' (same, _, latches) =
    subst (λ s. Stops g s db db') (sym same)
      (stopped (λ request. request.pool_id ≡ g.head.pool_id) db'
        (λ request pool. rw latches (
          insert_latch-blocks _ _ _ now db.latches request.pool_id request.model_snapshot
            (true-or _ (same_scope (sym pool))))))

-- The requests that a settlement stops: after a defective response those for the group's pool,
-- after an overrun those for its model.
abbrev pub stops : Group → Settlement → ReservationRequest → Bool
stops g (written_off defect) request = str_eq request.pool_id g.head.pool_id
stops g (settled_as actual over) request =
    over && str_eq request.model_snapshot g.head.model_snapshot

Stops-refused :
    (g : Group) (s : Settlement) (request : ReservationRequest) (now : ℤ) (db : Db) (l l' : Ledger)
    (new : ℕ)
    → Stops g s db l.db
    → stops g s request ≡ true
    → reserve request now l ≢ (ok (reserved new), l')
Stops-refused g (written_off defect) request now db l l' new h b =
    h request now l l' new refl ((eq_iff _ _).0 b)
Stops-refused g (settled_as actual true) request now db l l' new h b =
    h request now l l' new refl ((eq_iff _ _).0 b)
Stops-refused g (settled_as actual false) request now db l l' new h b = ground arith

-- After a settlement that wrote off a defective response no request for the group's pool is
-- admitted from the ledger it leaves, and after one whose usage overran the liability no request
-- for the group's model.
pub settle_body-reserve :
    (id : ℕ) (response : CompletedResponse) (accounting_rev now : ℤ) (db : Db) (l l' : Ledger)
    (s : Settlement) (g : Group) (request : ReservationRequest) (later : ℤ) (new : ℕ)
    → settle_body id response accounting_rev now db ≡ ok (s, l.db)
    → load_group db.rows id ≡ ok g
    → stops g s request ≡ true
    → reserve request later l ≢ (ok (reserved new), l')
settle_body-reserve id response accounting_rev now db l l' s g request later new h loads b =
    let (g₁, a, settles) = settle_body-SettlesAs id response accounting_rev now db l.db h in
    let same : g₁ ≡ g = ground (arith, a.loads) in
    Stops-refused g s request later db l l' new
      (subst (λ g. Stops g s db l.db) same
        (SettlesAs-Stops g₁ (validate g₁.head response accounting_rev) now db s l.db settles))
      b
