-- ===== src/Ledger/Requests/Slots.antt =====
-- What crates/ledger/src/requests.rs promises of the slots that it grants and holds back.
use quotamiser.Prelude.{
  ℕ, ◌+◌, ◌≤◌, ◌<◌, ◌≡◌, inl, inr, ◌⊎◌, ap, ◌∙◌, refl, sym, subst, String, not, Option, none, some,
  List, [], ◌∷◌, ◌++◌, arith, leb, eq_iff, ok, ok_or, and_then, update, select, count, unwrap_or,
  >>=-eq-ok, Bool-cases,
}
use quotamiser.Prelude.Int.{ℤ, pos, ◌≤ℤ◌, checked_sub_ℤ, -ℤ_parts}
use quotamiser.Ledger.Error.{overflow, sqlite}
use quotamiser.Ledger.Schema.{RequestCounter, RequestDispatch, Db}
use quotamiser.Ledger.Requests.{
  RequestWindow, RequestSlot, granted, exhausted, window_full, counts_for, upsert_counter, used_of,
  is_stale, is_recent, oldest, retry_after, use_slot, take_in_window, take_body,
}

-- What a provider has used of a day.
abbrev pub used_by : String → ℕ → Db → ℕ
used_by provider epoch db = unwrap_or (used_of provider epoch db.counters) 0

-- What a provider has used of a window.
abbrev pub recent_by : String → ℤ → Db → ℕ
recent_by provider start db = count (is_recent provider start) db.dispatches

used_of-upsert_counter :
    (provider : String) (epoch limit : ℕ) (counters : List RequestCounter)
    → used_of provider epoch (upsert_counter provider epoch limit counters)
      ≡ some (unwrap_or (used_of provider epoch counters) 0)
used_of-upsert_counter provider epoch limit [] = ground (arith, eq_iff provider provider)
used_of-upsert_counter provider epoch limit (c ∷ counters) =
    ground (arith, used_of-upsert_counter provider epoch limit counters)

used_of-use_slot :
    (provider : String) (epoch : ℕ) (counters : List RequestCounter)
    → used_of provider epoch (update (counts_for provider epoch) use_slot counters)
      ≡ and_then (used_of provider epoch counters) (λ n. some (n + 1))
used_of-use_slot provider epoch [] = ground arith
used_of-use_slot provider epoch (c ∷ counters) =
    ground (arith, used_of-use_slot provider epoch counters)

-- A dispatch is never both stale and recent, so forgetting the stale ones counts the same.
count-select :
    (provider : String) (start : ℤ) (dispatches : List RequestDispatch)
    → count (is_recent provider start) (select (λ d. not (is_stale provider start d)) dispatches)
      ≡ count (is_recent provider start) dispatches
count-select provider start [] = ground arith
count-select provider start (d ∷ dispatches) =
    ground (arith, count-select provider start dispatches)

count-append :
    (provider : String) (start : ℤ) (dispatches : List RequestDispatch) (now : ℤ)
    → start ≤ℤ now
    → count (is_recent provider start) (dispatches ++ record { provider = provider; at = now } ∷ [])
      ≡ count (is_recent provider start) dispatches + 1
count-append provider start [] now h = ground (arith, eq_iff provider provider)
count-append provider start (d ∷ dispatches) now h =
    ground (arith, count-append provider start dispatches now h)

-- A slot that is granted: the day and the window had room for it, and both count it.
pub record Grants (provider : String) (epoch limit : ℕ) (window : RequestWindow) (now : ℤ)
    (used : ℕ) (db db' : Db) : Type 0 where
  pub day : used ≤ limit
  pub counted : used ≡ used_by provider epoch db + 1
  pub used_after : used_by provider epoch db' ≡ used
  pub start : ℤ
  pub starts : checked_sub_ℤ now window.window_seconds ≡ some start
  pub room : recent_by provider start db < window.max_in_window
  pub recent_after : recent_by provider start db' ≡ recent_by provider start db + 1

-- A slot that is held back: nothing that counts has changed.
pub record HoldsBack (provider : String) (epoch : ℕ) (window : RequestWindow) (now : ℤ)
    (db db' : Db) : Type 0 where
  pub used_after : used_by provider epoch db' ≡ used_by provider epoch db
  pub recent_after :
      (start : ℤ)
      → checked_sub_ℤ now window.window_seconds ≡ some start
      → recent_by provider start db' ≡ recent_by provider start db

-- What each answer means.
abbrev pub Answers : String → ℕ → ℕ → RequestWindow → ℤ → Db → RequestSlot → Db → Type 0
Answers provider epoch limit window now db (granted used total) db' =
    (total ≡ limit) × Grants provider epoch limit window now used db db'
Answers provider epoch limit window now db (exhausted used total) db' =
    (total ≡ limit)
    × (limit ≤ used)
    × (used ≡ used_by provider epoch db)
    × HoldsBack provider epoch window now db db'
Answers provider epoch limit window now db (window_full wait) db' =
    (pos 1 ≤ℤ wait) × HoldsBack provider epoch window now db db'

retry_after-positive :
    (o : Option ℤ) (window_seconds now : ℤ) → pos 1 ≤ℤ retry_after o window_seconds now
retry_after-positive none window_seconds now = ground arith
retry_after-positive (some at) window_seconds now = ground arith

-- The two ends of `take_in_window`.
take_in_window-parts :
    (provider : String) (epoch limit used : ℕ) (window : RequestWindow) (now : ℤ) (db db' : Db)
    (slot : RequestSlot)
    → take_in_window provider epoch limit used window now db ≡ ok (slot, db')
    → (start : ℤ) × (checked_sub_ℤ now window.window_seconds ≡ some start)
      × (((wait : ℤ) × (slot ≡ window_full wait)
            × (pos 1 ≤ℤ wait)
            × (db'.counters ≡ db.counters)
            × (db'.dispatches ≡ select (λ d. not (is_stale provider start d)) db.dispatches))
          ⊎ ((slot ≡ granted (used + 1) limit)
              × (recent_by provider start db < window.max_in_window)
              × (db'.counters ≡ update (counts_for provider epoch) use_slot db.counters)
              × (db'.dispatches
                  ≡ select (λ d. not (is_stale provider start d)) db.dispatches
                    ++ record { provider = provider; at = now } ∷ [])))
unfolding take_in_window
take_in_window-parts provider epoch limit used window now db db' slot h =
    let (start, starts, later) =
      >>=-eq-ok (ok_or (checked_sub_ℤ now window.window_seconds) overflow) _ h in
    let kept = select (λ d. not (is_stale provider start d)) db.dispatches in
    let wait =
      retry_after (oldest (select (is_recent provider start) kept)) window.window_seconds now in
    let same = count-select provider start db.dispatches in
    (
      start,
      ground arith,
      elim (Bool-cases (leb window.max_in_window (count (is_recent provider start) kept))) [
        | inl full ↦ inl (
          wait,
          ground arith,
          retry_after-positive (oldest (select (is_recent provider start) kept))
              window.window_seconds now,
          ground arith,
          ground arith,
        )
        | inr room ↦ inr (ground arith, ground arith, ground arith, ground arith)
      ],
    )

-- Later starts forget at most what was stale.
recent-select :
    (provider : String) (start : ℤ) (db db' : Db)
    → db'.dispatches ≡ select (λ d. not (is_stale provider start d)) db.dispatches
    → recent_by provider start db' ≡ recent_by provider start db
recent-select provider start db db' h =
    ap (count (is_recent provider start)) h ∙ count-select provider start db.dispatches

held_recent :
    (provider : String) (window : RequestWindow) (now start start' : ℤ) (db db' : Db)
    → checked_sub_ℤ now window.window_seconds ≡ some start
    → checked_sub_ℤ now window.window_seconds ≡ some start'
    → db'.dispatches ≡ select (λ d. not (is_stale provider start d)) db.dispatches
    → recent_by provider start' db' ≡ recent_by provider start' db
held_recent provider window now start start' db db' a b h =
    let same : start ≡ start' = ground arith in
    subst (λ x. recent_by provider x db' ≡ recent_by provider x db) same
      (recent-select provider start db db' h)

granted_recent :
    (provider : String) (window : RequestWindow) (now start : ℤ) (db db' : Db)
    → pos 0 ≤ℤ window.window_seconds
    → checked_sub_ℤ now window.window_seconds ≡ some start
    → db'.dispatches
      ≡ select (λ d. not (is_stale provider start d)) db.dispatches
        ++ record { provider = provider; at = now } ∷ []
    → recent_by provider start db' ≡ recent_by provider start db + 1
granted_recent provider window now start db db' long starts h =
    let kept = select (λ d. not (is_stale provider start d)) db.dispatches in
    let p = -ℤ_parts now window.window_seconds in
    ap (count (is_recent provider start)) h
    ∙ count-append provider start kept now (ground arith)
    ∙ ap (λ n. n + 1) (count-select provider start db.dispatches)

-- Whatever the day's limit and the window, of at least no seconds: a granted slot is one more than
-- was used, within the limit, with room in the window, and both count it from then on; an answer
-- that holds the request back spends nothing, of the day or of the window, and a full window asks
-- for a wait of at least a second.
pub take_body-Answers :
    (provider : String) (epoch limit : ℕ) (window : RequestWindow) (now : ℤ) (db db' : Db)
    (slot : RequestSlot)
    → pos 0 ≤ℤ window.window_seconds
    → take_body provider epoch limit window now db ≡ ok (slot, db')
    → Answers provider epoch limit window now db slot db'
unfolding take_body
take_body-Answers provider epoch limit window now db db' slot long h =
    let counters = upsert_counter provider epoch limit db.counters in
    let (used, is, later) = >>=-eq-ok (ok_or (used_of provider epoch counters) sqlite) _ h in
    let u = used_of-upsert_counter provider epoch limit db.counters in
    elim (Bool-cases (leb limit used)) [
      | inl over ↦
          let slot_is : exhausted used limit ≡ slot = ground arith in
          let db_is : db'.counters ≡ counters = ground arith in
          let same : db'.dispatches ≡ db.dispatches = ground arith in
          subst (λ slot. Answers provider epoch limit window now db slot db') slot_is
            (
              refl,
              ground arith,
              ground arith,
              record {
                used_after = ground arith;
                recent_after = λ start e. ap (count (is_recent provider start)) same;
              },
            )
      | inr fits ↦
          let upserted : Db = record db { counters = counters } in
          let (start, starts, ends) =
            take_in_window-parts provider epoch limit used window now upserted db' slot
              (ground arith) in
          elim ends [
            | inl (wait, slot_is, positive, counters_same, forgotten) ↦
                subst (λ slot. Answers provider epoch limit window now db slot db') (sym slot_is)
                  (
                    positive,
                    record {
                      used_after = ground arith;
                      recent_after = λ start' e.
                          held_recent provider window now start start' db db' starts e forgotten;
                    },
                  )
            | inr (slot_is, room, counted, added) ↦
                subst (λ slot. Answers provider epoch limit window now db slot db') (sym slot_is)
                  (
                    refl,
                    record {
                      day = ground arith;
                      counted = ground arith;
                      used_after = ground (arith, used_of-use_slot provider epoch counters);
                      start = start;
                      starts = starts;
                      room = room;
                      recent_after =
                          granted_recent provider window now start db db' long starts added;
                    },
                  )
          ]
    ]
