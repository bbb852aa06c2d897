-- ===== src/Ledger/Core/Pools.antt =====
-- What crates/ledger/src/ledger.rs does to the counters of a pool, read pool by pool.
use quotamiser.Prelude.{
  ℕ, ◌+◌, ◌-◌, ◌≤◌, inl, inr, String, ◌≡◌, Bool, true, ◌&&◌, Option, none, some, List, [], ◌∷◌,
  arith, ◌==◌, str_eq, eq_iff, if◌then◌else◌, ok, is_some, Option-cases,
}
use quotamiser.Prelude.Int.{ℤ, pos, pos_part, neg_part, i64_max, ◌+ℤ◌}
use quotamiser.Ledger.Schema.{PoolEpoch}
use quotamiser.Ledger.Core.{PoolCounters, pool_counters, set_counters, adjust_pool}

-- Is there a row for this pool and epoch?
abbrev pub is_open : List PoolEpoch → String → ℕ → Bool
is_open pools q f = is_some (pool_counters pools q f)

abbrev pub counter : (PoolCounters → ℕ) → Option PoolCounters → ℕ
counter field none = 0
counter field (some c) = field c

abbrev pub reserved_of : List PoolEpoch → String → ℕ → ℕ
reserved_of pools q f = counter (λ c. c.reserved) (pool_counters pools q f)

abbrev pub consumed_of : List PoolEpoch → String → ℕ → ℕ
consumed_of pools q f = counter (λ c. c.consumed) (pool_counters pools q f)

abbrev pub granted_of : List PoolEpoch → String → ℕ → ℕ
granted_of pools q f = counter (λ c. c.granted) (pool_counters pools q f)

-- The amount `n` where the pool and the epoch are the ones asked about, and 0 elsewhere.
abbrev pub share : String → ℕ → String → ℕ → ℕ → ℕ
share p e q f n = if str_eq p q && e == f then n else 0

abbrev reset : ℕ → ℕ → Option PoolCounters → Option PoolCounters
reset r c none = none
reset r c (some k) = some (record k { reserved = r; consumed = c })

pool_counters-set :
    (p : String) (e r c : ℕ) (pools : List PoolEpoch) (q : String) (f : ℕ)
    → pool_counters (set_counters p e r c pools) q f ≡ (
        if str_eq p q && e == f
        then reset r c (pool_counters pools q f)
        else pool_counters pools q f)
unfolding pool_counters
pool_counters-set p e r c [] q f = ground arith
pool_counters-set p e r c (x ∷ pools) q f =
    ground (
      arith,
      eq_iff x.pool_id p,
      eq_iff x.pool_id q,
      eq_iff p q,
      pool_counters-set p e r c pools q f,
    )

-- What an adjustment that succeeds does to every pool and epoch.
pub record Adjusts (pools pools' : List PoolEpoch) (p : String) (e up down k : ℕ) : Type 0 where
  pub reserved :
      (q : String) (f : ℕ)
      → reserved_of pools' q f + share p e q f down ≡ reserved_of pools q f + share p e q f up
  pub consumed :
      (q : String) (f : ℕ) → consumed_of pools' q f ≡ consumed_of pools q f + share p e q f k
  pub granted : (q : String) (f : ℕ) → granted_of pools' q f ≡ granted_of pools q f
  pub opened : (q : String) (f : ℕ) → is_open pools' q f ≡ is_open pools q f
  pub was_open : is_open pools p e ≡ true

-- The two sums that are checked, for a pool whose counters are known.
abbrev Shifted : List PoolEpoch → List PoolEpoch → String → ℕ → ℤ → ℕ → Type 0
Shifted pools pools' p e d k =
    (c : PoolCounters) × (r : ℕ) × (pool_counters pools p e ≡ some c)
    × (r + neg_part d ≡ c.reserved + pos_part d)
    × (pools' ≡ set_counters p e r (c.consumed + k) pools)

adjust_pool-Shifted :
    (pools : List PoolEpoch) (p : String) (e : ℕ) (d : ℤ) (k : ℕ) {pools' : List PoolEpoch}
    → adjust_pool pools p e d (pos k) ≡ ok pools'
    → Shifted pools pools' p e d k
unfolding adjust_pool ◌+ℤ◌
adjust_pool-Shifted pools p e d k {pools'} h = elim (Option-cases (pool_counters pools p e)) [
  | inl gone ↦ ground arith
  | inr (c, found) ↦ (c, c.reserved + pos_part d - neg_part d, found, ground arith, ground arith)
]

Shifted-Adjusts :
    (pools pools' : List PoolEpoch) (p : String) (e : ℕ) (d : ℤ) (k : ℕ)
    → Shifted pools pools' p e d k
    → Adjusts pools pools' p e (pos_part d) (neg_part d) k
Shifted-Adjusts pools pools' p e d k (c, r, found, sum, is) = record {
  reserved = λ q f. ground (arith, eq_iff p q, pool_counters-set p e r (c.consumed + k) pools q f);
  consumed = λ q f. ground (arith, eq_iff p q, pool_counters-set p e r (c.consumed + k) pools q f);
  granted = λ q f. ground (arith, eq_iff p q, pool_counters-set p e r (c.consumed + k) pools q f);
  opened = λ q f. ground (arith, eq_iff p q, pool_counters-set p e r (c.consumed + k) pools q f);
  was_open = ground arith;
}

-- An adjustment that succeeds moves the counters of its pool and epoch, and no others.
pub adjust_pool-Adjusts :
    (pools : List PoolEpoch) (p : String) (e : ℕ) (d : ℤ) (k : ℕ) {pools' : List PoolEpoch}
    → adjust_pool pools p e d (pos k) ≡ ok pools'
    → Adjusts pools pools' p e (pos_part d) (neg_part d) k
adjust_pool-Adjusts pools p e d k h =
    Shifted-Adjusts pools _ p e d k (adjust_pool-Shifted pools p e d k h)

-- It succeeds where the row is there, the liability to take off is reserved, and no sum overflows.
pub adjust_pool-total :
    (pools : List PoolEpoch) (p : String) (e : ℕ) (d : ℤ) (k : ℕ)
    → is_open pools p e ≡ true
    → neg_part d ≤ reserved_of pools p e + pos_part d
    → reserved_of pools p e + pos_part d ≤ i64_max
    → consumed_of pools p e + k ≤ i64_max
    → (pools' : List PoolEpoch) × (adjust_pool pools p e d (pos k) ≡ ok pools')
unfolding adjust_pool ◌+ℤ◌
adjust_pool-total pools p e d k open_here enough small small_sum =
    elim (Option-cases (pool_counters pools p e)) [
      | inl gone ↦ ground arith
      | inr (c, found) ↦ (
        set_counters p e (c.reserved + pos_part d - neg_part d) (c.consumed + k) pools,
        ground arith,
      )
    ]
