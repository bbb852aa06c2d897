-- ===== src/Ledger/Reserve/Ordered.antt =====
-- Texts in the order of their characters, as Rust's `Ord` of str has it, by which
-- crates/ledger/src/ledger.rs (`reserve`) sorts the keys of the safety inputs.
use Prim.Native.Nat.{Ordering, compare as compare_ℕ}
use Prim.Native.Char.{code}
use Prim.Native.String.{compare, then as first_of}
use Prim.Native.String.compare
use native.Mathlib.Omega.{compare-lt, compare-eq, compare-gt}
use mathlib.Core.Bool.{false≢true}
use text.Mathlib.TextEquality.{path_by_compare}
use quotamiser.Prelude.{ℕ, String, ◌≡◌, refl, sym, ap, ◌∙◌, Bool, true, false, arith}
use quotamiser.Ledger.Reserve.Keys.{before}

abbrev flip : Ordering → Ordering
flip Ordering.lt = Ordering.gt
flip Ordering.eq = Ordering.eq
flip Ordering.gt = Ordering.lt

abbrev le : Ordering → Bool
le Ordering.gt = false
le _ = true

flip-compare_ℕ : (m n : ℕ) → compare_ℕ n m ≡ flip (compare_ℕ m n)
flip-compare_ℕ m n = both (compare_ℕ n m) (compare_ℕ m n) refl refl
  where
    both : (p q : Ordering) → compare_ℕ n m ≡ p → compare_ℕ m n ≡ q → p ≡ flip q
    both Ordering.lt Ordering.lt a b = ground (arith, compare-lt n m a, compare-lt m n b)
    both Ordering.lt Ordering.eq a b = ground (arith, compare-lt n m a, compare-eq m n b)
    both Ordering.lt Ordering.gt a b = refl
    both Ordering.eq Ordering.lt a b = ground (arith, compare-eq n m a, compare-lt m n b)
    both Ordering.eq Ordering.eq a b = refl
    both Ordering.eq Ordering.gt a b = ground (arith, compare-eq n m a, compare-gt m n b)
    both Ordering.gt Ordering.lt a b = refl
    both Ordering.gt Ordering.eq a b = ground (arith, compare-gt n m a, compare-eq m n b)
    both Ordering.gt Ordering.gt a b = ground (arith, compare-gt n m a, compare-gt m n b)

flip-first_of : (p q : Ordering) → flip (first_of p q) ≡ first_of (flip p) (flip q)
flip-first_of Ordering.lt q = refl
flip-first_of Ordering.eq q = refl
flip-first_of Ordering.gt q = refl

flip-compare : (s t : String) → compare t s ≡ flip (compare s t)
flip-compare String.[] String.[] = compare.nil-nil ∙ sym (ap flip compare.nil-nil)
flip-compare String.[] (String.◌∷◌ d t) =
    compare.cons-nil d t ∙ sym (ap flip (compare.nil-cons d t))
flip-compare (String.◌∷◌ c s) String.[] =
    compare.nil-cons c s ∙ sym (ap flip (compare.cons-nil c s))
flip-compare (String.◌∷◌ c s) (String.◌∷◌ d t) =
    compare.cons-cons d c t s
    ∙ ap (λ p. first_of p (compare t s)) (flip-compare_ℕ (code c) (code d))
    ∙ ap (first_of (flip (compare_ℕ (code c) (code d)))) (flip-compare s t)
    ∙ sym (flip-first_of (compare_ℕ (code c) (code d)) (compare s t))
    ∙ sym (ap flip (compare.cons-cons c d s t))

first_of_trans :
    (m n k : ℕ) (x y z : Ordering)
    → (le x ≡ true → le y ≡ true → le z ≡ true)
    → le (first_of (compare_ℕ m n) x) ≡ true
    → le (first_of (compare_ℕ n k) y) ≡ true
    → le (first_of (compare_ℕ m k) z) ≡ true
first_of_trans m n k x y z rest = go (compare_ℕ m n) (compare_ℕ n k) (compare_ℕ m k) refl refl refl
  where
    go :
        (p q r : Ordering)
        → compare_ℕ m n ≡ p
        → compare_ℕ n k ≡ q
        → compare_ℕ m k ≡ r
        → le (first_of p x) ≡ true
        → le (first_of q y) ≡ true
        → le (first_of r z) ≡ true
    go p q Ordering.lt a b c h h' = refl
    go Ordering.gt q r a b c h h' = cc
    go p Ordering.gt r a b c h h' = cc
    go Ordering.eq Ordering.eq Ordering.eq a b c h h' = rest h h'
    go Ordering.lt Ordering.lt r a b c h h' =
        ground (arith, compare-lt m n a, compare-lt n k b, compare-eq m k, compare-gt m k)
    go Ordering.lt Ordering.eq r a b c h h' =
        ground (arith, compare-lt m n a, compare-eq n k b, compare-eq m k, compare-gt m k)
    go Ordering.eq Ordering.lt r a b c h h' =
        ground (arith, compare-eq m n a, compare-lt n k b, compare-eq m k, compare-gt m k)
    go Ordering.eq Ordering.eq Ordering.gt a b c h h' =
        ground (arith, compare-eq m n a, compare-eq n k b, compare-gt m k c)

compare_trans :
    (s t u : String) → le (compare s t) ≡ true → le (compare t u) ≡ true → le (compare s u) ≡ true
compare_trans String.[] t String.[] h h' = ap le compare.nil-nil
compare_trans String.[] t (String.◌∷◌ e u) h h' = ap le (compare.nil-cons e u)
compare_trans (String.◌∷◌ c s) String.[] u h h' =
    absurd (false≢true (sym (ap le (compare.cons-nil c s)) ∙ h))
compare_trans (String.◌∷◌ c s) (String.◌∷◌ d t) String.[] h h' =
    absurd (false≢true (sym (ap le (compare.cons-nil d t)) ∙ h'))
compare_trans (String.◌∷◌ c s) (String.◌∷◌ d t) (String.◌∷◌ e u) h h' =
    ap le (compare.cons-cons c e s u)
    ∙ first_of_trans (code c) (code d) (code e) (compare s t) (compare t u) (compare s u)
        (compare_trans s t u) (sym (ap le (compare.cons-cons c d s t)) ∙ h)
        (sym (ap le (compare.cons-cons d e t u)) ∙ h')

before-compare : (a b : String) → before a b ≡ le (compare a b)
before-compare a b = refl

pub before_trans : (a b c : String) → before a b ≡ true → before b c ≡ true → before a c ≡ true
before_trans a b c h h' = compare_trans a b c h h'

pub before_total : (a b : String) → before a b ≡ false → before b a ≡ true
before_total a b h = ap le (flip-compare a b) ∙ turned (compare a b) h
  where
    turned : (o : Ordering) → le o ≡ false → le (flip o) ≡ true
    turned Ordering.lt h = cc
    turned Ordering.eq h = refl
    turned Ordering.gt h = refl

pub before_antisym : (a b : String) → before a b ≡ true → before b a ≡ true → a ≡ b
before_antisym a b h h' =
    path_by_compare a b (neither (compare a b) h (sym (ap le (flip-compare a b)) ∙ h'))
  where
    neither : (o : Ordering) → le o ≡ true → le (flip o) ≡ true → o ≡ Ordering.eq
    neither Ordering.lt h h' = cc
    neither Ordering.eq h h' = refl
    neither Ordering.gt h h' = cc
