-- ===== src/Limits/Rate.antt =====
-- How many calls the token bucket grants: user-server/user_server/llm/rate_limit.py, in whole numbers of
-- any unit of time and of tokens.
use native.Mathlib.Nat.{add-mul}
use mathlib.Core.Path.{subst, subst₂}
use artic_trader.Prelude.{
  Bool-cases, inl, inr, ℕ, ◌+◌, ◌-◌, ◌*◌, ◌≤◌, Bool, true, false, List, [], ◌∷◌, ◌≡◌, refl, sym,
  ◌∙◌, ap, arith, leb,
}
use artic_trader.Trading.Float.{py_min}
use artic_trader.Trading.Whole.{whole}
use artic_trader.Limits.Bucket.{TokenBucket, refilled, spend, take, one_more, takes}

-- The clock does not go back.
abbrev pub Rising : ℕ → List ℕ → Type 0
Rising start [] = Unit
Rising start (now ∷ later) = (start ≤ now) × Rising now later

-- What the first `n` grants leave, from a bucket to a later one.
record IsPaid (cost n : ℕ) (b b' : TokenBucket ℕ) : Type 0 where
  refill : b'.refill_per_sec ≡ b.refill_per_sec
  forward : b.last ≤ b'.last
  paid : n * cost + b'.tokens ≤ b.tokens + (b'.last - b.last) * b.refill_per_sec

gap : (l m k : ℕ) → l ≤ m → m ≤ k → (m - l) + (k - m) ≡ k - l
gap l m k p q = omega arith

span : (l m k r : ℕ) → l ≤ m → m ≤ k → (m - l) * r + (k - m) * r ≡ (k - l) * r
span l m k r p q = sym (add-mul (m - l) (k - m) r) ∙ ap (λ n. n * r) (gap l m k p q)

-- What one call leaves, once the bucket has been refilled.
spend-IsPaid :
    (cost : ℕ) (b b' : TokenBucket ℕ)
    → b'.refill_per_sec ≡ b.refill_per_sec
    → b.last ≤ b'.last
    → b'.tokens ≤ b.tokens + (b'.last - b.last) * b.refill_per_sec
    → IsPaid cost (one_more (spend ⦃o = whole⦄ cost b').0 0) b (spend ⦃o = whole⦄ cost b').1
spend-IsPaid cost b b' r f p = elim (Bool-cases (leb cost b'.tokens)) [
  | inl e ↦ rw e (record { refill = r; forward = f; paid = ground (arith, e, p) })
  | inr e ↦ rw e (record { refill = r; forward = f; paid = ground (arith, p) })
]

take-IsPaid :
    (cost now : ℕ) (b : TokenBucket ℕ)
    → b.last ≤ now
    → IsPaid cost (one_more (take ⦃o = whole⦄ cost now b).0 0) b (take ⦃o = whole⦄ cost now b).1
unfolding take
take-IsPaid cost now b h =
    spend-IsPaid cost b (refilled ⦃o = whole⦄ now b) refl h (least b.capacity _)
  where
    least : (c x : ℕ) → py_min ⦃o = whole⦄ c x ≤ x
    least c x = ground arith

IsPaid-trans :
    {cost n : ℕ} {b b' b_end : TokenBucket ℕ} (g : Bool)
    → IsPaid cost (one_more g 0) b b'
    → IsPaid cost n b' b_end
    → IsPaid cost (one_more g n) b b_end
IsPaid-trans {cost} {n} {b} {b'} {b_end} g s t = record {
  refill = t.refill ∙ s.refill;
  forward = omega arith;
  paid =
      joined g _ _ _ s.paid
        (subst (λ r. n * cost + b_end.tokens ≤ b'.tokens + (b_end.last - b'.last) * r) s.refill
          t.paid)
        (span b.last b'.last b_end.last b.refill_per_sec s.forward t.forward);
}
  where
    joined :
        (g : Bool) (x y z : ℕ)
        → one_more g 0 * cost + b'.tokens ≤ b.tokens + x
        → n * cost + b_end.tokens ≤ b'.tokens + y
        → x + y ≡ z
        → one_more g n * cost + b_end.tokens ≤ b.tokens + z
    joined true x y z p q e = omega arith
    joined false x y z p q e = omega arith

take-last : (cost now : ℕ) (b : TokenBucket ℕ) → (take ⦃o = whole⦄ cost now b).1.last ≡ now
unfolding take
take-last cost now b = elim (Bool-cases (leb cost (refilled ⦃o = whole⦄ now b).tokens)) [
  | inl e ↦ rw e refl
  | inr e ↦ rw e refl
]

takes-IsPaid :
    (cost : ℕ) (readings : List ℕ) (b : TokenBucket ℕ)
    → Rising b.last readings
    → IsPaid cost (takes ⦃o = whole⦄ cost readings b).0 b (takes ⦃o = whole⦄ cost readings b).1
unfolding takes
takes-IsPaid cost [] b h = record { refill = refl; forward = ground arith; paid = ground arith }
takes-IsPaid cost (now ∷ later) b (h, hs) =
    IsPaid-trans (take ⦃o = whole⦄ cost now b).0 (take-IsPaid cost now b h) (
      takes-IsPaid cost later (take ⦃o = whole⦄ cost now b).1
        (subst (λ t. Rising t later) (sym (take-last cost now b)) hs))

-- What is granted at one call, and what it leaves, are no more than the capacity.
take-capacity :
    (cost now : ℕ) (b : TokenBucket ℕ)
    → one_more (take ⦃o = whole⦄ cost now b).0 0 * cost + (take ⦃o = whole⦄ cost now b).1.tokens
      ≤ b.capacity
unfolding take
take-capacity cost now b = elim (Bool-cases (leb cost (refilled ⦃o = whole⦄ now b).tokens)) [
  | inl e ↦ rw e (ground (arith, e))
  | inr e ↦ rw e (ground arith)
]

take-refill :
    (cost now : ℕ) (b : TokenBucket ℕ)
    → (take ⦃o = whole⦄ cost now b).1.refill_per_sec ≡ b.refill_per_sec
unfolding take
take-refill cost now b = elim (Bool-cases (leb cost (refilled ⦃o = whole⦄ now b).tokens)) [
  | inl e ↦ rw e refl
  | inr e ↦ rw e refl
]

-- If the clock does not go back, then of any calls in a row at one cost, on a bucket in any state, those
-- granted cost together at most the capacity and the refill of the time from the first to the last of
-- them: however long the bucket was idle before, no more than its capacity has been saved. Numbers are
-- whole, in any unit of time and of tokens; the rounding of floats is left out.
pub takes-bounded :
    (cost now : ℕ) (later : List ℕ) (b : TokenBucket ℕ)
    → Rising now later
    → (takes ⦃o = whole⦄ cost (now ∷ later) b).0 * cost
      ≤ b.capacity + ((takes ⦃o = whole⦄ cost (now ∷ later) b).1.last - now) * b.refill_per_sec
unfolding takes
takes-bounded cost now later b h =
    joined (take ⦃o = whole⦄ cost now b).0 rest.0 b'.tokens rest.1.tokens
      ((rest.1.last - now) * b.refill_per_sec) (take-capacity cost now b) paid
  where
    b' : TokenBucket ℕ
    b' = (take ⦃o = whole⦄ cost now b).1

    rest : ℕ × TokenBucket ℕ
    rest = takes ⦃o = whole⦄ cost later b'

    paid : rest.0 * cost + rest.1.tokens ≤ b'.tokens + (rest.1.last - now) * b.refill_per_sec
    paid =
        subst₂ (λ t r. rest.0 * cost + rest.1.tokens ≤ b'.tokens + (rest.1.last - t) * r)
          (take-last cost now b) (take-refill cost now b)
          (takes-IsPaid cost later b'
            (subst (λ t. Rising t later) (sym (take-last cost now b)) h)).paid

    joined :
        (g : Bool) (n t e x : ℕ)
        → one_more g 0 * cost + t ≤ b.capacity
        → n * cost + e ≤ t + x
        → one_more g n * cost ≤ b.capacity + x
    joined true n t e x p q = omega arith
    joined false n t e x p q = omega arith
