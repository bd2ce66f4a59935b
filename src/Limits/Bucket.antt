-- ===== src/Limits/Bucket.antt =====
-- The token bucket of user-server/user_server/llm/rate_limit.py, and the counts by agent. Each call of
-- `take` holds the lock, so calls run one after another; a call comes with its reading of the clock.
use artic_trader.Prelude.{ℕ, suc, Bool, true, false, List, [], ◌∷◌, if◌then◌else◌}
use artic_trader.Trading.Float.{FloatOps, py_min}

pub record TokenBucket (A : Type 0) : Type 0 where
  pub capacity : A
  pub refill_per_sec : A
  pub tokens : A
  pub last : A

abbrev pub one_more : Bool → ℕ → ℕ
one_more true n = suc n
one_more false n = n

module _ {A : Type 0} ⦃o : FloatOps A⦄ where
  -- TokenBucket(capacity, refill_per_sec) at a time
  unfoldable pub new_bucket : A → A → A → TokenBucket A
  new_bucket capacity refill_per_sec now = record {
    capacity = capacity;
    refill_per_sec = refill_per_sec;
    tokens = capacity;
    last = now;
  }

  abbrev pub refilled : A → TokenBucket A → TokenBucket A
  refilled now b = record b {
    tokens = py_min b.capacity (o.add b.tokens (o.mul (o.sub now b.last) b.refill_per_sec));
    last = now;
  }

  abbrev pub spend : A → TokenBucket A → Bool × TokenBucket A
  spend cost b =
      if o.le cost b.tokens then (true, record b { tokens = o.sub b.tokens cost }) else (false, b)

  unfoldable pub take : A → A → TokenBucket A → Bool × TokenBucket A
  take cost now b = spend cost (refilled now b)

  -- The calls at these readings of the clock: how many were granted, and the bucket after them.
  unfoldable pub takes : A → List A → TokenBucket A → ℕ × TokenBucket A
  takes cost [] b = (0, b)
  takes cost (now ∷ later) b =
      let (granted, b') = take cost now b in
      let (n, b_end) = takes cost later b' in (one_more granted n, b_end)
