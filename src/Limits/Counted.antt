-- ===== src/Limits/Counted.antt =====
-- The counts by agent against the bucket: user-server/user_server/llm/rate_limit.py.
use artic_trader.Prelude.{
  ℕ, suc, ◌+◌, ◌≤◌, String, Bool, true, false, Option, none, some, List, [], ◌∷◌, map, ◌≡◌, refl,
  eq_iff, arith, present,
}
use artic_trader.Dict.{Dict, get, put}
use artic_trader.Trading.Float.{FloatOps}
use artic_trader.Limits.Bucket.{TokenBucket, take, one_more, takes}
use artic_trader.Limits.Counter.{
  Limiter, add_one, count_of, count_agent, counted, check_and_count, serve, total,
}

total-put :
    (d : Dict ℕ) (id : String) → total (put d id (suc (count_of (get d id)))) ≡ suc (total d)
unfolding total put get
total-put [] id = ground arith
total-put ((j, n) ∷ d) id = ground (arith, eq_iff j id, total-put d id)

total-count_agent : (a : Option String) (d : Dict ℕ) → total (count_agent a d) ≤ suc (total d)
unfolding add_one
total-count_agent none d = ground arith
total-count_agent (some id) d = ground (arith, total-put d id)

module _ {A : Type 0} ⦃o : FloatOps A⦄ where
  -- Whoever calls `check_and_count` and when, the bucket is that of the same calls of `take` at cost 1,
  -- and the counts by agent grow together by at most the number of those that it granted.
  pub serve-takes :
      (calls : List (A × Option String)) (l : Limiter A)
      → ((serve calls l).bucket ≡ (takes (o.lit 1) (map (λ c. c.0) calls) l.bucket).1)
        × (total (serve calls l).agent_counts
            ≤ total l.agent_counts + (takes (o.lit 1) (map (λ c. c.0) calls) l.bucket).0)
  unfolding serve takes check_and_count
  serve-takes [] l = (refl, ground arith)
  serve-takes ((now, a) ∷ calls) l = after (take (o.lit 1) now l.bucket) (serve-takes calls)
    where
      after :
          (p : Bool × TokenBucket A)
          → ((m : Limiter A)
              → ((serve calls m).bucket ≡ (takes (o.lit 1) (map (λ c. c.0) calls) m.bucket).1)
                × (total (serve calls m).agent_counts
                    ≤ total m.agent_counts + (takes (o.lit 1) (map (λ c. c.0) calls) m.bucket).0))
          → ((serve calls (counted a l.agent_counts p).1).bucket
              ≡ (takes (o.lit 1) (map (λ c. c.0) calls) p.1).1)
            × (total (serve calls (counted a l.agent_counts p).1).agent_counts
                ≤ total l.agent_counts
                  + one_more p.0 (takes (o.lit 1) (map (λ c. c.0) calls) p.1).0)
      after (false, b) ih = ih _
      after (true, b) ih =
          let (same, bound) =
            ih (record { bucket = b; agent_counts = count_agent (present a) l.agent_counts }) in
          let grown = total-count_agent (present a) l.agent_counts in
          (same, ground (arith, bound, grown))
