-- ===== src/Limits/Tests.antt =====
-- Calls at three readings of the clock, on a bucket of two tokens that gains one each second.
use artic_trader.Prelude.{ℕ, some, none, ◌+◌, ◌-◌, ◌*◌, ◌≤◌, [], ◌∷◌, ◌≡◌, refl, arith}
use artic_trader.Trading.Whole.{whole}
use artic_trader.Limits.Bucket.{new_bucket, take, takes}
use artic_trader.Dict.{get, put}
use artic_trader.Limits.Counter.{Limiter, check_and_count, add_one, serve}
use artic_trader.Limits.Rate.{takes-bounded}

three_calls : (takes ⦃o = whole⦄ 1 (5 ∷ 5 ∷ 5 ∷ []) (new_bucket ⦃o = whole⦄ 2 1 5)).0 ≡ 2
unfolding takes take new_bucket
three_calls = refl

takes-bounded_example :
    (takes ⦃o = whole⦄ 1 (50 ∷ 50 ∷ 50 ∷ 51 ∷ []) (new_bucket ⦃o = whole⦄ 2 1 5)).0 * 1
    ≤ 2
      + ((takes ⦃o = whole⦄ 1 (50 ∷ 50 ∷ 50 ∷ 51 ∷ []) (new_bucket ⦃o = whole⦄ 2 1 5)).1.last - 50)
        * 1
unfolding new_bucket
takes-bounded_example =
    takes-bounded 1 50 (50 ∷ 50 ∷ 51 ∷ []) (new_bucket ⦃o = whole⦄ 2 1 5)
      (omega arith, (omega arith, (omega arith, tt)))

abbrev limiter : Limiter ℕ
limiter = record {
  bucket = record { capacity = 2; refill_per_sec = 1; tokens = 2; last = 5 };
  agent_counts = [];
}

counts_one :
    (serve ⦃o = whole⦄ ((5, some "a") ∷ (5, none) ∷ (5, some "a") ∷ []) limiter).agent_counts
    ≡ ("a", 1) ∷ []
unfolding serve check_and_count take add_one get put
counts_one = refl
