-- ===== src/Limits/Counter.antt =====
-- check_and_count of user-server/user_server/llm/rate_limit.py, on the module's bucket
-- and its counts by agent.
use artic_trader.Prelude.{
  ℕ, suc, ◌+◌, String, Bool, true, false, Option, none, some, List, [], ◌∷◌, present,
}
use artic_trader.Prelude.Exec.{Result, ok, err, Exec}
use artic_trader.Dict.{Dict, get, put}
use artic_trader.Trading.Float.{FloatOps}
use artic_trader.Limits.Bucket.{TokenBucket, take}

pub record RateLimited : Type 0 where
  pub message : String

pub record Limiter (A : Type 0) : Type 0 where
  pub bucket : TokenBucket A
  pub agent_counts : Dict ℕ

-- A defaultdict(int) at a key.
abbrev pub count_of : Option ℕ → ℕ
count_of none = 0
count_of (some n) = n

unfoldable pub add_one : Dict ℕ → String → Dict ℕ
add_one d id = put d id (suc (count_of (get d id)))

abbrev pub count_agent : Option String → Dict ℕ → Dict ℕ
count_agent none d = d
count_agent (some id) d = add_one d id

module _ {A : Type 0} ⦃o : FloatOps A⦄ where
  abbrev pub counted :
      Option String → Dict ℕ → Bool × TokenBucket A → Result RateLimited Unit × Limiter A
  counted agent_id d (false, b) = (
    err (record { message = "LLM proxy: 60/min per VM exceeded" }),
    record { bucket = b; agent_counts = d },
  )
  counted agent_id d (true, b) =
      (ok tt, record { bucket = b; agent_counts = count_agent (present agent_id) d })

  -- check_and_count at a reading of the clock
  unfoldable pub check_and_count : A → Option String → Exec (Limiter A) RateLimited Unit
  check_and_count now agent_id l = counted agent_id l.agent_counts (take (o.lit 1) now l.bucket)

  -- The limiter after these calls, each at its reading of the clock.
  unfoldable pub serve : List (A × Option String) → Limiter A → Limiter A
  serve [] l = l
  serve ((now, agent_id) ∷ calls) l = serve calls (check_and_count now agent_id l).1

-- The counts of all agents together.
unfoldable pub total : Dict ℕ → ℕ
total [] = 0
total ((id, n) ∷ d) = n + total d
