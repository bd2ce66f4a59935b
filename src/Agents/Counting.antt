-- ===== src/Agents/Counting.antt =====
-- user-server/user_server/agents/service.py: the count of the live agents under the changes of a table.
use mathlib.Core.Option
use artic_trader.Prelude.{
  ◌≤◌, ◌+◌, String, ◌≡◌, refl, Bool, true, false, Option, none, some, [], ◌∷◌, arith, eq_iff,
}
use artic_trader.Dict.{Dict, get, put, remove, assign, get-assign}
use artic_trader.Agents.State.{starting, Agent, is_live, live_count}

abbrev pub IsSome : {A : Type 0} → Option A → Type 0
IsSome none = ⊥
IsSome (some a) = Unit {0}

-- Whether a row counts.
abbrev pub runs : {J : Type 0} → Option (Agent J) → Bool
runs none = false
runs (some a) = is_live a.status

module _ {J : Type 0} where
  pub count-assign :
      (d : Dict (Agent J)) (k : String) (f : Agent J → Agent J)
      → live_count (assign d k f) ≤ live_count d + 1
  unfolding live_count assign
  count-assign [] k f = omega arith
  count-assign ((j, a) ∷ d) k f = ground (arith, count-assign d k f)

  pub count-assign_dead :
      (d : Dict (Agent J)) (k : String) (f : Agent J → Agent J)
      → ((a : Agent J) → is_live (f a).status ≡ false)
      → live_count (assign d k f) ≤ live_count d
  unfolding live_count assign
  count-assign_dead [] k f h = omega arith
  count-assign_dead ((j, a) ∷ d) k f h = ground (arith, count-assign_dead d k f h, h a)

  pub count-assign_same :
      (d : Dict (Agent J)) (k : String) (f : Agent J → Agent J)
      → ((a : Agent J) → is_live (f a).status ≡ is_live a.status)
      → live_count (assign d k f) ≤ live_count d
  unfolding live_count assign
  count-assign_same [] k f h = omega arith
  count-assign_same ((j, a) ∷ d) k f h = ground (arith, count-assign_same d k f h, h a)

  pub count-assign_live :
      (d : Dict (Agent J)) (k : String) (f : Agent J → Agent J)
      → runs (get d k) ≡ true
      → live_count (assign d k f) ≤ live_count d
  unfolding live_count assign get
  count-assign_live [] k f l = omega arith
  count-assign_live ((j, b) ∷ d) k f l = ground (arith, count-assign_live d k f)

  pub count-remove : (d : Dict (Agent J)) (k : String) → live_count (remove d k) ≤ live_count d
  unfolding live_count remove
  count-remove [] k = omega arith
  count-remove ((j, a) ∷ d) k = ground (arith, count-remove d k)

  pub count-put :
      (d : Dict (Agent J)) (k : String) (a : Agent J)
      → is_live a.status ≡ false
      → live_count (put d k a) ≤ live_count d
  unfolding live_count put
  count-put [] k a h = ground (arith, h)
  count-put ((j, b) ∷ d) k a h = ground (arith, count-put d k a h, h)

  pub runs-assign :
      (d : Dict (Agent J)) (k : String) (f : Agent J → Agent J)
      → ((a : Agent J) → is_live (f a).status ≡ is_live a.status)
      → runs (get (assign d k f) k) ≡ runs (get d k)
  runs-assign d k f h = ground (arith, get-assign d k k f, eq_iff k k, runs-map (get d k) f h)
    where
      runs-map :
          (o : Option (Agent J)) (f : Agent J → Agent J)
          → ((a : Agent J) → is_live (f a).status ≡ is_live a.status)
          → runs (Option.map f o) ≡ runs o
      runs-map none f h = refl
      runs-map (some a) f h = h a

module _ {J : Type 0} where
  pub starting_runs :
      (d : Dict (Agent J)) (k : String)
      → IsSome (get d k)
      → runs (get (assign d k (λ a. record a { status = starting })) k) ≡ true
  starting_runs d k h = ground (
    arith,
    get-assign d k k (λ a. record a { status = starting }),
    eq_iff k k,
    runs_map (get d k) h,
  )
    where
      runs_map :
          (o : Option (Agent J))
          → IsSome o
          → runs (Option.map (λ (a : Agent J). record a { status = starting }) o) ≡ true
      runs_map none h = absurd h
      runs_map (some a) h = refl
