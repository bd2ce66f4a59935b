-- ===== src/Agents/Service/Capacity.antt =====
-- user-server/user_server/agents/service.py: the limit on the agents that run.
use mathlib.Core.Path.{subst}
use artic_trader.Prelude.{
  ℕ, ◌≤◌, ◌<◌, String, ◌≡◌, refl, sym, ◌∙◌, Bool, true, false, Option, none, some, List, [], ◌∷◌,
  arith, leb, if◌then◌else◌,
}
use artic_trader.Prelude.Exec.{
  Result, Keeps, keeps_rules, Keeps-bind, Keeps-gets, Keeps-if, Keeps-pure, Keeps-raise, gets,
  raise, continue, ◌>>=◌,
}
use artic_trader.Prelude.Triples.{Triple, Triple-end, Triple-bind, Keeps→Triple}
use artic_trader.Dict.{Dict, get}
use artic_trader.Agents.State.{
  AgentStatus, stopped, starting, alive, stopping, error, Agent, LiveState, AgentError, draining,
  too_many, Server, put_live, assign_row, live_count,
}
use artic_trader.Agents.Containers.{calm, Container, Docker, Config, Step, spawn}
use artic_trader.Agents.Health.{wait_healthy, probes}
use artic_trader.Agents.Rows.{list_all, found, get_agent, set, change}
use artic_trader.Agents.Service.{
  payload, attempt, forget_unhealthy, placed, start_row, start_one, start, launch, bring_up,
  start_all, start_each,
}
use artic_trader.Agents.Counting.{
  IsSome, runs, count-assign, count-assign_same, count-assign_live, runs-assign, starting_runs,
}
use artic_trader.Agents.Service.Spared.{
  calm-IsRows, put-IsRows, spawn-IsRows, wait_healthy-IsRows, attempt-IsRows, forget-IsRows, spared,
}

-- At most `MAX_AGENTS` rows are alive or starting.
pub record IsWithin {J : Type 0} (c : Config J) (rows : Dict (Agent J)) : Type 0 where
  pub within : live_count rows ≤ c.max_agents

-- While an agent is brought up, its own row is one of them.
pub record IsComing {J : Type 0} (c : Config J) (id : String) (rows : Dict (Agent J)) : Type 0 where
  pub within : live_count rows ≤ c.max_agents
  pub coming : runs (get rows id) ≡ true

module _ {J W : Type 0} (d : Docker J W) (c : Config J) where
  placed-IsComing :
      (id cid : String) → Keeps (λ (s : Server J W). IsComing c id s.agents) (set id (placed cid))
  unfolding assign_row
  placed-IsComing id cid = record {
    at = λ s w. record {
      within = omega (arith, count-assign_same s.agents id (placed cid) (λ a. refl), w.within);
      coming = runs-assign s.agents id (placed cid) (λ a. refl) ∙ w.coming;
    };
  }

  spawn-IsComing :
      (id : String) (env : Dict String)
      → Keeps (λ (s : Server J W). IsComing c id s.agents) (spawn d id env)
  spawn-IsComing id env =
      spared (IsComing c id) (spawn d id env) (λ rows. spawn-IsRows rows d id env)

  put-IsComing :
      (id : String) (state : LiveState)
      → Keeps (λ (s : Server J W). IsComing c id s.agents) (change (put_live id state))
  put-IsComing id state =
      spared (IsComing c id) (change (put_live id state)) (λ rows. put-IsRows rows id state)

  health-IsComing :
      (id base : String) (container : Container)
      → Keeps
          (λ (s : Server J W). IsComing c id s.agents)
          (attempt (wait_healthy d probes base false container))
  health-IsComing id base container =
      spared (IsComing c id) (attempt (wait_healthy d probes base false container)) (λ rows.
        attempt-IsRows rows (wait_healthy d probes base false container)
          (wait_healthy-IsRows rows d probes base false container))

  forget-IsComing :
      (id : String) (r : Result AgentError String)
      → Keeps (λ (s : Server J W). IsComing c id s.agents) (forget_unhealthy id r)
  forget-IsComing id r =
      spared (IsComing c id) (forget_unhealthy id r) (λ rows. forget-IsRows rows id r)

  bring_up-IsComing :
      (id : String) (agent : Agent J) (secrets : Dict String)
      → Keeps (λ (s : Server J W). IsComing c id s.agents) (bring_up d c id agent secrets)
  unfolding bring_up
  bring_up-IsComing id agent secrets =
      search
        (
          keeps_rules, spawn-IsComing, put-IsComing, placed-IsComing, health-IsComing,
          forget-IsComing,
        )
        depth 30

  post-IsComing :
      (id : String) (call : W → Unit {0} × W)
      → Keeps (λ (s : Server J W). IsComing c id s.agents) (calm call)
  post-IsComing id call = spared (IsComing c id) (calm call) (λ rows. calm-IsRows rows call)

  -- The row counts before it is alive, so its last assignment counts nothing new.
  alive-IsWithin :
      (id : String)
      → Triple
          (λ (s : Server J W). IsComing c id s.agents)
          (set id (λ a. record a { status = alive }))
          (λ _ s. IsWithin c s.agents)
          (λ s. IsWithin c s.agents)
  unfolding assign_row
  alive-IsWithin id = record {
    at = λ s w. record {
      within = omega (
        arith,
        count-assign_live s.agents id (λ a. record a { status = alive }) w.coming,
        w.within,
      );
    };
  }

  -- A start under the limit.
  starting-IsComing :
      (id : String)
      → Triple
          (λ (s : Server J W). (live_count s.agents < c.max_agents) × IsSome (get s.agents id))
          (set id (λ a. record a { status = starting }))
          (λ _ s. IsComing c id s.agents)
          (λ s. IsWithin c s.agents)
  unfolding assign_row
  starting-IsComing id = record {
    at = λ s w. record {
      within = omega (arith, count-assign s.agents id (λ a. record a { status = starting }), w.0);
      coming = starting_runs s.agents id w.1;
    };
  }

  launch-IsWithin :
      (id : String) (agent : Agent J)
      → Triple
          (λ (s : Server J W). (live_count s.agents < c.max_agents) × IsSome (get s.agents id))
          (launch d c id agent)
          (λ _ s. IsWithin c s.agents)
          (λ s. IsWithin c s.agents)
  unfolding launch
  launch-IsWithin id agent = Triple-bind _ _ (starting-IsComing id) (λ _.
      Triple-bind (gets (λ s. s.secrets)) _
        (Keeps→Triple (gets (λ s. s.secrets)) (Keeps-gets (λ s. s.secrets)) weaken)
        (λ secrets.
          Triple-bind (bring_up d c id agent secrets) _
            (Keeps→Triple (bring_up d c id agent secrets) (bring_up-IsComing id agent secrets)
              weaken)
            (λ base.
              Triple-bind (calm (post base)) _
                (Keeps→Triple (calm (post base)) (post-IsComing id (post base)) weaken)
                (λ _. alive-IsWithin id))))
    where
      weaken : (s : Server J W) → IsComing c id s.agents → IsWithin c s.agents
      weaken s h = record { within = h.within }

      post : String → W → Unit {0} × W
      post base w = (tt, d.post_start base (payload c agent) w)

  leb-lt : (m n : ℕ) → leb m n ≡ false → n < m
  leb-lt m n h = ground arith

  limited-IsWithin :
      (id : String) (agent : Agent J) (s : Server J W) (b : Bool)
      → leb c.max_agents (live_count s.agents) ≡ b
      → IsSome (get s.agents id)
      → IsWithin c s.agents
      → IsWithin c ((if b then raise too_many else launch d c id agent) s).1.agents
  limited-IsWithin id agent s true e h w = w
  limited-IsWithin id agent s false e h w =
      Triple-end (λ (s : Server J W). IsWithin c s.agents) (launch d c id agent)
        (launch-IsWithin id agent) s (leb-lt c.max_agents (live_count s.agents) e, h)

  start_row-IsWithin :
      (id : String) (agent : Agent J) (status : AgentStatus) (s : Server J W)
      → IsSome (get s.agents id)
      → IsWithin c s.agents
      → IsWithin c (start_row d c id agent status (live_count s.agents) s).1.agents
  start_row-IsWithin id agent alive s h w = w
  start_row-IsWithin id agent stopped s h w = limited-IsWithin id agent s _ refl h w
  start_row-IsWithin id agent starting s h w = limited-IsWithin id agent s _ refl h w
  start_row-IsWithin id agent stopping s h w = limited-IsWithin id agent s _ refl h w
  start_row-IsWithin id agent error s h w = limited-IsWithin id agent s _ refl h w

  start_found : String → Step J W Unit
  start_found id = do
    agent ← get_agent id
    count ← gets (λ s. live_count s.agents)
    start_row d c id agent agent.status count

  start_found-IsWithin :
      (id : String) → Keeps (λ (s : Server J W). IsWithin c s.agents) (start_found id)
  unfolding start_found get_agent
  start_found-IsWithin id = record { at = λ s w. by_row s (get s.agents id) refl w }
    where
      by_row :
          (s : Server J W) (o : Option (Agent J))
          → get s.agents id ≡ o
          → IsWithin c s.agents
          → IsWithin c
              (continue
                (found o)
                (λ agent.
                  gets (λ s. live_count s.agents)
                  >>= (λ count. start_row d c id agent agent.status count))
                s).1.agents
      by_row s none e w = w
      by_row s (some agent) e w =
          start_row-IsWithin id agent agent.status s (subst IsSome (sym e) tt) w

  starting-IsWithin : (id : String) → Keeps (λ (s : Server J W). IsWithin c s.agents) (start d c id)
  unfolding start start_found
  starting-IsWithin id = record {
    at = λ s w.
        (Keeps-if s.accepting_starts (start_found id) (raise draining) (start_found-IsWithin id)
            (Keeps-raise draining)).at
          s w;
  }

  got-IsWithin : (id : String) → Keeps (λ (s : Server J W). IsWithin c s.agents) (get_agent id)
  unfolding get_agent
  got-IsWithin id = record { at = λ s w. w }

  start_one-IsWithin :
      (id : String) (status : AgentStatus)
      → Keeps (λ (s : Server J W). IsWithin c s.agents) (start_one d c id status)
  start_one-IsWithin id alive = Keeps-pure tt
  start_one-IsWithin id stopped = starting-IsWithin id
  start_one-IsWithin id starting = starting-IsWithin id
  start_one-IsWithin id stopping = starting-IsWithin id
  start_one-IsWithin id error = starting-IsWithin id

  start_each-IsWithin :
      (ids : List String) → Keeps (λ (s : Server J W). IsWithin c s.agents) (start_each d c ids)
  start_each-IsWithin [] = Keeps-pure tt
  start_each-IsWithin (k ∷ ks) = Keeps-bind (get_agent k) _ (got-IsWithin k) (λ agent.
      Keeps-bind (start_one d c k agent.status) (λ _. start_each d c ks)
        (start_one-IsWithin k agent.status) (λ _. start_each-IsWithin ks))

  -- A start that begins with at most `max_agents` rows alive or starting leaves at most as many,
  -- whether it returns or raises.
  pub start-IsWithin :
      (id : String) (s : Server J W) → IsWithin c s.agents → IsWithin c (start d c id s).1.agents
  start-IsWithin id s w = (starting-IsWithin id).at s w

  -- Starting all agents with at most `max_agents` rows alive or starting leaves at most as many; it
  -- ends at the first start that raises.
  pub start_all-IsWithin :
      (s : Server J W) → IsWithin c s.agents → IsWithin c (start_all d c s).1.agents
  unfolding start_all
  start_all-IsWithin s w = (start_each-IsWithin (list_all s.agents)).at s w
