-- ===== src/Agents/Service.antt =====
-- user-server/user_server/agents/service.py: the start and the stop of an agent. A row that is loaded
-- is the one object of its session, so a function that returns the agent returns nothing here. A start is
-- one step, without the requests that may be served while it waits, and the state after a raise is the
-- one before the database session is rolled back.
pub mod Spared
pub mod Capacity
pub mod Stopping
use artic_trader.Prelude.{
  ℕ, String, false, Option, none, some, List, [], ◌∷◌, leb, present, if◌then◌else◌,
}
use artic_trader.Prelude.Exec.{Result, ok, err, pure, raise, gets, ◌>>=◌, ◌>>◌}
use artic_trader.Prelude.Results.{lift}
use artic_trader.Dict.{Dict, get}
use artic_trader.Agents.State.{
  AgentStatus, stopped, starting, alive, stopping, Agent, LiveState, AgentError, draining, too_many,
  unhealthy, put_live, remove_live, get_live, live_count,
}
use artic_trader.Agents.Containers.{
  Container, Docker, Config, Step, container_name, build_env, calm, spawn, stop_spawned,
}
use Prim.Native.String.{◌++◌ as ◌<>◌}
use artic_trader.Agents.Rows.{get_agent, set, change, list_all}
use artic_trader.Agents.Health.{wait_healthy, probes}

-- The fields that are set once the container runs.
abbrev pub placed : {J : Type 0} → String → Agent J → Agent J
placed id a = record a { container_id = some id; port = some 8000 }

abbrev pub live_state : Container → ℕ → LiveState
live_state container at = record {
  container_id = container.id;
  container_name = container.name;
  port = 8000;
  started_at = at;
  last_heartbeat = none;
}

module _ {J : Type 0} (c : Config J) where
  -- rp.get(key, default)
  abbrev pub param : Dict J → String → J → J
  param rp key default = elim (get rp key) [ none ↦ default | some v ↦ v ]

  unfoldable pub payload : Agent J → Dict J
  payload agent =
      let rp = agent.risk_params in
      ("symbol", c.text agent.symbol)
      ∷ ("amount_usdt", param rp "amount_usdt" (c.number 100))
      ∷ ("leverage", param rp "leverage" (c.number 1))
      ∷ ("poll_seconds", param rp "poll_seconds" (c.number 5))
      ∷ ("tp_pct", param rp "tp_pct" c.null)
      ∷ ("sl_pct", param rp "sl_pct" c.null)
      ∷ ("risk_profile", param rp "risk_profile" (c.text "moderate"))
      ∷ ("primary_timeframe", param rp "primary_timeframe" (c.text "15m"))
      ∷ ("live_mode", c.no)
      ∷ ("tp_sl_mode", param rp "tp_sl_mode" (c.text "fixed"))
      ∷ ("supervisor_interval_seconds", param rp "supervisor_interval" (c.number 60))
      ∷ ("llm_provider", c.text agent.llm_provider)
      ∷ []

  -- secrets_cache.get(key) or os.getenv(key)
  abbrev pub secret : Dict String → String → Option String
  secret secrets key = elim (present (secrets_get secrets key)) [
    | none ↦ c.getenv key
    | some v ↦ some v
  ]
    where
      secrets_get : Dict String → String → Option String
      secrets_get d k = get d k

module _ {J W : Type 0} where
  -- `except Validation`: the registry forgets the container before the error goes on.
  abbrev pub forget_unhealthy : String → Result AgentError String → Step J W String
  forget_unhealthy agent_id (err unhealthy) = do change (remove_live agent_id); raise unhealthy
  forget_unhealthy agent_id r = lift r

  abbrev pub attempt : {B : Type 0} → Step J W B → Step J W (Result AgentError B)
  attempt m s = let (r, s') = m s in (ok r, s')

module _ {J W : Type 0} (d : Docker J W) (c : Config J) where
  -- From the spawn to the healthy container.
  unfoldable pub bring_up : String → Agent J → Dict String → Step J W String
  unfolding build_env
  bring_up agent_id agent secrets = do
    container ← spawn d agent_id (
        build_env c agent_id agent (secret c secrets "GEMINI_API_KEY")
          (secret c secrets "TWELVE_DATA_API_KEY") (secret c secrets "OWNER_INIT_NAME"))
    at ← gets (λ s. d.now s.world)
    change (put_live agent_id (live_state container at))
    set agent_id (placed container.id)
    base ←
        attempt (
          wait_healthy d probes ("http://" <> (container_name agent_id <> ":8000")) false container)
    forget_unhealthy agent_id base

  unfoldable pub launch : String → Agent J → Step J W Unit
  unfolding payload
  launch agent_id agent = do
    set agent_id (λ a. record a { status = starting })
    secrets ← gets (λ s. s.secrets)
    base ← bring_up agent_id agent secrets
    calm (λ w. (tt, d.post_start base (payload c agent) w))
    set agent_id (λ a. record a { status = alive })

  abbrev pub start_row : String → Agent J → AgentStatus → ℕ → Step J W Unit
  start_row agent_id agent alive count = pure tt
  start_row agent_id agent _ count =
      if leb c.max_agents count then raise too_many else launch agent_id agent

  unfoldable pub start : String → Step J W Unit
  unfolding get_agent
  start agent_id = do
    accepting ← gets (λ s. s.accepting_starts)
    if accepting
        then (do
          agent ← get_agent agent_id
          count ← gets (λ s. live_count s.agents)
          start_row agent_id agent agent.status count)
        else raise draining

  abbrev pub container_of : Option LiveState → Agent J → Option String
  container_of none agent = agent.container_id
  container_of (some state) agent = some state.container_id

  abbrev pub stop_container : Option String → Step J W Unit
  stop_container none = pure tt
  stop_container (some cid) = stop_spawned d cid

  unfoldable pub shut_down : String → Agent J → Step J W Unit
  shut_down agent_id agent = do
    set agent_id (λ a. record a { status = stopping })
    state ← gets (get_live agent_id)
    stop_container (present (container_of state agent))
    change (remove_live agent_id)
    set agent_id (λ a. record a { status = stopped; container_id = none; port = none })

  abbrev pub stop_row : String → Agent J → AgentStatus → Step J W Unit
  stop_row agent_id agent stopped = pure tt
  stop_row agent_id agent stopping = pure tt
  stop_row agent_id agent _ = shut_down agent_id agent

  unfoldable pub stop : String → Step J W Unit
  unfolding get_agent
  stop agent_id = do agent ← get_agent agent_id; stop_row agent_id agent agent.status

  -- `a.status != "alive"` is read when the loop reaches the row.
  abbrev pub start_one : String → AgentStatus → Step J W Unit
  start_one agent_id alive = pure tt
  start_one agent_id _ = start agent_id

  abbrev pub start_each : List String → Step J W Unit
  start_each [] = pure tt
  start_each (k ∷ ks) = do agent ← get_agent k; start_one k agent.status; start_each ks

  unfoldable pub start_all : Step J W Unit
  unfolding list_all
  start_all = do ks ← gets (λ s. list_all s.agents); start_each ks

  abbrev pub stop_each : List String → Step J W Unit
  stop_each [] = pure tt
  stop_each (k ∷ ks) = do stop k; stop_each ks

  unfoldable pub stop_all : Step J W Unit
  unfolding list_all
  stop_all = do ks ← gets (λ s. list_all s.agents); stop_each ks
