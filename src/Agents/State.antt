-- ===== src/Agents/State.antt =====
-- user-server/user_server/agents/registry.py, and the `Agent` row of db/models/agent.py.
use artic_trader.Prelude.{
  ℕ, zero, suc, String, Bool, true, false, Option, List, [], ◌∷◌, if◌then◌else◌,
}
use artic_trader.Dict.{Dict, get, put, remove, assign}

pub data AgentStatus : Type 0 where
  stopped starting alive stopping error : AgentStatus

-- `J` is what `json` makes of a column.
pub record Agent (J : Type 0) : Type 0 where
  pub name : String
  pub symbol : String
  pub llm_provider : String
  pub llm_model : String
  pub strategy_pool : List J
  pub risk_params : Dict J
  pub container_id : Option String
  pub port : Option ℕ
  pub status : AgentStatus

pub record LiveState : Type 0 where
  pub container_id : String
  pub container_name : String
  pub port : ℕ
  pub started_at : ℕ
  pub last_heartbeat : Option ℕ

-- Why a call raises: `NotFound`, the four uses of `Validation`, or what a library raises.
pub data AgentError : Type 0 where
  not_found draining too_many running unhealthy outside_error : AgentError

pub record Server (J W : Type 0) : Type 0 where
  pub agents : Dict (Agent J)
  pub registry : Dict LiveState
  pub accepting_starts : Bool
  pub secrets : Dict String
  pub world : W

module _ {J W : Type 0} where
  unfoldable pub put_live : String → LiveState → Server J W → Server J W
  put_live agent_id state s = record s { registry = put s.registry agent_id state }

  unfoldable pub remove_live : String → Server J W → Server J W
  remove_live agent_id s = record s { registry = remove s.registry agent_id }

  abbrev pub get_live : String → Server J W → Option LiveState
  get_live agent_id s = get s.registry agent_id

  -- An assignment to the row of an agent.
  unfoldable pub assign_row : String → (Agent J → Agent J) → Server J W → Server J W
  assign_row agent_id f s = record s { agents = assign s.agents agent_id f }

-- Agent.status.in_(("alive", "starting"))
abbrev pub is_live : AgentStatus → Bool
is_live alive = true
is_live starting = true
is_live _ = false

-- select(func.count()) of the live agents
unfoldable pub live_count : {J : Type 0} → Dict (Agent J) → ℕ
live_count [] = zero
live_count ((k, a) ∷ d) = let rest = live_count d in if is_live a.status then suc rest else rest
