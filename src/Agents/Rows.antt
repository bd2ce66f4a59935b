-- ===== src/Agents/Rows.antt =====
-- user-server/user_server/agents/service.py: the rows of the agents.
use artic_trader.Prelude.{String, Bool, Option, none, some, List, [], ◌∷◌, ◌++◌, if◌then◌else◌}
use artic_trader.Prelude.Exec.{Result, ok, err, raise, ◌>>=◌}
use artic_trader.Dict.{Dict, get, put, remove}
use artic_trader.Agents.State.{
  stopped, Agent, AgentError, not_found, running, Server, assign_row, is_live,
}
use artic_trader.Agents.Containers.{Step}

module _ {J : Type 0} where
  -- The rows are kept in the order of their creation, and are listed the newest first.
  unfoldable pub list_all : Dict (Agent J) → List String
  list_all [] = []
  list_all ((k, a) ∷ d) = list_all d ++ k ∷ []

  abbrev pub found : Option (Agent J) → Result AgentError (Agent J)
  found none = err not_found
  found (some a) = ok a

module _ {J W : Type 0} where
  unfoldable pub set_accepting_starts : Bool → Step J W Unit
  set_accepting_starts value s = (ok tt, record s { accepting_starts = value })

  -- A fresh key is the database's; the defaults of the columns are the model's.
  unfoldable pub create :
      String → String → String → String → String → List J → Dict J → Step J W Unit
  create agent_id name symbol llm_provider llm_model strategy_pool risk_params s = (
    ok tt,
    record s {
      agents = put s.agents agent_id (record {
        name = name;
        symbol = symbol;
        llm_provider = llm_provider;
        llm_model = llm_model;
        strategy_pool = strategy_pool;
        risk_params = risk_params;
        container_id = none;
        port = none;
        status = stopped;
      });
    },
  )

  unfoldable pub get_agent : String → Step J W (Agent J)
  get_agent agent_id s = (found (get s.agents agent_id), s)

  unfoldable pub delete : String → Step J W Unit
  unfolding get_agent
  delete agent_id = do
    agent ← get_agent agent_id
    if is_live agent.status
        then raise running
        else (λ s. (ok tt, record s { agents = remove s.agents agent_id }))

  -- An assignment to the loaded row.
  abbrev pub set : String → (Agent J → Agent J) → Step J W Unit
  set agent_id f s = (ok tt, assign_row agent_id f s)

  abbrev pub change : (Server J W → Server J W) → Step J W Unit
  change f s = (ok tt, f s)
