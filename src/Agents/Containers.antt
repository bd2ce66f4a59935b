-- ===== src/Agents/Containers.antt =====
-- user-server/user_server/agents/spawner.py. Docker, the HTTP client, `json` and the environment
-- are parameters.
use artic_trader.Prelude.{
  ℕ, String, Bool, Option, none, some, List, [], ◌∷◌, ◌++◌, present, if◌then◌else◌,
}
use artic_trader.Prelude.Exec.{Result, ok, Exec, pure, ◌>>=◌, ◌>>◌}
use artic_trader.Prelude.Results.{lift}
use artic_trader.Dict.{Dict}
use artic_trader.Agents.State.{Agent, AgentError, Server}
use Prim.Native.String.{◌++◌ as ◌<>◌}

pub record Container : Type 0 where
  pub id : String
  pub name : String

-- What a probe of `/health` meets: an answer's status, a refused or timed out connection, or
-- another error of the client.
pub data Probe : Type 0 where
  answered : ℕ → Probe
  unreachable broken : Probe

-- Every docker call may raise; the `POST /start` may too, but then the caller only logs it.
pub record Docker (J W : Type 0) : Type 0 where
  pub run : String → String → Dict String → W → Result AgentError Container × W
  pub find : String → W → Bool × W
  pub stop_container : String → W → Result AgentError Unit × W
  pub remove_container : String → W → Result AgentError Unit × W
  -- `container.reload()` and the addresses of its networks; `none` where it raises
  pub addresses : Container → W → Option (List (Option String)) × W
  pub probe : String → W → Probe × W
  pub sleep_half : W → W
  pub post_start : String → Dict J → W → W
  pub now : W → ℕ

-- `str(uuid)` is the key itself.
pub record Config (J : Type 0) : Type 0 where
  pub max_agents : ℕ
  pub internal_secret : String
  pub user_server_url : String
  pub getenv : String → Option String
  pub dumps_list : List J → String
  pub dumps : Dict J → String
  pub text : String → J
  pub number : ℕ → J
  pub null : J
  pub no : J

abbrev pub Step : Type 0 → Type 0 → Type 0 → Type 0
Step J W B = Exec (Server J W) AgentError B

unfoldable pub container_name : String → String
container_name agent_id = "artic-agent-" <> agent_id

-- os.getenv(key) or default
abbrev pub or_else : Option String → String → String
or_else none default = default
or_else (some v) default = v

-- {key: v} if v else {}
abbrev pub entry : String → Option String → Dict String
entry key none = []
entry key (some v) = (key, v) ∷ []

unfoldable pub chain_env : (String → Option String) → List String → Dict String
chain_env getenv [] = []
chain_env getenv (key ∷ keys) = entry key (present (getenv key)) ++ chain_env getenv keys

abbrev pub chain_keys : List String
chain_keys =
    "ZERO_G_RPC_URL" ∷ "ZERO_G_PRIVATE_KEY" ∷ "ZERO_G_CHAIN_ID" ∷ "ZERO_G_EXPLORER_BASE"
    ∷ "ZERO_G_COMPUTE_SECRET" ∷ "ZERO_G_COMPUTE_PROVIDER" ∷ "ZERO_G_COMPUTE_SERVING_BROKER"
    ∷ "ZERO_G_STORAGE_INDEXER_URL" ∷ []

module _ {J : Type 0} (c : Config J) where
  unfoldable pub build_env :
      String → Agent J → Option String → Option String → Option String → Dict String
  unfolding chain_env
  build_env agent_id agent llm_api_key twelve_data_api_key owner_init_name =
      ("HUB_AGENT_ID", agent_id)
        ∷ ("SYMBOL", agent.symbol)
        ∷ ("USER_SERVER_URL", c.user_server_url)
        ∷ ("HUB_URL", c.user_server_url)
        ∷ ("INTERNAL_SECRET", c.internal_secret)
        ∷ ("STRATEGY_POOL", c.dumps_list agent.strategy_pool)
        ∷ ("LLM_PROVIDER", or_else (present (c.getenv "LLM_PROVIDER")) agent.llm_provider)
        ∷ ("LLM_MODEL", or_else (present (c.getenv "LLM_MODEL")) agent.llm_model)
        ∷ ("RISK_PARAMS", c.dumps agent.risk_params)
        ∷ entry "GEMINI_API_KEY" (present llm_api_key)
      ++ entry "TWELVE_DATA_API_KEY" (present twelve_data_api_key)
      ++ entry "OWNER_INIT_NAME" (present owner_init_name)
      ++ chain_env c.getenv chain_keys

module _ {J W : Type 0} where
  -- A call outside: it leaves the rows and the registry alone.
  abbrev pub outside : {B : Type 0} → (W → Result AgentError B × W) → Step J W B
  outside call s = let (r, w) = call s.world in (r, record s { world = w })

  abbrev pub calm : {B : Type 0} → (W → B × W) → Step J W B
  calm call s = let (b, w) = call s.world in (ok b, record s { world = w })

module _ {J W : Type 0} (d : Docker J W) where
  unfoldable pub spawn : String → Dict String → Step J W Container
  unfolding container_name
  spawn agent_id env = outside (d.run agent_id (container_name agent_id) env)

  -- `finally`: the container is removed whether or not it stopped, and its own error wins.
  abbrev pub finally_remove : String → Result AgentError Unit → Step J W Unit
  finally_remove container_id stopped = do outside (d.remove_container container_id); lift stopped

  unfoldable pub stop_spawned : String → Step J W Unit
  stop_spawned container_id = do
    found ← calm (d.find container_id)
    if found
        then (do
          stopped ← calm (d.stop_container container_id)
          finally_remove container_id stopped)
        else pure tt
