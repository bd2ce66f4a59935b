-- ===== src/Agents/Tests.antt =====
-- Runs of user-server/user_server/agents/service.py and push_router.py with room for two agents.
use artic_trader.Prelude.{◌≡◌, refl, ℕ, ◌+◌, String, Option, List, true, none, some, [], ◌∷◌, arith}
use artic_trader.Prelude.Exec.{ok}
use artic_trader.Agents.State.{
  assign_row, remove_live, AgentStatus, stopped, starting, alive, Agent, Server, live_count,
}
use artic_trader.Agents.Containers.{stop_spawned, answered, Docker, Config}
use artic_trader.Agents.Service.{stop, shut_down, start}
use artic_trader.Dict.{get, assign, remove}
use artic_trader.Agents.Rows.{get_agent}
use artic_trader.Agents.Service.Stopping.{IsDown, stop-IsDown}
use artic_trader.Agents.Service.Capacity.{IsWithin, start-IsWithin}
use artic_trader.Trading.Whole.{whole}
use artic_trader.Agents.Push.{Trade, Desk, push_status, push_trade, push_trades}
use artic_trader.Agents.Pushed.{IsLater, push_status-over, push_trades-kept}

abbrev docker : Docker String ℕ
docker = record {
  run = λ id name env w. (ok (record { id = id; name = name }), w + 1);
  find = λ id w. (true, w);
  stop_container = λ id w. (ok tt, w + 1);
  remove_container = λ id w. (ok tt, w + 1);
  addresses = λ c w. (some [], w);
  probe = λ url w. (answered 200, w);
  sleep_half = λ w. w + 500;
  post_start = λ base body w. w;
  now = λ w. w;
}

abbrev config : Config String
config = record {
  max_agents = 2;
  internal_secret = "secret";
  user_server_url = "http://localhost";
  getenv = λ key. none;
  dumps_list = λ xs. "[]";
  dumps = λ d. "{}";
  text = λ s. s;
  number = λ n. "0";
  null = "null";
  no = "false";
}

abbrev agent_at : AgentStatus → Agent String
agent_at status = record {
  name = "a";
  symbol = "BTCUSDT";
  llm_provider = "openai";
  llm_model = "gpt";
  strategy_pool = [];
  risk_params = [];
  container_id = none;
  port = none;
  status = status;
}

abbrev server : Server String ℕ
server = record {
  agents = ("a1", agent_at alive) ∷ ("a2", agent_at stopped) ∷ ("a3", agent_at stopped) ∷ [];
  registry = [];
  accepting_starts = true;
  secrets = [];
  world = 0;
}

server-IsWithin : IsWithin config server.agents
unfolding live_count
server-IsWithin = record { within = omega arith }

start-IsWithin_example : IsWithin config (start docker config "a2" server).1.agents
start-IsWithin_example = start-IsWithin docker config "a2" server server-IsWithin

a1_there : get server.agents "a1" ≡ some (agent_at alive)
unfolding get
a1_there = refl

stop_returns : (stop docker config "a1" server).0 ≡ ok tt
unfolding stop get_agent shut_down assign_row assign get remove_live remove stop_spawned
stop_returns = refl

stop-IsDown_example : IsDown "a1" (stop docker config "a1" server).1
stop-IsDown_example =
    stop-IsDown docker config "a1" server (agent_at alive) a1_there refl stop_returns

abbrev trade : String → Option ℕ → Option String → Trade ℕ
trade agent exit hash = record {
  agent_id = agent;
  side = "long";
  entry_price = 90;
  exit_price = exit;
  size_usdt = 50;
  leverage = 2;
  pnl_usdt = none;
  strategy = "breakout";
  strategy_hash = none;
  close_reason = none;
  tx_hash = hash;
  reasoning_cid = none;
}

abbrev opened : Trade ℕ
opened = trade "a1" none (some "0x1")

-- The first agent is alive and the third is starting, which makes two; the second is stopped.
abbrev desk : Desk ℕ String ℕ
desk = record {
  server = record server {
    agents = ("a1", agent_at alive) ∷ ("a2", agent_at stopped) ∷ ("a3", agent_at starting) ∷ [];
  };
  figures = [];
  trades = ("t1", opened) ∷ [];
  decisions = [];
  logs = [];
}

a2_stopped : get desk.server.agents "a2" ≡ some (agent_at stopped)
unfolding get
a2_stopped = refl

desk_full : live_count desk.server.agents ≡ config.max_agents
unfolding live_count
desk_full = refl

push_status-over_example :
    live_count
      (push_status ⦃o = whole⦄ "a2"
        record { price = 95; unrealized_pnl_usdt = none; active_strategy = none }
        7
        desk).1.server.agents
    ≡ 3
push_status-over_example =
    push_status-over ⦃o = whole⦄ config "a2"
      record { price = 95; unrealized_pnl_usdt = none; active_strategy = none } 7 desk
      (agent_at stopped) a2_stopped refl desk_full

t1_there : get desk.trades "t1" ≡ some opened
unfolding get
t1_there = refl

-- The trade is closed, and another of an unknown agent is refused.
abbrev bodies : List (String × Trade ℕ)
bodies = ("t1", trade "a1" (some 95) (some "0x2")) ∷ ("t2", trade "a9" none none) ∷ []

push_trades-kept_example :
    (t : Trade ℕ) × ((get (push_trades bodies desk).trades "t1" ≡ some t) × IsLater opened t)
push_trades-kept_example = push_trades-kept bodies desk "t1" opened t1_there

t1_closed : get (push_trades bodies desk).trades "t1" ≡ some (trade "a1" (some 95) (some "0x1"))
unfolding push_trades push_trade get assign
t1_closed = refl
