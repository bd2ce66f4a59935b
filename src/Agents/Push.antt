-- ===== src/Agents/Push.antt =====
-- user-server/user_server/agents/push_router.py: what the agents push. The times of the rows are left
-- out, and the rounding of a column to eight digits.
use Prim.Native.String.{◌++◌ as ◌<>◌}
use artic_trader.Prelude.{
  ℕ, String, Option, none, some, List, [], ◌∷◌, ◌++◌, length, present, if◌then◌else◌,
}
use artic_trader.Prelude.Exec.{Result, ok, err, Exec}
use artic_trader.Dict.{Dict, get, put, assign}
use artic_trader.Trading.Float.{FloatOps}
use artic_trader.Agents.State.{
  alive, Agent, AgentError, not_found, outside_error, Server, assign_row,
}

pub record StatusPush (A : Type 0) : Type 0 where
  pub price : A
  pub unrealized_pnl_usdt : Option A
  pub active_strategy : Option String

-- The columns of an agent that only its pushes write.
pub record Figures (A : Type 0) : Type 0 where
  pub current_strategy : Option String
  pub unrealized_pnl_usdt : Option A
  pub last_price : Option A

pub record Trade (A : Type 0) : Type 0 where
  pub agent_id : String
  pub side : String
  pub entry_price : A
  pub exit_price : Option A
  pub size_usdt : A
  pub leverage : ℕ
  pub pnl_usdt : Option A
  pub strategy : String
  pub strategy_hash : Option String
  pub close_reason : Option String
  pub tx_hash : Option String
  pub reasoning_cid : Option String

pub record Decision : Type 0 where
  pub agent_id : String
  pub action : String
  pub strategy : Option String
  pub reasoning : Option String
  pub tx_hash : Option String
  pub reasoning_cid : Option String

pub record LogRow : Type 0 where
  pub agent_id : String
  pub level : String
  pub message : String

pub record LogEntry : Type 0 where
  pub agent_id : Option String
  pub level : String
  pub message : String

-- The server's agents, and the tables of what they push.
pub record Desk (A J W : Type 0) : Type 0 where
  pub server : Server J W
  pub figures : Dict (Figures A)
  pub trades : Dict (Trade A)
  pub decisions : List Decision
  pub logs : List LogRow

-- registry.touch at a time
unfoldable pub touch : {J W : Type 0} → String → ℕ → Server J W → Server J W
touch agent_id now s = record s {
  registry = assign s.registry agent_id (λ l. record l { last_heartbeat = some now });
}

abbrev pub or_older : {X : Type 0} → Option X → Option X → Option X
or_older none old = old
or_older (some x) old = some x

abbrev pub or_empty : Option String → String
or_empty none = ""
or_empty (some s) = s

-- A hash that is there stays.
abbrev pub first_of : Option String → Option String → Option String
first_of old new = keep (present old)
  where
    keep : Option String → Option String
    keep none = or_older (present new) old
    keep (some h) = old

-- The rows of the entries: those without an agent are passed over. `uuid` raises at a wrong text.
unfoldable pub log_rows :
    (String → Option String) → Option String → List LogEntry → Result AgentError (List LogRow)
log_rows uuid fallback [] = ok []
log_rows uuid fallback (e ∷ es) = row (present e.agent_id) (log_rows uuid fallback es)
  where
    line : String → LogRow
    line aid = record { agent_id = aid; level = e.level; message = e.message }

    add : LogRow → Result AgentError (List LogRow) → Result AgentError (List LogRow)
    add r (ok rows) = ok (r ∷ rows)
    add r (err x) = err x

    given : Option String → Result AgentError (List LogRow) → Result AgentError (List LogRow)
    given none rest = err outside_error
    given (some aid) rest = add (line aid) rest

    row : Option String → Result AgentError (List LogRow) → Result AgentError (List LogRow)
    row none rest = elim fallback [ none ↦ rest | some aid ↦ add (line aid) rest ]
    row (some text) rest = given (uuid text) rest

module _ {A : Type 0} where
  abbrev pub closed : Trade A → Trade A → Trade A
  closed body t = record t {
    exit_price = body.exit_price;
    pnl_usdt = body.pnl_usdt;
    close_reason = body.close_reason;
    tx_hash = first_of t.tx_hash body.tx_hash;
    reasoning_cid = first_of t.reasoning_cid body.reasoning_cid;
  }

module _ {A : Type 0} ⦃o : FloatOps A⦄ where
  abbrev pub figured : StatusPush A → Figures A → Figures A
  figured body g = record {
    current_strategy = or_older (present body.active_strategy) g.current_strategy;
    unrealized_pnl_usdt = or_older body.unrealized_pnl_usdt g.unrealized_pnl_usdt;
    last_price = if o.lt (o.lit 0) body.price then some body.price else g.last_price;
  }

module _ {A J W : Type 0} ⦃o : FloatOps A⦄ where
  abbrev pub status_row :
      String → StatusPush A → ℕ → Option (Agent J) → Exec (Desk A J W) AgentError Unit
  status_row agent_id body now none d = (err not_found, d)
  status_row agent_id body now (some agent) d = (
    ok tt,
    record d {
      server = assign_row agent_id (λ a. record a { status = alive }) (touch agent_id now d.server);
      figures = assign d.figures agent_id (figured body);
    },
  )

  -- Nothing is committed if nothing has changed.
  unfoldable pub push_status : String → StatusPush A → ℕ → Exec (Desk A J W) AgentError Unit
  push_status agent_id body now d = status_row agent_id body now (get d.server.agents agent_id) d

module _ {A J W : Type 0} where
  -- A row whose agent is not in the table breaks its foreign key: the commit raises.
  abbrev pub of_agent :
      {X : Type 0} → String → Exec (Desk A J W) AgentError X → Exec (Desk A J W) AgentError X
  of_agent {X} id add d = there (get d.server.agents id)
    where
      there : Option (Agent J) → Result AgentError X × Desk A J W
      there none = (err outside_error, d)
      there (some agent) = add d

  abbrev pub trade_row : String → Trade A → Option (Trade A) → Exec (Desk A J W) AgentError String
  trade_row id body none d =
      of_agent body.agent_id (λ d. (ok id, record d { trades = put d.trades id body })) d
  trade_row id body (some t) d = (ok id, record d { trades = assign d.trades id (closed body) })

  -- A trade is added under its id, or closed.
  unfoldable pub push_trade : String → Trade A → Exec (Desk A J W) AgentError String
  push_trade id body d = trade_row id body (get d.trades id) d

  abbrev pub patch_row : String → String → Option (Trade A) → Exec (Desk A J W) AgentError String
  patch_row trade_id tx_hash none d = (err not_found, d)
  patch_row trade_id tx_hash (some t) d = (
    ok trade_id,
    record d { trades = assign d.trades trade_id (λ t. record t { tx_hash = some tx_hash }) },
  )

  unfoldable pub patch_trade_tx_hash : String → String → Exec (Desk A J W) AgentError String
  patch_trade_tx_hash trade_id tx_hash d = patch_row trade_id tx_hash (get d.trades trade_id) d

  -- One push after another.
  unfoldable pub push_trades : List (String × Trade A) → Desk A J W → Desk A J W
  push_trades [] d = d
  push_trades ((id, body) ∷ bodies) d = push_trades bodies (push_trade id body d).1

  unfoldable pub push_decision : Decision → Exec (Desk A J W) AgentError Unit
  push_decision body d =
      of_agent body.agent_id (λ d. (ok tt, record d { decisions = d.decisions ++ body ∷ [] })) d

  abbrev pub of_agents :
      {X : Type 0} → List LogRow → Exec (Desk A J W) AgentError X → Exec (Desk A J W) AgentError X
  of_agents [] add d = add d
  of_agents (r ∷ rows) add d = of_agent r.agent_id (of_agents rows add) d

  abbrev pub add_rows : Result AgentError (List LogRow) → Exec (Desk A J W) AgentError ℕ
  add_rows (err x) d = (err x, d)
  add_rows (ok rows) d =
      of_agents rows (λ d. (ok (length rows), record d { logs = d.logs ++ rows })) d

  unfoldable pub push_logs :
      (String → Option String) → Option String → List LogEntry → Exec (Desk A J W) AgentError ℕ
  push_logs uuid agent_id entries d = add_rows (log_rows uuid agent_id entries) d

  unfoldable pub push_supervisor :
      String → String → Option String → Exec (Desk A J W) AgentError Unit
  push_supervisor agent_id action detail d =
      of_agent agent_id (λ d. (ok tt, record d { logs = d.logs ++ row ∷ [] })) d
    where
      row : LogRow
      row = record {
        agent_id = agent_id;
        level = "supervisor";
        message = action <> (": " <> or_empty detail);
      }
