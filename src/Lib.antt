-- ===== src/Lib.antt =====
-- The development models ten parts of artic-trader, a service that runs trading agents.
--
-- The hub gives each user one virtual machine. `VMService` (hub/vm/service.py) wakes it when a
-- request comes, drains it when it is idle, and keeps a registry in memory beside the table
-- `user_vms`; its proxy (hub/proxy) passes the requests of a user on to the machine. On the
-- machine, the user server (user-server/user_server) runs each agent in a container of its own
-- (agents/), checks and loads the strategies that users write (strategies/), replays them over
-- past candles (backtest/), takes what the agents push, and sends transactions again with more gas
-- (chain/). In the container, the trading engine (app/engine.py) reads prices, asks a strategy for
-- a signal, and opens and closes a paper position (app/executor/paper.py), which it reports and
-- logs on-chain.
--
-- Prelude holds what the parts share: Prelude/Exec is the monad of methods that change an object
-- and may raise, with what was written before a raise left written; Prelude/Triples are its pre-
-- and postconditions; Prelude/Results are exceptions without a state. Dict is Python's dict with
-- text keys, and a table that is read by a unique key.
--
-- Vm: State are the records of hub/vm/registry.py, hub/db/models/user_vm.py and user.py; Provider
-- is hub/vm/provider.py with the other outside calls; Registry are `set_status` and the
-- `_persist_*` helpers; Start is `_start_or_resume`, with `ensure_wallet` of
-- hub/wallet/service.py; Service are the operations of `VMService`. The wake lock makes a wake of
-- a user one step. Vm/Registry/Agree, Vm/Start/Waking and the modules below Vm/Service hold the
-- proofs. The health poll runs on fuel, one round for each half second of the timeout and two
-- more; Vm/Service/Polling shows that to be enough.
--
-- Proxy: Forward is hub/proxy/forwarder.py and Dispatch hub/proxy/middleware.py, with the balance
-- of hub/wallet/service.py in wei; the state is the hub of Vm and the list of what was sent. The
-- HTTP client, the text functions, JWT, sha256 and the node are parameters. Stripped, Served,
-- Passage and Gate hold the proofs.
--
-- Trading: Float is the arithmetic, an instance argument, since there are no floats here; Paper is
-- app/executor/paper.py; Session, Compute, Actions, Loop and Start are app/engine.py, with
-- `compute_amount` of app/executor/pancake_executor_stub.py. An engine's reports, orders and log
-- lines are events of a list, in the order in which they are made; the texts of reasons and lines
-- are left out; a log line on-chain is the call to write it, whether the logger is enabled or
-- fails or not. The loop runs for a given number of rounds. Trading/Actions/Ledger,
-- Trading/Actions/Balance, Closing and Inverted, Trading/Loop/Steps, Alternation and Stopping, and
-- Trading/Start/Stable and Begun hold the proofs.
--
-- Signals: Series is what app/strategies/quant_algos does with lists of prices, slices with
-- negative indices included; Reversion is mean_reversion_algos.py there, Momentum the part of
-- momentum_algos.py on prices, Trend its part on candles with volatility_algos.py, Volume
-- volume_algos.py with smart_money.py, Statistical statistical_algos.py with meth_rwa.py. Fallback
-- and Dispatch are app/strategies/signals.py, where a chain of tests on the name is a list of
-- cases; Engine puts its `compute_strategy_signal` in the place of the loop's parameter. The texts
-- of the details are left out. `x ** 0.5`, `math.sqrt`, `x ** 2` and `text.lower().strip()` are
-- parameters. Chosen, Range, Warmup, Bounded, CandleBounds, Limits and Default hold the proofs;
-- Trading/Clamp has the bounds that they share with Strategies.
--
-- Market: State are the rows of hub/db/models/strategy.py; Library and Listings are
-- hub/strategies/router.py and hub/marketplace/router.py, one request after another on one set of
-- tables, and Serve any sequence of the requests that write. A commit fails where it breaks a key,
-- and is then rolled back. The user server that validates, the contracts and the mint are
-- parameters. Counts, Rules, Copies, Installs, Owned and Again hold the proofs.
--
-- Agents: State are agents/registry.py and the row of db/models/agent.py; Containers is
-- agents/spawner.py; Rows, Health and Service are agents/service.py. The wait for a healthy
-- container counts half seconds, so its fifteen seconds are thirty probes. Push is
-- agents/push_router.py with the tables that it writes, without the times of their rows.
-- Agents/Counting, Pushed, and Agents/Service/Spared, Capacity and Stopping hold the proofs.
--
-- Backtest: Metrics is backtest/metrics.py, Orders and Replay are backtest/engine.py; Begun and
-- Bounds hold the proofs.
--
-- Auth: State are the rows of hub/db/models/auth_session_key.py and user.py; Session is
-- hub/auth/session.py and deps.py, with the checks of a request apart from the write of its nonce,
-- since other requests may be served between them; Endpoints are those of hub/auth/router.py that
-- a session key guards, and the row that a sign-in adds; SignIn is the wallet sign-in of router.py
-- and service.py, on these tables and those of Vm, whose `provision_for_user` it calls. Checks,
-- Keys, Lasting, Replay, Entitled, Revoked and Once hold the proofs.
--
-- Strategies: Sandbox is strategies/sandbox.py over syntax trees of named nodes; Loader, Tick and
-- Run are strategies/runner.py, with strategies/builtins.py; Cache is strategies/cache.py, each of
-- its two locked parts a step; Simulated joins Tick to the backtest engine as its default
-- `tick_fn`, for strategies that do not write to the dicts of their context; Publish is
-- strategies/publish_router.py. Python is the parameter of all of them: its parser and compiler,
-- `exec`, RestrictedPython, sha256 and the user's code. Of the errors' texts the fixed part is
-- kept. The walk of a tree runs on fuel, one round for each node. Walk, Clean, Sound, Fallback,
-- Recency, History, Threads, Published, Ranges and Refusals hold the proofs. That no two sources
-- share a sha256 is a named hypothesis where it is used.
--
-- Limits: Bucket is the token bucket of user_server/llm/rate_limit.py, and Counter its
-- `check_and_count`, each call with its reading of the clock; Rate and Counted hold the proofs, in
-- whole numbers instead of floats.
--
-- Chain: Retry is chain/retry.py, where the attempts left are the recursion's number, and Attempts
-- holds the proofs. The modules named Tests hold runs on concrete inputs.
--
-- Parameters, which stand for code outside the repository or for calls over a network: the machine
-- provider, the clock, the database's commits (which succeed, but for the keys of Market and
-- Agents/Push), docker, the HTTP client, `json`, the environment, the price and candle feeds, the
-- strategy's signal, the supervisor's verdict, `math`. The clock has one named hypothesis,
-- `IsTimed`: a sleep lasts as long as asked, and the clock does not go back during a health
-- request.
--
-- Not modelled: the LLM planner but its default plan, the sizing and time filters that the engine
-- does not call, the HTTP routers but those of publishing, pushes, sign-in, strategies and
-- marketplace, the indexers, the chain's signer, the database schemas and migrations, the front
-- ends and the contracts.
pub mod Prelude
pub mod Dict
pub mod Strategies
pub mod Vm
pub mod Trading
pub mod Signals
pub mod Agents
pub mod Auth
pub mod Backtest
pub mod Chain
pub mod Limits
pub mod Market
pub mod Proxy
