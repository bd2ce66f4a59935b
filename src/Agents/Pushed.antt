-- ===== src/Agents/Pushed.antt =====
-- What the pushes of the agents leave: user-server/user_server/agents/push_router.py.
use artic_trader.Prelude.{
  ℕ, suc, String, str_eq, eq_iff, Bool-cases, inl, inr, false, Option, none, some, List, [], ◌∷◌,
  ◌≡◌, refl, ◌∙◌, ap, arith, present,
}
use artic_trader.Dict.{Dict, get, put, assign, get-assign, get-put}
use artic_trader.Trading.Float.{FloatOps}
use artic_trader.Agents.State.{alive, Agent, is_live, live_count, assign_row}
use artic_trader.Agents.Containers.{Config}
use artic_trader.Agents.Push.{
  StatusPush, Trade, Desk, touch, first_of, of_agent, closed, push_status, trade_row, push_trade,
  push_trades,
}

module _ {J : Type 0} where
  count-assign_new :
      (d : Dict (Agent J)) (k : String) (a : Agent J)
      → get d k ≡ some a
      → is_live a.status ≡ false
      → live_count (assign d k (λ a. record a { status = alive })) ≡ suc (live_count d)
  unfolding live_count assign get
  count-assign_new [] k a e h = cc
  count-assign_new ((j, b) ∷ d) k a e h = ground (arith, count-assign_new d k a, e, h)

module _ {A J W : Type 0} ⦃o : FloatOps A⦄ where
  -- A status push of an agent that is neither alive nor starting counts it as alive: with as many
  -- agents alive or starting as the limit allows, it goes past the limit.
  pub push_status-over :
      (c : Config J) (id : String) (body : StatusPush A) (now : ℕ) (d : Desk A J W) (a : Agent J)
      → get d.server.agents id ≡ some a
      → is_live a.status ≡ false
      → live_count d.server.agents ≡ c.max_agents
      → (live_count (push_status id body now d).1.server.agents ≡ suc c.max_agents)
  unfolding push_status assign_row touch
  push_status-over c id body now d a e h full =
      rw e (count-assign_new d.server.agents id a e h ∙ ap suc full)

first_of-kept :
    (old new : Option String) (h : String)
    → present old ≡ some h
    → present (first_of old new) ≡ some h
first_of-kept old new h e = rw (e, first_of) e

module _ {A : Type 0} where
  -- A later state of a trade: what it opened with is the same, and so are the hashes that it had.
  pub record IsLater (t t' : Trade A) : Type 0 where
    pub agent_id : t'.agent_id ≡ t.agent_id
    pub side : t'.side ≡ t.side
    pub entry_price : t'.entry_price ≡ t.entry_price
    pub size_usdt : t'.size_usdt ≡ t.size_usdt
    pub leverage : t'.leverage ≡ t.leverage
    pub strategy : t'.strategy ≡ t.strategy
    pub strategy_hash : t'.strategy_hash ≡ t.strategy_hash
    pub tx_hash : (h : String) → present t.tx_hash ≡ some h → present t'.tx_hash ≡ some h
    pub reasoning_cid :
        (h : String) → present t.reasoning_cid ≡ some h → present t'.reasoning_cid ≡ some h

  IsLater-refl : (t : Trade A) → IsLater t t
  IsLater-refl t = record {
    agent_id = refl;
    side = refl;
    entry_price = refl;
    size_usdt = refl;
    leverage = refl;
    strategy = refl;
    strategy_hash = refl;
    tx_hash = λ h e. e;
    reasoning_cid = λ h e. e;
  }

  IsLater-trans : {t u v : Trade A} → IsLater t u → IsLater u v → IsLater t v
  IsLater-trans p q = record {
    agent_id = q.agent_id ∙ p.agent_id;
    side = q.side ∙ p.side;
    entry_price = q.entry_price ∙ p.entry_price;
    size_usdt = q.size_usdt ∙ p.size_usdt;
    leverage = q.leverage ∙ p.leverage;
    strategy = q.strategy ∙ p.strategy;
    strategy_hash = q.strategy_hash ∙ p.strategy_hash;
    tx_hash = λ h e. q.tx_hash h (p.tx_hash h e);
    reasoning_cid = λ h e. q.reasoning_cid h (p.reasoning_cid h e);
  }

  closed-IsLater : (body t : Trade A) → IsLater t (closed body t)
  closed-IsLater body t = record {
    agent_id = refl;
    side = refl;
    entry_price = refl;
    size_usdt = refl;
    leverage = refl;
    strategy = refl;
    strategy_hash = refl;
    tx_hash = first_of-kept t.tx_hash body.tx_hash;
    reasoning_cid = first_of-kept t.reasoning_cid body.reasoning_cid;
  }

module _ {A J W : Type 0} where
  push_trade-kept :
      (id : String) (body : Trade A) (d : Desk A J W) (j : String) (t : Trade A)
      → get d.trades j ≡ some t
      → (t' : Trade A) × ((get (push_trade id body d).1.trades j ≡ some t') × IsLater t t')
  unfolding push_trade
  push_trade-kept id body d j t e = by_row (get d.trades id) refl
    where
      added :
          (o : Option (Agent J))
          → get d.server.agents body.agent_id ≡ o
          → get (put d.trades id body) j ≡ some t
          → (get (trade_row id body none d).1.trades j ≡ some t)
      added none a p = rw (a, trade_row, of_agent) e
      added (some agent) a p = rw (a, trade_row, of_agent) p

      by_row :
          (o : Option (Trade A))
          → get d.trades id ≡ o
          → (t' : Trade A) × ((get (trade_row id body o d).1.trades j ≡ some t') × IsLater t t')
      by_row none g = (
        t,
        (
          added (get d.server.agents body.agent_id) refl
              (ground (arith, get-put d.trades id j body, eq_iff id j, g, e)),
          IsLater-refl t,
        ),
      )
      by_row (some u) g = elim (Bool-cases (str_eq id j)) [
        | inl same ↦ (
          closed body t,
          (ground (arith, get-assign d.trades id j (closed body), same, e), closed-IsLater body t),
        )
        | inr other ↦
            (t, (ground (arith, get-assign d.trades id j (closed body), other, e), IsLater-refl t))
      ]

  -- However many trades are pushed afterwards, a trade that is there stays, with all that it opened
  -- with; its transaction hash and its reasoning id are not replaced once they are set.
  pub push_trades-kept :
      (bodies : List (String × Trade A)) (d : Desk A J W) (j : String) (t : Trade A)
      → get d.trades j ≡ some t
      → (t' : Trade A) × ((get (push_trades bodies d).trades j ≡ some t') × IsLater t t')
  unfolding push_trades
  push_trades-kept [] d j t e = (t, (e, IsLater-refl t))
  push_trades-kept ((id, body) ∷ bodies) d j t e =
      let (u, (g, p)) = push_trade-kept id body d j t e in
      let (v, (h, q)) = push_trades-kept bodies (push_trade id body d).1 j u g in
      (v, (h, IsLater-trans p q))
