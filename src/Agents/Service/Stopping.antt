-- ===== src/Agents/Service/Stopping.antt =====
-- user-server/user_server/agents/service.py: what a stop leaves behind.
use mathlib.Core.Option
use mathlib.Core.Path.{subst}
use artic_trader.Prelude.{
  sym, ◌∙◌, true, String, ◌≡◌, refl, present, Option, none, some, arith, eq_iff,
}
use artic_trader.Prelude.Exec.{continue, ok, Keeps, gets, Keeps-gets}
use artic_trader.Prelude.Triples.{Post, Post-ok, Triple, Triple-bind, Keeps→Triple}
use artic_trader.Dict.{Dict, get, remove, assign, get-remove, get-assign}
use artic_trader.Agents.State.{
  AgentStatus, alive, starting, error, is_live, stopped, stopping, Agent, Server, remove_live,
  get_live, assign_row,
}
use artic_trader.Agents.Containers.{Docker, Config, stop_spawned}
use artic_trader.Agents.Counting.{IsSome}
use artic_trader.Agents.Rows.{found, get_agent, set, change}
use artic_trader.Agents.Service.{stop, stop_row, shut_down, stop_container, container_of}
use artic_trader.Agents.Service.Spared.{spared, stop_spawned-IsRows}

-- The agent is stopped, and has no container.
abbrev pub IsStopped : {J : Type 0} → Option (Agent J) → Type 0
IsStopped none = ⊥
IsStopped (some a) = (a.status ≡ stopped) × (a.container_id ≡ none) × (a.port ≡ none)

abbrev Runs : {J : Type 0} → Option (Agent J) → Type 0
Runs none = ⊥
Runs (some a) = is_live a.status ≡ true

abbrev Anything : {S : Type 0} → S → Type 0
Anything s = Unit {0}

get-removed : {V : Type 0} (d : Dict V) (k : String) → get (remove d k) k ≡ none
get-removed d k = ground (arith, get-remove d k k, eq_iff k k)

module _ {J : Type 0} where
  get-assigned :
      (d : Dict (Agent J)) (k : String) (f : Agent J → Agent J)
      → get (assign d k f) k ≡ Option.map f (get d k)
  get-assigned d k f = ground (arith, get-assign d k k f, eq_iff k k)

  mapped : (o : Option (Agent J)) (f : Agent J → Agent J) → IsSome o → IsSome (Option.map f o)
  mapped none f h = h
  mapped (some a) f h = tt

  cleared : Agent J → Agent J
  cleared a = record a { status = stopped; container_id = none; port = none }

  mapped_cleared : (o : Option (Agent J)) → IsSome o → IsStopped (Option.map cleared o)
  unfolding cleared
  mapped_cleared none h = h
  mapped_cleared (some a) h = (refl, refl, refl)

module _ {J W : Type 0} (id : String) where
  abbrev Known : Server J W → Type 0
  Known s = IsSome (get s.agents id)

  record IsForgotten (s : Server J W) : Type 0 where
    known : IsSome (get s.agents id)
    forgotten : get s.registry id ≡ none

  -- The agent is stopped without a container, and the registry has no entry for it.
  pub record IsDown (s : Server J W) : Type 0 where
    pub row : IsStopped (get s.agents id)
    pub forgotten : get s.registry id ≡ none

  marks : Keeps Known (set id (λ a. record a { status = stopping }))
  unfolding assign_row
  marks = record {
    at = λ s h.
        rw (get-assigned s.agents id (λ a. record a { status = stopping }))
          (mapped (get s.agents id) (λ a. record a { status = stopping }) h);
  }

  forgets : Triple Known (change (remove_live id)) (λ a. IsForgotten) Anything
  unfolding remove_live
  forgets = record { at = λ s h. record { known = h; forgotten = get-removed s.registry id } }

  clears :
      Triple IsForgotten
        (set id (λ a. record a { status = stopped; container_id = none; port = none }))
        (λ a. IsDown)
        Anything
  unfolding assign_row cleared
  clears = record {
    at = λ s h. record {
      row = rw (get-assigned s.agents id cleared) (mapped_cleared (get s.agents id) h.known);
      forgotten = h.forgotten;
    };
  }

module _ {J W : Type 0} (d : Docker J W) (c : Config J) (id : String) where
  stop_container-Known :
      (cid : Option String) → Keeps (λ (s : Server J W). Known id s) (stop_container d c cid)
  stop_container-Known none = record { at = λ s h. h }
  stop_container-Known (some cid) =
      spared (λ rows. IsSome (get rows id)) (stop_spawned d cid)
        (λ rows. stop_spawned-IsRows rows d cid)

  shut_down-IsDown :
      (agent : Agent J) → Triple (Known id) (shut_down d c id agent) (λ a. IsDown id) Anything
  unfolding shut_down
  shut_down-IsDown agent = Triple-bind _ _ (Keeps→Triple _ (marks id) anyway) (λ _.
      Triple-bind (gets (get_live id)) _
        (Keeps→Triple (gets (get_live id)) (Keeps-gets (get_live id)) anyway)
        (λ state.
          Triple-bind (stop_container d c (present (container_of d c state agent))) _
            (Keeps→Triple (stop_container d c (present (container_of d c state agent)))
              (stop_container-Known (present (container_of d c state agent))) anyway)
            (λ _. Triple-bind (change (remove_live id)) _ (forgets id) (λ _. clears id))))
    where
      anyway : (s : Server J W) → Known id s → Anything s
      anyway s h = tt

  stop_row-IsDown :
      (agent : Agent J) (status : AgentStatus)
      → is_live status ≡ true
      → Triple (Known id) (stop_row d c id agent status) (λ a. IsDown id) Anything
  stop_row-IsDown agent alive e = shut_down-IsDown agent
  stop_row-IsDown agent starting e = shut_down-IsDown agent
  stop_row-IsDown agent stopped e = cc
  stop_row-IsDown agent stopping e = cc
  stop_row-IsDown agent error e = cc

  -- A stop of an agent that is alive or starting, once it returns, leaves the row stopped without a
  -- container and a port, and the registry without an entry for the agent.
  pub stop-IsDown :
      (s : Server J W) (agent : Agent J)
      → get s.agents id ≡ some agent
      → is_live agent.status ≡ true
      → (stop d c id s).0 ≡ ok tt
      → IsDown id (stop d c id s).1
  unfolding stop get_agent
  stop-IsDown s agent e live returned =
      Post-ok (IsDown id) Anything _ _ (by_row (get s.agents id) refl) returned
    where
      by_row :
          (o : Option (Agent J))
          → get s.agents id ≡ o
          → Post
              (λ a. IsDown id)
              Anything
              (continue (found o) (λ agent. stop_row d c id agent agent.status) s)
      by_row none q = tt
      by_row (some a) q =
          (stop_row-IsDown a a.status (subst Runs (sym e ∙ q) live)).at s (subst IsSome (sym q) tt)
