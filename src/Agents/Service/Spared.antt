-- ===== src/Agents/Service/Spared.antt =====
-- user-server/user_server/agents/service.py: the steps that leave the rows alone.
use mathlib.Core.Path.{subst}
use artic_trader.Prelude.{
  ℕ, zero, suc, String, ◌≡◌, refl, sym, Bool, true, false, Option, none, some,
}
use artic_trader.Prelude.Exec.{Result, ok, err, Keeps, keeps_rules, Keeps-pure, Keeps-raise}
use artic_trader.Prelude.Results.{Keeps-lift}
use artic_trader.Dict.{Dict}
use artic_trader.Agents.State.{
  Agent, LiveState, AgentError, not_found, draining, too_many, running, unhealthy, outside_error,
  Server, put_live, remove_live,
}
use artic_trader.Agents.Containers.{
  outside, calm, answered, unreachable, broken, Container, Probe, Docker, Step, spawn, stop_spawned,
}
use artic_trader.Agents.Health.{wait_healthy, answer, go_on}
use artic_trader.Agents.Rows.{change}
use artic_trader.Agents.Service.{attempt, forget_unhealthy}

-- The rows are `rows`: a step that keeps this, whatever they are, leaves them alone.
pub record IsRows {J W : Type 0} (rows : Dict (Agent J)) (s : Server J W) : Type 0 where
  pub same : s.agents ≡ rows

module _ {J W : Type 0} (rows : Dict (Agent J)) where
  pub outside-IsRows :
      {B : Type 0} (call : W → Result AgentError B × W) → Keeps (IsRows rows) (outside {J = J} call)
  outside-IsRows call = record { at = λ s h. record { same = h.same } }

  pub calm-IsRows : {B : Type 0} (call : W → B × W) → Keeps (IsRows rows) (calm {J = J} call)
  calm-IsRows call = record { at = λ s h. record { same = h.same } }

  pub put-IsRows :
      (id : String) (state : LiveState) → Keeps (IsRows {W = W} rows) (change (put_live id state))
  unfolding put_live
  put-IsRows id state = record { at = λ s h. record { same = h.same } }

  pub remove-IsRows : (id : String) → Keeps (IsRows {W = W} rows) (change (remove_live id))
  unfolding remove_live
  remove-IsRows id = record { at = λ s h. record { same = h.same } }

  pub stop_spawned-IsRows :
      (d : Docker J W) (cid : String) → Keeps (IsRows rows) (stop_spawned d cid)
  unfolding stop_spawned
  stop_spawned-IsRows d cid = search (keeps_rules, calm-IsRows, outside-IsRows, Keeps-lift) depth 20

  pub spawn-IsRows :
      (d : Docker J W) (id : String) (env : Dict String) → Keeps (IsRows rows) (spawn d id env)
  unfolding spawn
  spawn-IsRows d id env = outside-IsRows (d.run id _ env)

  pub answer-IsRows :
      (d : Docker J W) (base : String) (tried : Bool) (container : Container) (p : Probe)
      → Keeps (IsRows rows) (answer d base tried container p)
  answer-IsRows d base tried container (answered code) = Keeps-pure _
  answer-IsRows d base true container unreachable = Keeps-pure _
  answer-IsRows d base false container unreachable = search (keeps_rules, calm-IsRows) depth 10
  answer-IsRows d base tried container broken = Keeps-raise outside_error

  pub go_on-IsRows :
      (d : Docker J W) (base : String) (again : String → Bool → Step J W String)
      (next : Option (String × Bool))
      → ((b : String) (t : Bool) → Keeps (IsRows rows) (again b t))
      → Keeps (IsRows rows) (go_on d base again next)
  go_on-IsRows d base again none h = Keeps-pure base
  go_on-IsRows d base again (some (b, t)) h = search (keeps_rules, calm-IsRows, h) depth 10

  pub wait_healthy-IsRows :
      (d : Docker J W) (n : ℕ) (base : String) (tried : Bool) (container : Container)
      → Keeps (IsRows rows) (wait_healthy d n base tried container)
  unfolding wait_healthy
  wait_healthy-IsRows d zero base tried container = Keeps-raise unhealthy
  wait_healthy-IsRows d (suc n) base tried container =
      search (keeps_rules, calm-IsRows, answer-IsRows, go_on-IsRows, wait_healthy-IsRows d n) depth
        20

  pub attempt-IsRows :
      {B : Type 0} (m : Step J W B) → Keeps (IsRows rows) m → Keeps (IsRows rows) (attempt m)
  attempt-IsRows m k = record { at = k.at }

  pub forget-IsRows :
      (id : String) (r : Result AgentError String)
      → Keeps (IsRows {W = W} rows) (forget_unhealthy id r)
  forget-IsRows id (ok base) = Keeps-lift (ok base)
  forget-IsRows id (err unhealthy) = search (keeps_rules, remove-IsRows) depth 10
  forget-IsRows id (err not_found) = Keeps-lift (err not_found)
  forget-IsRows id (err draining) = Keeps-lift (err draining)
  forget-IsRows id (err too_many) = Keeps-lift (err too_many)
  forget-IsRows id (err running) = Keeps-lift (err running)
  forget-IsRows id (err outside_error) = Keeps-lift (err outside_error)

-- What holds of the rows holds after a step that leaves them alone.
pub spared :
    {J W B : Type 0} (Q : Dict (Agent J) → Type 0) (m : Step J W B)
    → ((rows : Dict (Agent J)) → Keeps (IsRows rows) m)
    → Keeps (λ s. Q s.agents) m
spared Q m k = record {
  at = λ s q. subst Q (sym ((k s.agents).at s (record { same = refl })).same) q;
}
