-- ===== src/Agents/Health.antt =====
-- user-server/user_server/agents/service.py: `_wait_healthy`.
use artic_trader.Prelude.{
  ℕ, zero, suc, String, Bool, true, false, Option, none, some, List, [], ◌∷◌, ◌==◌, present,
  if◌then◌else◌,
}
use artic_trader.Prelude.Exec.{pure, raise, ◌>>=◌, ◌>>◌}
use artic_trader.Agents.State.{unhealthy, outside_error}
use artic_trader.Agents.Containers.{
  Container, Probe, answered, unreachable, broken, Docker, Step, calm,
}
use Prim.Native.String.{◌++◌ as ◌<>◌}

-- The first address that is there.
unfoldable pub first_ip : List (Option String) → Option String
first_ip [] = none
first_ip (ip ∷ ips) = elim (present ip) [ none ↦ first_ip ips | some a ↦ some a ]

module _ {J W : Type 0} (d : Docker J W) where
  -- The base and whether the fallback was taken, after a refused connection.
  abbrev pub fall_back : String → Option (List (Option String)) → String × Bool
  fall_back base none = (base, false)
  fall_back base (some ips) = elim (first_ip ips) [
    | none ↦ (base, false)
    | some ip ↦ ("http://" <> (ip <> ":8000"), true)
  ]

  -- `none` is a healthy container; else the base and the flag of the next probe.
  abbrev pub answer : String → Bool → Container → Probe → Step J W (Option (String × Bool))
  answer base tried container (answered code) =
      pure (if code == 200 then none else some (base, tried))
  answer base true container unreachable = pure (some (base, true))
  answer base false container unreachable = do
    ips ← calm (d.addresses container)
    pure (some (fall_back base ips))
  answer base tried container broken = raise outside_error

  abbrev pub go_on :
      String → (String → Bool → Step J W String) → Option (String × Bool) → Step J W String
  go_on base again none = pure base
  go_on base again (some (base', tried)) = do calm (λ w. (tt, d.sleep_half w)); again base' tried

  -- `elapsed` counts half seconds, so fifteen seconds are thirty probes.
  unfoldable pub wait_healthy : ℕ → String → Bool → Container → Step J W String
  wait_healthy zero base tried container = raise unhealthy
  wait_healthy (suc n) base tried container = do
    p ← calm (d.probe (base <> "/health"))
    next ← answer base tried container p
    go_on base (λ b t. wait_healthy n b t container) next

abbrev pub probes : ℕ
probes = 30
