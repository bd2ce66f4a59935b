-- ===== src/Vm/Provider.antt =====
-- hub/vm/provider.py: the protocol of a machine provider, with the other outside calls of the
-- service. They are parameters: each takes the world as it is and returns it as the call leaves it. The
-- model is of a provider that keeps to the protocol and raises nothing but `VMProviderError`; an error
-- of its HTTP client that it lets through would escape a wake or a drain, and is not followed.
use artic_trader.Prelude.{ℕ, ◌+◌, ◌≤◌, String, Bool, Option, List}
use artic_trader.Prelude.Exec.{Result}

-- `VMProviderError`, the one exception that the service catches by its class.
pub data VmProviderError : Type 0 where
  raised : VmProviderError

pub record VmHandle : Type 0 where
  pub vm_id : String
  pub endpoint : String
  pub snapshot_id : Option String

-- `eth_account.Account.create()`
pub record Account : Type 0 where
  pub address : String
  pub key : String

abbrev pub Call : Type 0 → Type 0 → Type 0
Call W A = W → Result VmProviderError A × W

pub record Provider (W : Type 0) : Type 0 where
  pub start : String → Call W VmHandle
  pub configure_wake_on_http : String → Call W Unit
  pub launch_user_server : String → String → String → List (String × String) → Call W String
  pub snapshot : String → Call W String
  pub stop : String → Call W Unit
  pub health : String → W → Bool × W
  pub get_status : String → Call W (Option String)
  -- `secrets_push`: its exceptions are caught and logged, so it only moves the world
  pub secrets_push : Option (String → String → W → W)
  pub create_account : W → Account × W
  -- the event loop's clock in milliseconds, the wall clock, and `asyncio.sleep`
  pub now : W → ℕ
  pub utc_now : W → ℕ
  pub sleep : ℕ → W → W

-- What the health poll relies on: a sleep lasts at least as long as asked, and the event loop's
-- clock never goes back while a health request is out.
pub record IsTimed {W : Type 0} (p : Provider W) : Type 0 where
  pub sleep_lasts : (d : ℕ) (w : W) → p.now w + d ≤ p.now (p.sleep d w)
  pub health_forward : (e : String) (w : W) → p.now w ≤ p.now (p.health e w).1

-- `settings` and the process environment, as far as the service reads them.
pub record Settings : Type 0 where
  pub golden_snapshot_id : String
  pub internal_secret : String
  pub image_tag : String
  pub wake_timeout : ℕ
  pub getenv : String → Option String
