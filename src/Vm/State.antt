-- ===== src/Vm/State.antt =====
-- hub/vm/registry.py, hub/db/models/user_vm.py, hub/db/models/user.py: what the hub keeps of a
-- user's machine, in memory and in the database.
use artic_trader.Prelude.{ℕ, String, Option}
use artic_trader.Dict.{Dict}

pub data Status : Type 0 where
  stopped waking running draining error : Status

pub record VmState : Type 0 where
  pub user_id : String
  pub provider_vm_id : Option String
  pub endpoint : Option String
  pub status : Status
  pub last_active_at : Option ℕ

-- A row of the table `user_vms`, whose key for every query is the unique `user_id`.
pub record UserVm : Type 0 where
  pub user_id : String
  pub provider_vm_id : Option String
  pub endpoint : Option String
  pub status : Status
  pub last_active_at : Option ℕ
  pub image_tag : Option String
  pub wallet_address : Option String
  pub snapshot_id : Option String

-- What the hub reads and writes of a row of `users`.
pub record User : Type 0 where
  pub id : String
  pub api_key_hash : Option String
  pub chain_address : Option String
  pub chain_privkey : Option String

-- `VMState(user_id=row.user_id, …)`, as `hydrate` builds it.
abbrev pub row_state : UserVm → VmState
row_state r = record {
  user_id = r.user_id;
  provider_vm_id = r.provider_vm_id;
  endpoint = r.endpoint;
  status = r.status;
  last_active_at = r.last_active_at;
}

-- The registry, the two tables, and the world outside: the provider, the chain and the clock.
pub record Hub (W : Type 0) : Type 0 where
  pub registry : Dict VmState
  pub vms : Dict UserVm
  pub users : Dict User
  pub world : W
