-- ===== src/Vm/Tests.antt =====
-- Runs of hub/vm/service.py on a provider whose world is the clock.
use mathlib.Core.Option
use artic_trader.Prelude.{ℕ, ◌+◌, leb, ◌≡◌, refl, none, some, [], ◌∷◌, arith, eq_iff}
use artic_trader.Prelude.Exec.{ok}
use artic_trader.Dict.{get, modify}
use artic_trader.Vm.State.{Status, stopped, VmState, UserVm, row_state, Hub}
use artic_trader.Vm.Provider.{Provider, IsTimed, Settings}
use artic_trader.Vm.Registry.Agree.{IsSynced}
use artic_trader.Vm.Service.{
  WakeResult, poll, poll_fuel, wake_state, cold_wake, after_start, await_health, polled,
  finish_wake, wake, touch, drain,
}
use artic_trader.Vm.Start.{start_or_resume, start_row, fresh_start, launch_env}
use artic_trader.Vm.Registry.{
  persist_vm_id, persist_endpoint, persist_running, mark, set_status, persist_status, update_row,
}
use artic_trader.Vm.Service.Sync.{wake-IsSynced, drain-IsSynced}
use artic_trader.Vm.Service.Polling.{Ends, poll-Ends}
use artic_trader.Vm.Service.Outcome.{Outcome, StaysUp, wake_outcome}
use artic_trader.Vm.Service.Draining.{touch_desync}

-- Every call succeeds, and a machine is healthy from the two thousandth millisecond on.
abbrev cloud : Provider ℕ
cloud = record {
  start = λ snapshot w.
      (ok (record { vm_id = "vm-1"; endpoint = ""; snapshot_id = some snapshot }), w + 10);
  configure_wake_on_http = λ vm w. (ok tt, w + 1);
  launch_user_server = λ vm u t env w. (ok "http://vm-1", w + 10);
  snapshot = λ vm w. (ok "snap-1", w + 5);
  stop = λ vm w. (ok tt, w + 5);
  health = λ e w. (leb 2000 w, w + 1);
  get_status = λ vm w. (ok (some "ready"), w + 1);
  secrets_push = none;
  create_account = λ w. (record { address = "0x1"; key = "k" }, w);
  now = λ w. w;
  utc_now = λ w. w;
  sleep = λ d w. w + d;
}

cloud-IsTimed : IsTimed cloud
cloud-IsTimed = record { sleep_lasts = λ d w. omega arith; health_forward = λ e w. omega arith }

abbrev settings : Settings
settings = record {
  golden_snapshot_id = "golden";
  internal_secret = "secret";
  image_tag = "v1";
  wake_timeout = 5000;
  getenv = λ name. none;
}

abbrev row : UserVm
row = record {
  user_id = "ann";
  provider_vm_id = none;
  endpoint = none;
  status = stopped;
  last_active_at = none;
  image_tag = some "v1";
  wallet_address = none;
  snapshot_id = none;
}

abbrev up_row : UserVm
up_row = record row {
  provider_vm_id = some "vm-1";
  endpoint = some "http://vm-1";
  status = Status.running;
}

abbrev hub_of : UserVm → Hub ℕ
hub_of r = record {
  registry = ("ann", row_state r) ∷ [];
  vms = ("ann", r) ∷ [];
  users = [];
  world = 0;
}

hub_of-IsSynced : (r : UserVm) → IsSynced (hub_of r)
unfolding get
hub_of-IsSynced r = record { at = λ j. ground (arith, eq_iff "ann" j) }

wake-IsSynced_example : IsSynced (wake cloud settings "ann" (hub_of row)).1
wake-IsSynced_example = wake-IsSynced cloud settings "ann" (hub_of row) (hub_of-IsSynced row)

poll-Ends_example :
    Ends cloud settings cloud-IsTimed "http://vm-1" 5020
      (poll cloud settings (poll_fuel cloud settings) 5020 "http://vm-1" 20)
poll-Ends_example = poll-Ends cloud settings cloud-IsTimed "http://vm-1" 20

not_up : StaysUp (get (hub_of row).registry "ann")
unfolding get
not_up = λ e. cc

wake_outcome_example :
    let (r, h') = wake cloud settings "ann" (hub_of row) in Outcome r (get h'.registry "ann")
wake_outcome_example = wake_outcome cloud settings "ann" (hub_of row) not_up

-- The entry after the wake.
abbrev woken : VmState
woken = record {
  user_id = "ann";
  provider_vm_id = some "vm-1";
  endpoint = some "http://vm-1";
  status = Status.running;
  last_active_at = some 2026;
}

wake_runs : (wake cloud settings "ann" (hub_of row)).0 ≡ WakeResult.running
unfolding wake wake_state cold_wake after_start await_health polled finish_wake poll start_or_resume
    start_row fresh_start launch_env persist_vm_id persist_endpoint persist_running mark set_status
    persist_status update_row get modify Option.bind
wake_runs = refl

wake_leaves : get (wake cloud settings "ann" (hub_of row)).1.registry "ann" ≡ some woken
unfolding wake wake_state cold_wake after_start await_health polled finish_wake poll start_or_resume
    start_row fresh_start launch_env persist_vm_id persist_endpoint persist_running mark set_status
    persist_status update_row get modify Option.bind
wake_leaves = refl

ann_there : get (hub_of up_row).registry "ann" ≡ some (row_state up_row)
unfolding get
ann_there = refl

ann_row : get (hub_of up_row).vms "ann" ≡ some up_row
unfolding get
ann_row = refl

stopped_there : get (hub_of row).registry "ann" ≡ some (row_state row)
unfolding get
stopped_there = refl

touch_desync_example : ¬ IsSynced (touch cloud settings "ann" (hub_of row))
touch_desync_example =
    touch_desync cloud settings "ann" (hub_of row) (hub_of-IsSynced row) stopped_there (λ e. cc)

drain-IsSynced_example : IsSynced (drain cloud settings "ann" (hub_of up_row)).1
drain-IsSynced_example =
    drain-IsSynced cloud settings "ann" (hub_of up_row) (hub_of-IsSynced up_row)
