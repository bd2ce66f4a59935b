-- ===== src/Vm/Service.antt =====
-- hub/vm/service.py: `VMService`. A wake runs under the user's lock, so it is one step here; so is
-- each of the other operations.
pub mod Sync
pub mod Polling
pub mod Outcome
pub mod Draining
use mathlib.Core.Option
use mathlib.Core.List.{foldl}
use artic_trader.Prelude.{
  ℕ, zero, suc, ◌+◌, ◌/◌, String, Bool, true, false, Option, none, some, ltb, present,
  if◌then◌else◌,
}
use artic_trader.Prelude.Exec.{Exec, Result, ok, err, pure, ◌>>=◌, ◌>>◌}
use artic_trader.Dict.{get, put}
use artic_trader.Vm.State.{
  Status, stopped, waking, draining, error, VmState, UserVm, row_state, Hub,
}
use artic_trader.Vm.Provider.{VmProviderError, VmHandle, Provider, Settings}
use artic_trader.Vm.Registry.{set_status, update_row, mark, persist_running, finish_drain}
use artic_trader.Vm.Start.{cleanup, start_or_resume, outside}

pub data WakeResult : Type 0 where
  running pending failed : WakeResult

-- How the health poll ends.
pub data Poll : Type 0 where
  healthy deadline_passed out_of_fuel : Poll

-- `state.status == "running" and state.endpoint`
abbrev pub is_up : VmState → Bool
is_up s = elim s.status [
  | Status.running ↦ elim (present s.endpoint) [ none ↦ false | some _ ↦ true ]
  | _ ↦ false
]

module _ {W : Type 0} (p : Provider W) (c : Settings) where
  -- `while time() < deadline: if await health: break; await sleep(0.5)`, with its `else`
  unfoldable pub poll : ℕ → ℕ → String → W → Poll × W
  poll zero deadline endpoint w = (out_of_fuel, w)
  poll (suc fuel) deadline endpoint w = elim (ltb (p.now w) deadline) [
    | false ↦ (deadline_passed, w)
    | true ↦
        let (up, w') = p.health endpoint w in
        elim up [ true ↦ (healthy, w') | false ↦ poll fuel deadline endpoint (p.sleep 500 w') ]
  ]

  -- One round for each half second of the timeout, and one that finds the deadline passed.
  abbrev pub poll_fuel : ℕ
  poll_fuel = suc (c.wake_timeout / 500 + 1)

  abbrev push_secrets : String → String → W → W
  push_secrets user_id endpoint w = elim p.secrets_push [
    | none ↦ w
    | some push ↦ push user_id endpoint w
  ]

  -- The end of a wake whose machine is up.
  unfoldable pub finish_wake : String → VmHandle → Hub W → Hub W
  unfolding set_status persist_running
  finish_wake user_id handle h =
      let w = push_secrets user_id handle.endpoint h.world in
      let at = p.utc_now w in
      persist_running user_id handle.vm_id handle.endpoint at (
        set_status user_id Status.running
          (λ s. record s {
            provider_vm_id = some handle.vm_id;
            endpoint = some handle.endpoint;
            last_active_at = some at;
          })
          (record h { world = w }))

  -- The loop's `else` keeps the status "waking"; the client retries.
  unfoldable pub polled : String → VmHandle → Poll → Hub W → WakeResult × Hub W
  polled user_id handle healthy h = (WakeResult.running, finish_wake user_id handle h)
  polled user_id handle _ h = (WakeResult.pending, h)

  unfoldable pub await_health : String → VmHandle → Hub W → WakeResult × Hub W
  await_health user_id handle h =
      let (ended, w) = poll poll_fuel (p.now h.world + c.wake_timeout) handle.endpoint h.world in
      polled user_id handle ended (record h { world = w })

  unfoldable pub after_start : String → Result VmProviderError VmHandle → Hub W → WakeResult × Hub W
  after_start user_id (ok handle) h = await_health user_id handle h
  after_start user_id (err _) h = (WakeResult.failed, mark user_id error (cleanup p c user_id h))

  unfoldable pub cold_wake : String → Hub W → WakeResult × Hub W
  cold_wake user_id h =
      let (started, h') = start_or_resume p c user_id (mark user_id waking h) in
      after_start user_id started h'

  unfoldable pub wake_state : String → Option VmState → Hub W → WakeResult × Hub W
  wake_state user_id none h = (WakeResult.failed, h)
  wake_state user_id (some state) h =
      if is_up state then (WakeResult.running, h) else cold_wake user_id h

  unfoldable pub wake : String → Hub W → WakeResult × Hub W
  unfolding wake_state
  wake user_id h = wake_state user_id (get h.registry user_id) h

  unfoldable pub touch : String → Hub W → Hub W
  unfolding set_status update_row
  touch user_id h =
      let at = p.utc_now h.world in
      update_row user_id (λ r. record r { last_active_at = some at })
        (set_status user_id Status.running (λ s. record s { last_active_at = some at }) h)

  -- `provider.snapshot` and then `provider.stop`; the name of the snapshot if both succeed
  unfoldable pub snapshot_and_stop : String → Exec (Hub W) VmProviderError String
  snapshot_and_stop vm_id = do
    new_snapshot ← outside p c (p.snapshot vm_id)
    outside p c (p.stop vm_id)
    pure new_snapshot

  unfoldable pub drained : String → Result VmProviderError String → Hub W → Bool × Hub W
  drained user_id (ok new_snapshot) h = (true, finish_drain user_id new_snapshot h)
  drained user_id (err _) h = (false, mark user_id error h)

  unfoldable pub drain_machine : String → Option String → Hub W → Bool × Hub W
  drain_machine user_id none h = (false, h)
  drain_machine user_id (some vm_id) h =
      let (done, h') = snapshot_and_stop vm_id (mark user_id draining h) in drained user_id done h'

  unfoldable pub drain : String → Hub W → Bool × Hub W
  unfolding drain_machine
  drain user_id h =
      drain_machine user_id (Option.bind (get h.registry user_id) (λ state. state.provider_vm_id)) h

  abbrev pub new_row : String → UserVm
  new_row user_id = record {
    user_id = user_id;
    provider_vm_id = none;
    endpoint = none;
    status = stopped;
    last_active_at = none;
    image_tag = some c.image_tag;
    wallet_address = none;
    snapshot_id = none;
  }

  unfoldable pub provision_row : String → Option UserVm → Hub W → UserVm × Hub W
  provision_row user_id (some existing) h = (existing, h)
  provision_row user_id none h = (
    new_row user_id,
    record h {
      vms = put h.vms user_id (new_row user_id);
      registry = put h.registry user_id (row_state (new_row user_id));
    },
  )

  unfoldable pub provision_for_user : String → Hub W → UserVm × Hub W
  unfolding provision_row
  provision_for_user user_id h = provision_row user_id (get h.vms user_id) h

  -- Every row goes into the registry, under its own user.
  unfoldable pub hydrate : Hub W → Hub W
  hydrate h = record h {
    registry = foldl (λ reg e. put reg e.1.user_id (row_state e.1)) h.registry h.vms;
  }
