-- ===== src/Vm/Service/Sync.antt =====
-- Waking, draining and signing up keep the registry and the table in step.
use mathlib.Core.Option
use artic_trader.Prelude.{Option, inl, inr, Bool-cases, String, refl, none, some, arith}
use artic_trader.Dict.{get, get-put}
use artic_trader.Vm.State.{draining, error, VmState, UserVm, row_state, Hub}
use artic_trader.Prelude.Exec.{Keeps, keeps_rules, Result, ok, err}
use artic_trader.Vm.Provider.{Call, VmProviderError, VmHandle, Provider, Settings}
use artic_trader.Vm.Service.{
  polled, wake_state, cold_wake, drained, provision_row, new_row, Poll, healthy, snapshot_and_stop,
  drain_machine, is_up, finish_wake, await_health, after_start, wake, drain, provision_for_user,
}
use artic_trader.Vm.Registry.Agree.{
  Agree-modify, IsSynced, IsWaking, mark-IsSynced, mark-IsWaking, clear_vm_mapping-IsWaking,
  persist_vm_id-IsWaking, persist_endpoint-IsWaking, IsWaking-frame, finish_drain-IsSynced,
}
use artic_trader.Vm.Start.{outside}
use artic_trader.Vm.Start.Waking.{IsKept, start_or_resume-kept, cleanup-kept}

module _ {W : Type 0} (p : Provider W) (c : Settings) (u : String) where
  IsWaking-kept : IsKept {W = W} u (IsWaking u)
  IsWaking-kept = record {
    frame = IsWaking-frame u;
    vm_id = persist_vm_id-IsWaking u;
    endpoint = persist_endpoint-IsWaking u;
    mapping = clear_vm_mapping-IsWaking u;
  }

  finish_wake-IsSynced :
      (handle : VmHandle) (h : Hub W) → IsSynced h → IsSynced (finish_wake p c u handle h)
  unfolding finish_wake
  finish_wake-IsSynced handle h a = Agree-modify h.registry h.vms u _ _ a (λ r e. refl)

  polled-IsSynced :
      (handle : VmHandle) (ended : Poll) (h : Hub W)
      → IsSynced h
      → IsSynced (polled p c u handle ended h).1
  unfolding polled
  polled-IsSynced handle healthy h a = finish_wake-IsSynced handle h a
  polled-IsSynced handle _ h a = a

  await_health-IsSynced :
      (handle : VmHandle) (h : Hub W) → IsSynced h → IsSynced (await_health p c u handle h).1
  unfolding await_health
  await_health-IsSynced handle h a = polled-IsSynced handle _ _ (record { at = a.at })

  after_start-IsSynced :
      (started : Result VmProviderError VmHandle) (h : Hub W)
      → IsWaking u h
      → IsSynced (after_start p c u started h).1
  unfolding after_start
  after_start-IsSynced (ok handle) h w = await_health-IsSynced handle h w.synced
  after_start-IsSynced (err _) h w =
      mark-IsSynced u error _ (cleanup-kept p c u IsWaking-kept h w).synced

  wake_state-IsSynced :
      (state : Option VmState) (h : Hub W) → IsSynced h → IsSynced (wake_state p c u state h).1
  unfolding wake_state cold_wake
  wake_state-IsSynced none h a = a
  wake_state-IsSynced (some state) h a = elim (Bool-cases (is_up state)) [
    | inl up ↦ rw up a
    | inr down ↦ rw down (
        after_start-IsSynced _ _ (start_or_resume-kept p c u IsWaking-kept _ (mark-IsWaking u h a)))
  ]

  -- A wake that begins with the registry in step with the table leaves it so, however it ends.
  pub wake-IsSynced : (h : Hub W) → IsSynced h → IsSynced (wake p c u h).1
  unfolding wake
  wake-IsSynced h a = wake_state-IsSynced (get h.registry u) h a

  drained-IsSynced :
      (done : Result VmProviderError String) (h : Hub W)
      → IsSynced h
      → IsSynced (drained p c u done h).1
  unfolding drained
  drained-IsSynced (ok new_snapshot) h a = finish_drain-IsSynced u new_snapshot h a
  drained-IsSynced (err _) h a = mark-IsSynced u error h a

  outside-IsSynced : {A : Type 0} (call : Call W A) → Keeps IsSynced (outside p c call)
  outside-IsSynced call = record { at = λ h a. record { at = a.at } }

  snapshot_and_stop-IsSynced : (vm_id : String) → Keeps IsSynced (snapshot_and_stop p c vm_id)
  unfolding snapshot_and_stop
  snapshot_and_stop-IsSynced vm_id = search (keeps_rules, outside-IsSynced) depth 8

  drain_machine-IsSynced :
      (vm_id : Option String) (h : Hub W) → IsSynced h → IsSynced (drain_machine p c u vm_id h).1
  unfolding drain_machine
  drain_machine-IsSynced none h a = a
  drain_machine-IsSynced (some vm_id) h a =
      drained-IsSynced _ _ ((snapshot_and_stop-IsSynced vm_id).at _ (mark-IsSynced u draining h a))

  -- A drain that begins with the registry in step with the table leaves it so, whether the provider
  -- fails or not.
  pub drain-IsSynced : (h : Hub W) → IsSynced h → IsSynced (drain p c u h).1
  unfolding drain
  drain-IsSynced h a =
      drain_machine-IsSynced (Option.bind (get h.registry u) (λ state. state.provider_vm_id)) h a

  provision_row-IsSynced :
      (row : Option UserVm) (h : Hub W) → IsSynced h → IsSynced (provision_row p c u row h).1
  unfolding provision_row
  provision_row-IsSynced (some row) h a = a
  provision_row-IsSynced none h a = record {
    at = λ j. ground (
      arith,
      a.at j,
      get-put h.registry u j (row_state (new_row p c u)),
      get-put h.vms u j (new_row p c u),
    );
  }

  -- A sign-up that begins with the registry in step with the table leaves it so, for a new user and
  -- for one that is there.
  pub provision-IsSynced : (h : Hub W) → IsSynced h → IsSynced (provision_for_user p c u h).1
  unfolding provision_for_user
  provision-IsSynced h a = provision_row-IsSynced (get h.vms u) h a
