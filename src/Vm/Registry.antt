-- ===== src/Vm/Registry.antt =====
-- hub/vm/registry.py: `VMRegistry`, and the helpers of hub/vm/service.py that write one row.
pub mod Agree
use artic_trader.Prelude.{ℕ, String, none, some}
use artic_trader.Dict.{modify}
use artic_trader.Vm.State.{Status, VmState, UserVm, Hub, waking, running, stopped}

module _ {W : Type 0} where
  -- `registry.set_status(user_id, status, **overrides)`; the overrides are a function
  unfoldable pub set_status : String → Status → (VmState → VmState) → Hub W → Hub W
  set_status user_id status overrides h = record h {
    registry = modify h.registry user_id (λ s. overrides (record s { status = status }));
  }

  -- The select by user, the assignments to the row if there is one, and the commit.
  unfoldable pub update_row : String → (UserVm → UserVm) → Hub W → Hub W
  update_row user_id assign h = record h { vms = modify h.vms user_id assign }

  unfoldable pub persist_status : String → Status → Hub W → Hub W
  unfolding update_row
  persist_status user_id status = update_row user_id (λ r. record r { status = status })

  unfoldable pub persist_vm_id : String → String → Hub W → Hub W
  unfolding update_row set_status
  persist_vm_id user_id vm_id h =
      update_row user_id (λ r. record r { provider_vm_id = some vm_id })
        (set_status user_id waking (λ s. record s { provider_vm_id = some vm_id }) h)

  unfoldable pub persist_endpoint : String → String → Hub W → Hub W
  unfolding update_row set_status
  persist_endpoint user_id endpoint h =
      update_row user_id (λ r. record r { endpoint = some endpoint })
        (set_status user_id waking (λ s. record s { endpoint = some endpoint }) h)

  unfoldable pub clear_vm_mapping : String → Hub W → Hub W
  unfolding update_row set_status
  clear_vm_mapping user_id h =
      update_row user_id (λ r. record r { provider_vm_id = none; endpoint = none })
        (set_status user_id waking (λ s. record s { provider_vm_id = none; endpoint = none }) h)

  unfoldable pub persist_running : String → String → String → ℕ → Hub W → Hub W
  unfolding update_row
  persist_running user_id vm_id endpoint at = update_row user_id (λ r. record r {
    status = running;
    provider_vm_id = some vm_id;
    endpoint = some endpoint;
    last_active_at = some at;
  })

  -- `set_status` and then `_persist_status`
  unfoldable pub mark : String → Status → Hub W → Hub W
  unfolding set_status persist_status
  mark user_id status h = persist_status user_id status (set_status user_id status (λ s. s) h)

  -- The row after a drain, and the registry's entry.
  unfoldable pub finish_drain : String → String → Hub W → Hub W
  unfolding set_status update_row
  finish_drain user_id new_snapshot h =
      set_status user_id stopped (λ s. record s { provider_vm_id = none; endpoint = none })
        (update_row user_id
          (λ r. record r {
            status = stopped;
            snapshot_id = some new_snapshot;
            endpoint = none;
            provider_vm_id = none;
          })
          h)
