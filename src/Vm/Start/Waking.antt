-- ===== src/Vm/Start/Waking.antt =====
-- What holds of the registry and the table through the writes of a start holds after the start,
-- and after the cleanup of a failed one.
use mathlib.Core.Option
use artic_trader.Prelude.{Option, String, ◌≡◌, refl, none, some, arith, present}
use artic_trader.Dict.{get}
use artic_trader.Vm.State.{Hub}
use artic_trader.Prelude.Exec.{Keeps, keeps_rules}
use artic_trader.Vm.Provider.{Provider, Settings, Call}
use artic_trader.Vm.Registry.{persist_vm_id, persist_endpoint, clear_vm_mapping}
use artic_trader.Vm.Start.{
  outside, act, launch_env, fresh_start, resume, restart_orphan, start_row, start_or_resume,
  stop_leaked, cleanup,
}

-- `P` survives a call outside and the three writes that a start makes.
pub record IsKept {W : Type 0} (u : String) (P : Hub W → Type 0) : Type 0 where
  pub frame : (h h' : Hub W) → h'.registry ≡ h.registry → h'.vms ≡ h.vms → P h → P h'
  pub vm_id : (v : String) (h : Hub W) → P h → P (persist_vm_id u v h)
  pub endpoint : (e : String) (h : Hub W) → P h → P (persist_endpoint u e h)
  pub mapping : (h : Hub W) → P h → P (clear_vm_mapping u h)

module _ {W : Type 0} (p : Provider W) (c : Settings) (u : String) {P : Hub W → Type 0}
    (k : IsKept u P) where
  pub outside-kept : {A : Type 0} (call : Call W A) → Keeps P (outside p c call)
  outside-kept call = record { at = λ h w. k.frame h _ refl refl w }

  act-kept : (f : Hub W → Hub W) → ((h : Hub W) → P h → P (f h)) → Keeps P (act p c f)
  act-kept f keeps = record { at = keeps }

  launch_env-kept : Keeps P (launch_env p c u)
  launch_env-kept = record { at = λ h w. k.frame h _ (registry-launch_env h) (vms-launch_env h) w }
    where
      registry-launch_env : (h : Hub W) → (launch_env p c u h).1.registry ≡ h.registry
      registry-launch_env h = unfold launch_env in ground arith

      vms-launch_env : (h : Hub W) → (launch_env p c u h).1.vms ≡ h.vms
      vms-launch_env h = unfold launch_env in ground arith

  fresh_start-kept : (snapshot_id : String) → Keeps P (fresh_start p c u snapshot_id)
  unfolding fresh_start
  fresh_start-kept snapshot_id =
      search (keeps_rules, act-kept, outside-kept, launch_env-kept, k.vm_id, k.endpoint) depth 12

  resume-kept :
      (vm_id endpoint snapshot_id : String) → Keeps P (resume p c u vm_id endpoint snapshot_id)
  unfolding resume
  resume-kept vm_id endpoint snapshot_id =
      search (keeps_rules, act-kept, outside-kept, k.mapping, fresh_start-kept) depth 8

  restart_orphan-kept :
      (vm_id snapshot_id : String) → Keeps P (restart_orphan p c u vm_id snapshot_id)
  unfolding restart_orphan
  restart_orphan-kept vm_id snapshot_id = record {
    at = λ h w.
        (fresh_start-kept snapshot_id).at _ (k.mapping _ ((outside-kept (p.stop vm_id)).at h w));
  }

  start_row-kept :
      (vm_id endpoint : Option String) (snapshot_id : String)
      → Keeps P (start_row p c u vm_id endpoint snapshot_id)
  unfolding start_row
  start_row-kept none _ snapshot_id = fresh_start-kept snapshot_id
  start_row-kept (some vm_id) (some endpoint) snapshot_id = resume-kept vm_id endpoint snapshot_id
  start_row-kept (some vm_id) none snapshot_id = restart_orphan-kept vm_id snapshot_id

  pub start_or_resume-kept : (h : Hub W) → P h → P (start_or_resume p c u h).1
  unfolding start_or_resume
  start_or_resume-kept h w = (start_row-kept _ _ _).at h w

  stop_leaked-kept : (leaked : Option String) (h : Hub W) → P h → P (stop_leaked p c u leaked h)
  unfolding stop_leaked
  stop_leaked-kept none h w = w
  stop_leaked-kept (some vm) h w = k.mapping _ ((outside-kept (p.stop vm)).at h w)

  pub cleanup-kept : (h : Hub W) → P h → P (cleanup p c u h)
  unfolding cleanup
  cleanup-kept h w =
      stop_leaked-kept
        (present (Option.bind (get h.registry u) (λ current. current.provider_vm_id))) h w
