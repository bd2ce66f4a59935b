-- ===== src/Vm/Start.antt =====
-- hub/vm/service.py: `_start_or_resume`, which finds, resumes or starts the machine of a user, and
-- hub/wallet/service.py: `ensure_wallet`.
pub mod Waking
use mathlib.Core.Option
use mathlib.Core.List.{foldl}
use artic_trader.Prelude.{
  String, str_eq, Bool, false, ◌||◌, Option, none, some, List, [], ◌∷◌, present, if◌then◌else◌,
}
use artic_trader.Prelude.Exec.{ok, Exec, raise, pure, ◌>>=◌, ◌>>◌}
use artic_trader.Dict.{Dict, get, put}
use artic_trader.Vm.State.{UserVm, User, Hub}
use artic_trader.Vm.Provider.{VmProviderError, raised, VmHandle, Provider, Settings, Call}
use artic_trader.Vm.Registry.{persist_vm_id, persist_endpoint, clear_vm_mapping}

-- The names that a fresh start forwards from the hub's environment.
abbrev pub forwarded : List String
forwarded =
    "ZERO_G_RPC_URL" ∷ "ZERO_G_CHAIN_ID" ∷ "ZERO_G_EXPLORER_BASE" ∷ "ZERO_G_COMPUTE_SECRET"
    ∷ "ZERO_G_COMPUTE_PROVIDER" ∷ "ZERO_G_COMPUTE_SERVING_BROKER" ∷ "ZERO_G_STORAGE_INDEXER_URL"
    ∷ []

-- if v: extra_env[k] = v
abbrev put_present : Dict String → String → Option String → Dict String
put_present env k v = elim (present v) [ none ↦ env | some t ↦ put env k t ]

module _ {W : Type 0} (p : Provider W) (c : Settings) where
  -- A provider's call in the hub's state.
  abbrev pub outside : {A : Type 0} → Call W A → Exec (Hub W) VmProviderError A
  outside call h = let (r, w) = call h.world in (r, record h { world = w })

  -- A call of the service that only writes.
  abbrev pub act : (Hub W → Hub W) → Exec (Hub W) VmProviderError Unit
  act f h = (ok tt, f h)

  -- hub/wallet/service.py: `ensure_wallet`, on the row of a user, and the part of it that creates
  abbrev create_wallet : User → Hub W → User × Hub W
  create_wallet user h =
      let (acct, w) = p.create_account h.world in
      let user' : User = record user {
        chain_address = some acct.address;
        chain_privkey = some acct.key;
      } in
      (user', record h { users = put h.users user.id user'; world = w })

  unfoldable pub ensure_wallet : User → Hub W → User × Hub W
  ensure_wallet user h = elim (present user.chain_address) [
    | none ↦ create_wallet user h
    | some _ ↦ elim (present user.chain_privkey) [
      | none ↦ create_wallet user h
      | some _ ↦ (user, h)
    ]
  ]

  abbrev from_hub : Dict String → Dict String
  from_hub env = foldl (λ e k. put_present e k (c.getenv k)) env forwarded

  -- The environment that a fresh user-server gets.
  unfoldable pub launch_env : String → Exec (Hub W) VmProviderError (Dict String)
  unfolding ensure_wallet
  launch_env user_id h = elim (get h.users user_id) [
    | none ↦ (ok (from_hub []), h)
    | some user ↦
        let (user', h') = ensure_wallet user h in
        (ok (from_hub (put_present [] "ZERO_G_PRIVATE_KEY" user'.chain_privkey)), h')
  ]

  -- Case D of `_start_or_resume`, with the test of the snapshot before it.
  unfoldable pub fresh_start : String → String → Exec (Hub W) VmProviderError VmHandle
  fresh_start user_id snapshot_id = if str_eq snapshot_id "" then raise raised else do
    handle ← outside (p.start snapshot_id)
    act (persist_vm_id user_id handle.vm_id)
    outside (p.configure_wake_on_http handle.vm_id)
    extra_env ← launch_env user_id
    endpoint ← outside (p.launch_user_server handle.vm_id user_id c.internal_secret extra_env)
    act (persist_endpoint user_id endpoint)
    pure (record { vm_id = handle.vm_id; endpoint = endpoint; snapshot_id = some snapshot_id })

  abbrev pub is_resumable : Option String → Bool
  is_resumable none = false
  is_resumable (some s) = str_eq s "ready" || str_eq s "paused"

  -- Cases A and B: a machine and an endpoint are on record.
  unfoldable pub resume : String → String → String → String → Exec (Hub W) VmProviderError VmHandle
  resume user_id vm_id endpoint snapshot_id = do
    status ← outside (p.get_status vm_id)
    if is_resumable status
        then pure (record { vm_id = vm_id; endpoint = endpoint; snapshot_id = some snapshot_id })
        else do act (clear_vm_mapping user_id); fresh_start user_id snapshot_id

  -- Case C: an orphan is stopped, whether or not that works.
  unfoldable pub restart_orphan : String → String → String → Exec (Hub W) VmProviderError VmHandle
  restart_orphan user_id vm_id snapshot_id = do
    act (λ h. (outside (p.stop vm_id) h).1)
    act (clear_vm_mapping user_id)
    fresh_start user_id snapshot_id

  abbrev snapshot_or_golden : Option UserVm → String
  snapshot_or_golden none = c.golden_snapshot_id
  snapshot_or_golden (some row) = elim (present row.snapshot_id) [
    | none ↦ c.golden_snapshot_id
    | some s ↦ s
  ]

  unfoldable pub start_row :
      String → Option String → Option String → String → Exec (Hub W) VmProviderError VmHandle
  start_row user_id none _ snapshot_id = fresh_start user_id snapshot_id
  start_row user_id (some vm_id) (some endpoint) snapshot_id =
      resume user_id vm_id endpoint snapshot_id
  start_row user_id (some vm_id) none snapshot_id = restart_orphan user_id vm_id snapshot_id

  unfoldable pub start_or_resume : String → Exec (Hub W) VmProviderError VmHandle
  unfolding start_row
  start_or_resume user_id h =
      let row = get h.vms user_id in
      start_row user_id (present (Option.bind row (λ r. r.provider_vm_id)))
        (present (Option.bind row (λ r. r.endpoint))) (snapshot_or_golden row) h

  -- The machine that a failed start may have left behind is stopped and forgotten.
  unfoldable pub stop_leaked : String → Option String → Hub W → Hub W
  stop_leaked user_id none h = h
  stop_leaked user_id (some leaked) h = clear_vm_mapping user_id (outside (p.stop leaked) h).1

  unfoldable pub cleanup : String → Hub W → Hub W
  unfolding stop_leaked
  cleanup user_id h =
      stop_leaked user_id
        (present (Option.bind (get h.registry user_id) (λ current. current.provider_vm_id))) h
