-- ===== src/Vm/Registry/Agree.antt =====
-- The registry in memory and the table `user_vms` say the same, and which writes keep that so.
use mathlib.Core.Option
use artic_trader.Prelude.{
  inl, inr, String, ◌≡◌, refl, none, some, ap, ◌∙◌, arith, eq_iff, Option-cases,
}
use artic_trader.Dict.{Dict, get, modify, get-modify, modified}
use artic_trader.Vm.State.{Status, waking, VmState, UserVm, row_state, Hub}
use artic_trader.Vm.Registry.{
  set_status, update_row, persist_vm_id, persist_endpoint, clear_vm_mapping, mark, finish_drain,
}

-- For each user the registry holds exactly what the row of the user says.
pub record Agree (registry : Dict VmState) (vms : Dict UserVm) : Type 0 where
  pub at : (u : String) → get registry u ≡ Option.map row_state (get vms u)

-- One change on both sides, which a row and its state undergo alike.
pub Agree-modify :
    (reg : Dict VmState) (vms : Dict UserVm) (u : String) (f : VmState → VmState)
    (g : UserVm → UserVm)
    → Agree reg vms
    → ((r : UserVm) → get vms u ≡ some r → f (row_state r) ≡ row_state (g r))
    → Agree (modify reg u f) (modify vms u g)
Agree-modify reg vms u f g a same = record {
  at = λ j. elim (Option-cases (get vms u)) [
    | inl e ↦ ground (arith, get-modify reg u j f, get-modify vms u j g, a.at j, eq_iff u j)
    | inr (r, e) ↦
        ground (arith, get-modify reg u j f, get-modify vms u j g, a.at j, eq_iff u j, same r e)
  ];
}

module _ {W : Type 0} where
  abbrev pub IsSynced : Hub W → Type 0
  IsSynced h = Agree h.registry h.vms

  -- During a wake the row of the user, if there is one, says so.
  pub record IsWaking (user_id : String) (h : Hub W) : Type 0 where
    pub synced : Agree h.registry h.vms
    pub at_row : (r : UserVm) → get h.vms user_id ≡ some r → r.status ≡ waking

  pub mark-IsSynced : (u : String) (st : Status) (h : Hub W) → IsSynced h → IsSynced (mark u st h)
  unfolding mark
  mark-IsSynced u st h a = Agree-modify h.registry h.vms u _ _ a (λ r e. refl)

  pub mark-IsWaking : (u : String) (h : Hub W) → IsSynced h → IsWaking u (mark u waking h)
  unfolding mark
  mark-IsWaking u h a = record {
    synced = mark-IsSynced u waking h a;
    at_row = λ r e.
        let (r', _, q) = modified h.vms u (λ r. record r { status = waking }) e in
        ap (λ (r : UserVm). r.status) q;
  }

  -- A write that says "waking" in the registry, and leaves the status in the row as it is.
  waking_write :
      (u : String) (h : Hub W) (f : VmState → VmState) (g : UserVm → UserVm)
      → IsWaking u h
      → ((r : UserVm) → (g r).status ≡ r.status)
      → ((r : UserVm)
          → r.status ≡ waking
          → f (record (row_state r) { status = waking }) ≡ row_state (g r))
      → IsWaking u (update_row u g (set_status u waking f h))
  unfolding update_row set_status
  waking_write u h f g w keeps same = record {
    synced = Agree-modify h.registry h.vms u _ g w.synced (λ r e. same r (w.at_row r e));
    at_row = λ r e.
        let (r', e', q) = modified h.vms u g e in
        ap (λ (r : UserVm). r.status) q ∙ keeps r' ∙ w.at_row r' e';
  }

  pub persist_vm_id-IsWaking :
      (u vm_id : String) (h : Hub W) → IsWaking u h → IsWaking u (persist_vm_id u vm_id h)
  unfolding persist_vm_id
  persist_vm_id-IsWaking u vm_id h w =
      waking_write u h (λ s. record s { provider_vm_id = some vm_id })
        (λ r. record r { provider_vm_id = some vm_id }) w (λ r. refl) (λ r e. ground arith)

  pub persist_endpoint-IsWaking :
      (u endpoint : String) (h : Hub W) → IsWaking u h → IsWaking u (persist_endpoint u endpoint h)
  unfolding persist_endpoint
  persist_endpoint-IsWaking u endpoint h w =
      waking_write u h (λ s. record s { endpoint = some endpoint })
        (λ r. record r { endpoint = some endpoint }) w (λ r. refl) (λ r e. ground arith)

  pub clear_vm_mapping-IsWaking :
      (u : String) (h : Hub W) → IsWaking u h → IsWaking u (clear_vm_mapping u h)
  unfolding clear_vm_mapping
  clear_vm_mapping-IsWaking u h w =
      waking_write u h (λ s. record s { provider_vm_id = none; endpoint = none })
        (λ r. record r { provider_vm_id = none; endpoint = none }) w (λ r. refl)
        (λ r e. ground arith)

  pub finish_drain-IsSynced :
      (u snapshot : String) (h : Hub W) → IsSynced h → IsSynced (finish_drain u snapshot h)
  unfolding finish_drain
  finish_drain-IsSynced u snapshot h a = Agree-modify h.registry h.vms u _ _ a (λ r e. refl)

pub IsWaking-frame :
    {W : Type 0} (u : String) (h h' : Hub W)
    → h'.registry ≡ h.registry
    → h'.vms ≡ h.vms
    → IsWaking u h
    → IsWaking u h'
IsWaking-frame u h h' e d w = record {
  synced = record { at = λ j. rw (e, d) (w.synced.at j) };
  at_row = λ r q. w.at_row r (rw d at q);
}
