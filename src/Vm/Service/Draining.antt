-- ===== src/Vm/Service/Draining.antt =====
-- What a drain leaves behind, and what a touch does to a machine that is not running.
use mathlib.Core.Option
use artic_trader.Prelude.{String, ◌≡◌, ◌≢◌, refl, true, none, some, arith}
use artic_trader.Prelude.Exec.{ok}
use artic_trader.Dict.{get, get-modify_self}
use artic_trader.Vm.State.{Status, stopped, draining, VmState, UserVm, Hub}
use artic_trader.Vm.Provider.{Provider, Settings}
use artic_trader.Vm.Registry.{mark, finish_drain}
use artic_trader.Vm.Registry.Agree.{IsSynced}
use artic_trader.Vm.Service.{drain, drain_machine, drained, snapshot_and_stop, touch}

module _ {W : Type 0} (p : Provider W) (c : Settings) (u : String) (h : Hub W) where
  machine_eq :
      {vm s : String} {w w' : W}
      → p.snapshot vm h.world ≡ (ok s, w)
      → p.stop vm w ≡ (ok tt, w')
      → drain_machine p c u (some vm) h
        ≡ (true, finish_drain u s (record (mark u draining h) { world = w' }))
  unfolding drain_machine snapshot_and_stop drained mark
  machine_eq ps pt = rw (ps, pt)

  drain_eq :
      {st : VmState} {vm s : String} {w w' : W}
      → get h.registry u ≡ some st
      → st.provider_vm_id ≡ some vm
      → p.snapshot vm h.world ≡ (ok s, w)
      → p.stop vm w ≡ (ok tt, w')
      → drain p c u h ≡ (true, finish_drain u s (record (mark u draining h) { world = w' }))
  unfolding drain Option.bind
  drain_eq es ev ps pt = rw (es, ev) (machine_eq ps pt)

  -- When the provider takes the snapshot and stops the machine, the drain succeeds: the row is
  -- "stopped", it keeps the new snapshot and it forgets the machine and its endpoint; the registry forgets them too.
  pub drain_success :
      {st : VmState} {r : UserVm} {vm s : String} {w w' : W}
      → get h.registry u ≡ some st
      → get h.vms u ≡ some r
      → st.provider_vm_id ≡ some vm
      → p.snapshot vm h.world ≡ (ok s, w)
      → p.stop vm w ≡ (ok tt, w')
      → ((drain p c u h).0 ≡ true)
        × (get (drain p c u h).1.registry u
            ≡ some (record st { status = stopped; provider_vm_id = none; endpoint = none }))
        × (get (drain p c u h).1.vms u
            ≡ some (record r {
              status = stopped;
              snapshot_id = some s;
              endpoint = none;
              provider_vm_id = none;
            }))
        × ((drain p c u h).1.world ≡ w')
  unfolding mark finish_drain
  drain_success {st} {r} {vm} {s} {w} {w'} es er ev ps pt =
      rw (drain_eq es ev ps pt) (refl, simp (get-modify_self, es), simp (get-modify_self, er), refl)

  -- A touch of a user whose entry is not running puts a registry and a table that were in step out of
  -- step: the registry then says "running", and the row does not.
  pub touch_desync :
      {st : VmState}
      → IsSynced h
      → get h.registry u ≡ some st
      → st.status ≢ Status.running
      → ¬ IsSynced (touch p c u h)
  unfolding touch
  touch_desync {st} a e ne b = ground (
    arith,
    a.at u,
    b.at u,
    get-modify_self h.registry u
        (λ s. record s { status = Status.running; last_active_at = some (p.utc_now h.world) }),
    get-modify_self h.vms u (λ r. record r { last_active_at = some (p.utc_now h.world) }),
  )
