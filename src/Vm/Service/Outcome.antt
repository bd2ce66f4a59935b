-- ===== src/Vm/Service/Outcome.antt =====
-- What the result of a wake says about the state that it leaves.
use mathlib.Core.Option
use mathlib.Core.Path.{subst, subst₂}
use artic_trader.Prelude.{
  Option, inl, inr, true, Bool-cases, String, ◌≡◌, ◌≢◌, refl, sym, none, some, arith, present,
}
use artic_trader.Prelude.Exec.{Result, ok, err}
use artic_trader.Dict.{get, get-modify_self}
use artic_trader.Vm.State.{Status, waking, error, VmState, Hub}
use artic_trader.Vm.Provider.{VmProviderError, VmHandle, Provider, Settings}
use artic_trader.Vm.Registry.{persist_vm_id, persist_endpoint, clear_vm_mapping, mark}
use artic_trader.Vm.Start.{stop_leaked, cleanup}
use artic_trader.Vm.Start.Waking.{IsKept, start_or_resume-kept}
use artic_trader.Vm.Service.{
  WakeResult, polled, wake_state, cold_wake, Poll, healthy, is_up, finish_wake, await_health,
  after_start, wake,
}

-- The user is known, and at the given status.
abbrev pub IsAt : Status → Option VmState → Type 0
IsAt status none = ⊥
IsAt status (some st) = st.status ≡ status

-- Running, with a machine and an endpoint on record.
abbrev pub IsServing : Option VmState → Type 0
IsServing none = ⊥
IsServing (some st) =
    (st.status ≡ Status.running) × (st.provider_vm_id ≢ none) × (st.endpoint ≢ none)

-- In error with no machine on record, or not known at all.
abbrev pub IsLost : Option VmState → Type 0
IsLost none = Unit {0}
IsLost (some st) = (st.status ≡ error) × (present st.provider_vm_id ≡ none)

abbrev pub Outcome : WakeResult → Option VmState → Type 0
Outcome WakeResult.running st = IsServing st
Outcome WakeResult.pending st = IsAt waking st
Outcome WakeResult.failed st = IsLost st

-- An entry that `wake` reports as running at once has a machine on record.
abbrev pub StaysUp : Option VmState → Type 0
StaysUp none = Unit {0}
StaysUp (some st) = is_up st ≡ true → st.provider_vm_id ≢ none

known : (status : Status) (o : Option VmState) → IsAt status o → o ≢ none
known status none h = absurd h
known status (some st) h = λ e. cc

IsAt-map :
    (status : Status) (o : Option VmState) (f : VmState → VmState)
    → o ≢ none
    → ((st : VmState) → (f st).status ≡ status)
    → IsAt status (Option.map f o)
IsAt-map status none f h e = h refl
IsAt-map status (some st) f h e = e st

abbrev machine_of : Option VmState → Option String
machine_of o = present (Option.bind o (λ st. st.provider_vm_id))

machine_of-cleared :
    (o : Option VmState) (f : VmState → VmState)
    → ((st : VmState) → (f st).provider_vm_id ≡ none)
    → machine_of (Option.map f o) ≡ none
unfolding Option.bind
machine_of-cleared none f e = refl
machine_of-cleared (some st) f e = rw e

IsServing-map :
    (o : Option VmState) (f : VmState → VmState)
    → o ≢ none
    → ((st : VmState) → IsServing (some (f st)))
    → IsServing (Option.map f o)
IsServing-map none f h e = h refl
IsServing-map (some st) f h e = e st

IsLost-map :
    (o : Option VmState) (f : VmState → VmState)
    → machine_of o ≡ none
    → ((st : VmState) → ((f st).status ≡ error) × ((f st).provider_vm_id ≡ st.provider_vm_id))
    → IsLost (Option.map f o)
unfolding Option.bind
IsLost-map none f m e = tt
IsLost-map (some st) f m e = ((e st).0, rw (e st).1 m)

module _ {W : Type 0} (p : Provider W) (c : Settings) (u : String) where
  abbrev AtWaking : Hub W → Type 0
  AtWaking h = IsAt waking (get h.registry u)

  AtWaking-kept : IsKept {W = W} u AtWaking
  AtWaking-kept = record {
    frame = λ h h' e d w. rw e w;
    vm_id = λ v h w.
        unfold persist_vm_id in
        rw get-modify_self (IsAt-map waking _ _ (known waking _ w) (λ st. refl));
    endpoint = λ e h w.
        unfold persist_endpoint in
        rw get-modify_self (IsAt-map waking _ _ (known waking _ w) (λ st. refl));
    mapping = λ h w.
        unfold clear_vm_mapping in
        rw get-modify_self (IsAt-map waking _ _ (known waking _ w) (λ st. refl));
  }

  AtWaking-mark : (h : Hub W) → get h.registry u ≢ none → AtWaking (mark u waking h)
  unfolding mark
  AtWaking-mark h there = rw get-modify_self (IsAt-map waking _ _ there (λ st. refl))

  stop_leaked-forgets :
      (leaked : Option String) (h : Hub W)
      → machine_of (get h.registry u) ≡ leaked
      → machine_of (get (stop_leaked p c u leaked h).registry u) ≡ none
  unfolding stop_leaked clear_vm_mapping
  stop_leaked-forgets none h e = e
  stop_leaked-forgets (some vm) h e = rw get-modify_self (machine_of-cleared _ _ (λ st. refl))

  cleanup-forgets : (h : Hub W) → machine_of (get (cleanup p c u h).registry u) ≡ none
  unfolding cleanup
  cleanup-forgets h = stop_leaked-forgets _ h refl

  polled_outcome :
      (handle : VmHandle) (ended : Poll) (h : Hub W)
      → AtWaking h
      → let (r, h') = polled p c u handle ended h in Outcome r (get h'.registry u)
  unfolding polled finish_wake
  polled_outcome handle healthy h w =
      rw get-modify_self (IsServing-map _ _ (known waking _ w) (λ st. (refl, λ e. cc, λ e. cc)))
  polled_outcome handle _ h w = w

  after_start_outcome :
      (started : Result VmProviderError VmHandle) (h : Hub W)
      → AtWaking h
      → let (r, h') = after_start p c u started h in Outcome r (get h'.registry u)
  unfolding after_start await_health mark
  after_start_outcome (ok handle) h w = polled_outcome handle _ _ w
  after_start_outcome (err _) h w =
      rw get-modify_self (IsLost-map _ _ (cleanup-forgets h) (λ st. (refl, refl)))

  cold_wake_outcome :
      (h : Hub W)
      → get h.registry u ≢ none
      → let (r, h') = cold_wake p c u h in Outcome r (get h'.registry u)
  unfolding cold_wake
  cold_wake_outcome h there =
      after_start_outcome _ _ (start_or_resume-kept p c u AtWaking-kept _ (AtWaking-mark h there))

  is_up-IsServing : (st : VmState) → is_up st ≡ true → StaysUp (some st) → IsServing (some st)
  is_up-IsServing st up stays = (ground arith, stays up, λ e. ground arith)

  wake_state_outcome :
      (o : Option VmState) (h : Hub W)
      → get h.registry u ≡ o
      → StaysUp o
      → let (r, h') = wake_state p c u o h in Outcome r (get h'.registry u)
  unfolding wake_state
  wake_state_outcome none h e s = rw e tt
  wake_state_outcome (some st) h e s = elim (Bool-cases (is_up st)) [
    | inl up ↦ rw (up, e) (is_up-IsServing st up s)
    | inr down ↦ rw down (cold_wake_outcome h (λ n. cc))
  ]

  -- What each result of a wake says of the user's entry in the registry afterwards: RUNNING, that
  -- it is running with a machine and an endpoint on record; PENDING, that it is waking; FAILED,
  -- that there is no entry, or it is in error and no machine is left on record. It is supposed that
  -- an entry that is up before the wake has a machine on record.
  pub wake_outcome :
      (h : Hub W)
      → StaysUp (get h.registry u)
      → let (r, h') = wake p c u h in Outcome r (get h'.registry u)
  unfolding wake
  wake_outcome h s = wake_state_outcome (get h.registry u) h refl s

  up_again :
      (st : VmState) → st.status ≡ Status.running → present st.endpoint ≢ none → is_up st ≡ true
  up_again st run ep = ground arith

  -- A user whose entry is up is reported as running, and nothing changes: no call goes out.
  pub wake_up :
      (h : Hub W) (st : VmState)
      → get h.registry u ≡ some st
      → is_up st ≡ true
      → wake p c u h ≡ (WakeResult.running, h)
  unfolding wake wake_state
  wake_up h st e up = subst (λ o. wake_state p c u o h ≡ (WakeResult.running, h)) (sym e) (rw up)

  -- Once a wake has reported RUNNING with a non-empty endpoint, a second wake reports RUNNING and changes nothing.
  pub wake_twice :
      (h : Hub W) (st : VmState)
      → get (wake p c u h).1.registry u ≡ some st
      → (wake p c u h).0 ≡ WakeResult.running
      → present st.endpoint ≢ none
      → StaysUp (get h.registry u)
      → wake p c u (wake p c u h).1 ≡ (WakeResult.running, (wake p c u h).1)
  wake_twice h st e r ep s =
      let serving : IsServing (some st) = subst₂ Outcome r e (wake_outcome h s) in
      wake_up _ st e (up_again st serving.0 ep)
