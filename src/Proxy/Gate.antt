-- ===== src/Proxy/Gate.antt =====
-- The gate of hub/proxy/middleware.py before the start of an agent, with hub/wallet/service.py.
use mathlib.Core.Path.{subst}
use text.Mathlib.Text.{starts_with}
use artic_trader.Prelude.{
  ℕ, ◌<◌, String, true, false, Option-cases, Option, none, some, ◌≡◌, refl, inl, inr, arith,
  present, leb, [],
}
use artic_trader.Dict.{get}
use artic_trader.Vm.State.{User, Hub}
use artic_trader.Vm.Provider.{Provider, Settings}
use artic_trader.Proxy.Forward.{Request, Outside, Door, proxy_prefix}
use artic_trader.Vm.Start.{ensure_wallet}
use artic_trader.Proxy.Dispatch.{
  Reply, refuse, min_start, is_start_path, resolve_user_id, get_balance_og, or_blank, gated, enter,
  dispatch,
}

-- What a node says of a balance that is not enough: that it is less, or nothing.
abbrev pub IsShort : Option ℕ → Type 0
IsShort none = Unit {0}
IsShort (some wei) = wei < min_start

or_blank-present : (x : Option String) (a : String) → present x ≡ some a → or_blank x ≡ a
or_blank-present none a e = cc
or_blank-present (some s) a e = ground (arith, e)

module _ {W : Type 0} (O : Outside W) where
  get_balance_og-below :
      (a : String) (w : W)
      → IsShort (O.get_balance a w).0
      → leb min_start (get_balance_og O a w).0 ≡ false
  unfolding get_balance_og
  get_balance_og-below a w short = elim (Option-cases (O.get_balance a w).0) [
    | inl e ↦ ground (arith, e)
    | inr (wei, e) ↦ ground (arith, e, subst IsShort e short)
  ]

module _ {W : Type 0} (p : Provider W) (c : Settings) (O : Outside W) (request : Request) where
  -- Nothing is sent, and no machine is woken.
  pub record IsHeld (s s' : Door W) : Type 0 where
    pub sent : s'.sent ≡ s.sent
    pub registry : s'.hub.registry ≡ s.hub.registry
    pub vms : s'.hub.vms ≡ s.hub.vms

  IsHeld-refl : (s : Door W) → IsHeld s s
  IsHeld-refl s = record { sent = refl; registry = refl; vms = refl }

  -- The reply to a start without the funds.
  abbrev pub unfunded : Door W → Reply
  unfunded s = (refuse O 402 "WALLET_UNFUNDED" [] s).0

  -- A wallet that is there is kept.
  ensure_wallet-kept :
      (a key : String) (row : User) (h : Hub W)
      → present row.chain_address ≡ some a
      → present row.chain_privkey ≡ some key
      → ensure_wallet p c row h ≡ (row, h)
  unfolding ensure_wallet
  ensure_wallet-kept a key row h ea ek = rw (ea, ek, ensure_wallet) refl

  gated-IsHeld :
      (u a key : String) (row : User) (s : Door W)
      → present row.chain_address ≡ some a
      → present row.chain_privkey ≡ some key
      → IsShort (O.get_balance a s.hub.world).0
      → ((gated p c O request u (some row) s).0 ≡ unfunded s)
        × IsHeld s (gated p c O request u (some row) s).1
  unfolding gated
  gated-IsHeld u a key row s ea ek short =
      rw
        (
          ensure_wallet-kept a key row s.hub ea ek,
          or_blank-present row.chain_address a ea,
          get_balance_og-below O a s.hub.world short,
        )
        (refl, record { sent = refl; registry = refl; vms = refl })

  -- A request to start an agent, of a user that has a wallet whose balance the node gives as less than
  -- 0.2, or does not give at all, is answered 402, sends nothing and wakes no machine.
  pub dispatch-IsHeld :
      (u a key : String) (row : User) (s : Door W)
      → present (resolve_user_id O request s.hub) ≡ some u
      → is_start_path request.path ≡ true
      → get s.hub.users u ≡ some row
      → present row.chain_address ≡ some a
      → present row.chain_privkey ≡ some key
      → IsShort (O.get_balance a s.hub.world).0
      → ((dispatch p c O request s).0 ≡ unfunded s) × IsHeld s (dispatch p c O request s).1
  unfolding dispatch enter is_start_path
  dispatch-IsHeld u a key row s who start there ea ek short =
      rw (proxied, who, start, there) (gated-IsHeld u a key row s ea ek short)
    where
      proxied : starts_with request.path proxy_prefix ≡ true
      proxied = ground (arith, start)
