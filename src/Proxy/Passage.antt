-- ===== src/Proxy/Passage.antt =====
-- What the proxy lets pass: hub/proxy/middleware.py and forwarder.py.
use mathlib.Core.Path.{subst}
use artic_trader.Prelude.{
  String, Option, none, some, ◌≡◌, refl, sym, ap, ◌⊎◌, inl, inr, present, if_both,
}
use artic_trader.Vm.Provider.{Provider, Settings}
use artic_trader.Vm.Registry.Agree.{IsSynced}
use artic_trader.Proxy.Forward.{Request, Outside, Door}
use artic_trader.Proxy.Dispatch.{Reply, resolve_user_id, enter, dispatch}
use artic_trader.Proxy.Served.{IsPassed, Serves, enter-Serves}

module _ {W : Type 0} (p : Provider W) (c : Settings) (O : Outside W) (request : Request) where
  -- One user is served, or nothing changes.
  dispatch-cases :
      (s : Door W)
      → ((dispatch p c O request s).1 ≡ s)
        ⊎ ((u : String) × ((present (resolve_user_id O request s.hub) ≡ some u)
              × Serves p c O request u s (dispatch p c O request s).1))
  unfolding dispatch enter
  dispatch-cases s =
      if_both Cases _ _ _ (entered (present (resolve_user_id O request s.hub)) refl) (inl refl)
    where
      Cases : Reply × Door W → Type 0
      Cases r =
          (r.1 ≡ s)
          ⊎ ((u : String) × ((present (resolve_user_id O request s.hub) ≡ some u)
                × Serves p c O request u s r.1))

      entered :
          (o : Option String)
          → present (resolve_user_id O request s.hub) ≡ o
          → Cases (enter p c O request o s)
      entered none e = inl refl
      entered (some u) e = inr (u, (e, enter-Serves p c O request u s))

  -- A request through the proxy that begins with the registry in step with the table leaves it so,
  -- whatever it is answered.
  pub dispatch-IsSynced : (s : Door W) → IsSynced s.hub → IsSynced (dispatch p c O request s).1.hub
  dispatch-IsSynced s a = elim (dispatch-cases s) [
    | inl e ↦ subst (λ (s' : Door W). IsSynced s'.hub) (sym e) a
    | inr (u, (e, g)) ↦ g.synced a
  ]

  -- A request through the proxy sends nothing, or one request: that one goes to the endpoint on record
  -- of the user whose token or key the client showed, whose entry is running afterwards, under the
  -- path without its prefix; it carries the hub's secret, and of the client's headers none whose
  -- name is to be stripped.
  pub dispatch-passes :
      (s : Door W)
      → ((dispatch p c O request s).1.sent ≡ s.sent)
        ⊎ ((u : String) × ((present (resolve_user_id O request s.hub) ≡ some u)
              × IsPassed p c O request u s (dispatch p c O request s).1))
  dispatch-passes s = elim (dispatch-cases s) [
    | inl e ↦ inl (ap (λ (s' : Door W). s'.sent) e)
    | inr (u, (e, g)) ↦ elim g.traffic [ inl same ↦ inl same | inr q ↦ inr (u, (e, q)) ]
  ]
