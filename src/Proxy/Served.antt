-- ===== src/Proxy/Served.antt =====
-- What one request changes and sends, operation by operation: hub/proxy/middleware.py.
use Prim.Native.String.{◌++◌ as ◌<>◌}
use mathlib.Core.Path.{subst₂}
use artic_trader.Prelude.{
  String, Bool-cases, Option-cases, Option, none, some, [], ◌∷◌, ◌++◌, ◌≡◌, refl, sym, ◌∙◌, ap, ◌⊎◌,
  inl, inr, arith, present, if_both,
}
use artic_trader.Dict.{get, get-modify_self}
use artic_trader.Vm.State.{Status, VmState, User, Hub}
use artic_trader.Vm.Provider.{Provider, Settings}
use artic_trader.Vm.Registry.Agree.{Agree, IsSynced, Agree-modify}
use artic_trader.Vm.Start.{ensure_wallet}
use artic_trader.Vm.Service.{WakeResult, is_up, touch}
use artic_trader.Vm.Service.Sync.{wake-IsSynced}
use artic_trader.Vm.Service.Outcome.{Outcome, IsServing, wake_outcome}
use artic_trader.Proxy.Forward.{Request, Sent, Outside, Door, rewrite_path, given_or_new, forward}
use artic_trader.Proxy.Dispatch.{
  Reply, settle, deliver, endpoint_of, after_wake, by_state, serve, gated, enter,
}
use artic_trader.Proxy.Stripped.{IsStripped, outgoing-IsStripped, outgoing-secret}

module _ {W : Type 0} (p : Provider W) (c : Settings) (O : Outside W) (request : Request) where
  -- One request went out, and it is this one: to the machine of the user that is running on record,
  -- under the path that the client asked for, without the client's credentials.
  pub record IsPassed (user_id : String) (s s' : Door W) : Type 0 where
    pub out : Sent
    pub st : VmState
    pub endpoint : String
    pub sent : s'.sent ≡ s.sent ++ out ∷ []
    pub on_record : get s'.hub.registry user_id ≡ some st
    pub runs : st.status ≡ Status.running
    pub at : present st.endpoint ≡ some endpoint
    pub url : out.url ≡ O.rstrip endpoint <> rewrite_path request.path
    pub secret : get out.headers "X-Hub-Secret" ≡ some O.internal_secret
    pub stripped : IsStripped O out.headers

  -- How a request changes the hub, and what it sends.
  pub record Serves (user_id : String) (s s' : Door W) : Type 0 where
    pub synced : IsSynced s.hub → IsSynced s'.hub
    pub traffic : (s'.sent ≡ s.sent) ⊎ IsPassed user_id s s'

  -- The wallet of a user is no part of the registry or of the table of machines.
  pub ensure_wallet-frame :
      (user : User) (h : Hub W)
      → ((ensure_wallet p c user h).1.registry ≡ h.registry)
        × ((ensure_wallet p c user h).1.vms ≡ h.vms)
  unfolding ensure_wallet
  ensure_wallet-frame user h = elim (Option-cases (present user.chain_address)) [
    | inl e ↦ rw (e, ensure_wallet) (refl, refl)
    | inr (x, e) ↦ elim (Option-cases (present user.chain_privkey)) [
      | inl g ↦ rw (e, g, ensure_wallet) (refl, refl)
      | inr (y, g) ↦ rw (e, g, ensure_wallet) (refl, refl)
    ]
  ]

  ensure_wallet-IsSynced :
      (user : User) (h : Hub W) → IsSynced h → IsSynced (ensure_wallet p c user h).1
  ensure_wallet-IsSynced user h =
      let (e, g) = ensure_wallet-frame user h in subst₂ Agree (sym e) (sym g)

  module _ (u : String) where
    Serves-refl : (s : Door W) → Serves u s s
    Serves-refl s = record { synced = λ a. a; traffic = inl refl }

    -- What is done before sends nothing.
    Serves-after :
        (s s' s'' : Door W)
        → s'.sent ≡ s.sent
        → (IsSynced s.hub → IsSynced s'.hub)
        → Serves u s' s''
        → Serves u s s''
    Serves-after s s' s'' same keeps g = record {
      synced = λ a. g.synced (keeps a);
      traffic = elim g.traffic [
        | inl e ↦ inl (e ∙ same)
        | inr q ↦ inr record {
          out = q.out;
          st = q.st;
          endpoint = q.endpoint;
          sent = q.sent ∙ ap (λ l. l ++ q.out ∷ []) same;
          on_record = q.on_record;
          runs = q.runs;
          at = q.at;
          url = q.url;
          secret = q.secret;
          stripped = q.stripped;
        }
      ];
    }

    touch-IsSynced :
        (h : Hub W) (st : VmState)
        → get h.registry u ≡ some st
        → st.status ≡ Status.running
        → IsSynced h
        → IsSynced (touch p c u h)
    unfolding touch
    touch-IsSynced h st e run a =
        Agree-modify h.registry h.vms u _ _ a (λ r g. ground (arith, a.at u, g, e, run))

    touch-Passes :
        (s s' : Door W)
        → IsPassed u s s'
        → (IsSynced s.hub → IsSynced s'.hub)
        → Serves u s (record s' { hub = touch p c u s'.hub })
    unfolding touch
    touch-Passes s s' q keeps = record {
      synced = λ a. touch-IsSynced s'.hub q.st q.on_record q.runs (keeps a);
      traffic = inr record {
        out = q.out;
        st = record q.st {
          status = Status.running;
          last_active_at = some (p.utc_now s'.hub.world);
        };
        endpoint = q.endpoint;
        sent = q.sent;
        on_record = rw (get-modify_self, q.on_record) refl;
        runs = refl;
        at = q.at;
        url = q.url;
        secret = q.secret;
        stripped = q.stripped;
      };
    }

    forward-IsPassed :
        (s : Door W) (st : VmState) (e : String)
        → get s.hub.registry u ≡ some st
        → st.status ≡ Status.running
        → present st.endpoint ≡ some e
        → IsPassed u s (forward O request (O.rstrip e <> rewrite_path request.path) s).1
    unfolding forward
    forward-IsPassed s st e there runs at = record {
      out = _;
      st = st;
      endpoint = e;
      sent = refl;
      on_record = there;
      runs = runs;
      at = at;
      url = refl;
      secret = outgoing-secret O request (O.rstrip e <> rewrite_path request.path) id;
      stripped = outgoing-IsStripped O request (O.rstrip e <> rewrite_path request.path) id;
    }
      where
        id : String
        id = (given_or_new O (present (O.header request.headers "X-Request-ID")) s.hub.world).0

    deliver-Serves :
        (s : Door W) (st : VmState) (o : Option String)
        → get s.hub.registry u ≡ some st
        → st.status ≡ Status.running
        → present st.endpoint ≡ o
        → Serves u s (deliver p c O request u o s).1
    unfolding deliver settle forward
    deliver-Serves s st none there runs at = Serves-refl s
    deliver-Serves s st (some e) there runs at =
        let q = forward-IsPassed s st e there runs at in
        if_both (Serves u s) _ _ _ (touch-Passes s _ q (λ a. record { at = a.at }))
          record { synced = λ a. record { at = a.at }; traffic = inr q }

    wake-Serves :
        (s : Door W) (r : WakeResult) (h : Hub W)
        → (IsSynced s.hub → IsSynced h)
        → Outcome r (get h.registry u)
        → Serves u s (after_wake p c O request u s (r, h)).1
    unfolding after_wake
    wake-Serves s WakeResult.pending h keeps out = record { synced = keeps; traffic = inl refl }
    wake-Serves s WakeResult.failed h keeps out = record { synced = keeps; traffic = inl refl }
    wake-Serves s WakeResult.running h keeps out = up (get h.registry u) refl out
      where
        up :
            (o : Option VmState)
            → get h.registry u ≡ o
            → IsServing o
            → Serves u s
                (deliver p c O request u (endpoint_of p c O request o) (record s { hub = h })).1
        up none e out = absurd out
        up (some st) e out =
            Serves-after s (record s { hub = h }) _ refl keeps
              (deliver-Serves (record s { hub = h }) st (present st.endpoint) e out.0 refl)

    by_state-Serves :
        (s : Door W) (o : Option VmState)
        → get s.hub.registry u ≡ o
        → Serves u s (by_state p c O request u o s).1
    unfolding by_state
    by_state-Serves s none e = Serves-refl s
    by_state-Serves s (some st) e = elim (Bool-cases (is_up st)) [
      | inl up ↦ rw up (deliver-Serves s st (present st.endpoint) e (ground (arith, up)) refl)
      | inr down ↦ rw down (
          wake-Serves s _ _ (wake-IsSynced p c u s.hub)
            (wake_outcome p c u s.hub (rw e (λ up. ground (arith, up, down)))))
    ]

    serve-Serves : (s : Door W) → Serves u s (serve p c O request u s).1
    unfolding serve
    serve-Serves s = by_state-Serves s (get s.hub.registry u) refl

    gated-Serves : (o : Option User) (s : Door W) → Serves u s (gated p c O request u o s).1
    unfolding gated
    gated-Serves none s = Serves-refl s
    gated-Serves (some row) s =
        if_both (λ (r : Reply × Door W). Serves u s r.1) _ _ _
          (Serves-after s _ _ refl (λ a. record { at = (ensure_wallet-IsSynced row s.hub a).at })
            (serve-Serves _))
          record {
            synced = λ a. record { at = (ensure_wallet-IsSynced row s.hub a).at };
            traffic = inl refl;
          }

    pub enter-Serves : (s : Door W) → Serves u s (enter p c O request (some u) s).1
    unfolding enter
    enter-Serves s =
        if_both (λ (r : Reply × Door W). Serves u s r.1) _ _ _ (gated-Serves (get s.hub.users u) s)
          (serve-Serves s)
