-- ===== src/Proxy/Dispatch.antt =====
-- hub/proxy/middleware.py: `WakeProxyMiddleware`, with the gate of hub/wallet/service.py. Requests are
-- served one at a time. A balance is counted in wei.
use Prim.Native.String.{◌++◌ as ◌<>◌, len, slice}
use text.Mathlib.Text.{starts_with}
use artic_trader.Prelude.{
  ℕ, String, str_eq, Bool, false, ◌&&◌, ◌||◌, leb, ltb, Option, none, some, [], ◌∷◌, present,
  if◌then◌else◌,
}
use artic_trader.Dict.{Dict, get}
use artic_trader.Strategies.Sandbox.{ends_with}
use artic_trader.Vm.State.{VmState, User, Hub}
use artic_trader.Vm.Provider.{Provider, Settings}
use artic_trader.Vm.Start.{ensure_wallet}
use artic_trader.Vm.Service.{WakeResult, is_up, wake, touch}
use artic_trader.Proxy.Forward.{
  Pairs, Request, Response, Outside, Door, proxy_prefix, rewrite_path, forward,
}

-- A request goes on to the hub's own routes, or is answered here.
pub data Reply : Type 0 where
  call_next : Reply
  reply : Response → Reply

-- MIN_START_OG = 0.2
abbrev pub min_start : ℕ
min_start = 200000000000000000

unfoldable pub is_start_path : String → Bool
is_start_path path =
    starts_with path proxy_prefix && starts_here (slice path (len proxy_prefix) (len path))
  where
    starts_here : String → Bool
    starts_here sub = ends_with sub "/start" || str_eq sub "/agents/start-all"

-- select(User).where(User.api_key_hash == hashed): the id. Of rows with one hash it is the first, where
-- Python would raise.
unfoldable pub find_by_hash : Dict User → String → Option String
find_by_hash [] hashed = none
find_by_hash ((k, user) ∷ users) hashed =
    if has_hash user.api_key_hash then some user.id else find_by_hash users hashed
  where
    has_hash : Option String → Bool
    has_hash none = false
    has_hash (some h) = str_eq h hashed

-- The rest of a header that begins with "Bearer ".
abbrev pub bearer_of : Option String → Option String
bearer_of none = none
bearer_of (some s) = if starts_with s "Bearer " then some (slice s 7 (len s)) else none

abbrev pub or_blank : Option String → String
or_blank none = ""
or_blank (some s) = s

module _ {W : Type 0} (O : Outside W) where
  unfoldable pub resolve_user_id : Request → Hub W → Option String
  resolve_user_id request h = by_token (bearer_of (O.header request.headers "Authorization"))
    where
      by_key : Option String → Option String
      by_key none = none
      by_key (some api_key) = find_by_hash h.users (O.hash_api_key api_key)

      by_token : Option String → Option String
      by_token (some token) = O.verify_jwt token h.world
      by_token none = by_key (present (O.header request.headers "X-API-Key"))

  -- get_balance_og
  unfoldable pub get_balance_og : String → W → ℕ × W
  get_balance_og address w = if str_eq address "" then (0, w) else or_zero (O.get_balance address w)
    where
      or_zero : Option ℕ × W → ℕ × W
      or_zero (none, w') = (0, w')
      or_zero (some wei, w') = (wei, w')

  abbrev pub refuse : ℕ → String → Pairs → Door W → Reply × Door W
  refuse status code headers s = (
    reply record { status_code = status; headers = headers; content = O.error_body code none },
    s,
  )

module _ {W : Type 0} (p : Provider W) (c : Settings) (O : Outside W) (request : Request) where
  unfoldable pub settle : String → Response × Door W → Reply × Door W
  settle user_id (response, s) = (
    reply response,
    if leb 200 response.status_code && ltb response.status_code 400
        then record s { hub = touch p c user_id s.hub }
        else s,
  )

  unfoldable pub deliver : String → Option String → Door W → Reply × Door W
  deliver user_id none s = refuse O 503 "VM_ERROR" [] s
  deliver user_id (some endpoint) s =
      settle user_id (forward O request (O.rstrip endpoint <> rewrite_path request.path) s)

  abbrev pub endpoint_of : Option VmState → Option String
  endpoint_of none = none
  endpoint_of (some st) = present st.endpoint

  unfoldable pub after_wake : String → Door W → WakeResult × Hub W → Reply × Door W
  unfolding deliver
  after_wake user_id s (WakeResult.pending, h) =
      refuse O 202 "VM_WAKING" (("Retry-After", "3") ∷ []) (record s { hub = h })
  after_wake user_id s (WakeResult.failed, h) = refuse O 503 "VM_ERROR" [] (record s { hub = h })
  after_wake user_id s (WakeResult.running, h) =
      deliver user_id (endpoint_of (get h.registry user_id)) (record s { hub = h })

  unfoldable pub by_state : String → Option VmState → Door W → Reply × Door W
  unfolding after_wake deliver
  by_state user_id none s = refuse O 404 "VM_NOT_PROVISIONED" [] s
  by_state user_id (some st) s =
      if is_up st
      then deliver user_id (present st.endpoint) s
      else after_wake user_id s (wake p c user_id s.hub)

  unfoldable pub serve : String → Door W → Reply × Door W
  unfolding by_state
  serve user_id s = by_state user_id (get s.hub.registry user_id) s

  unfoldable pub gated : String → Option User → Door W → Reply × Door W
  unfolding serve
  gated user_id none s = refuse O 401 "UNAUTHENTICATED" [] s
  gated user_id (some row) s =
      let (row', h) = ensure_wallet p c row s.hub in
      let (balance, w) = get_balance_og O (or_blank row'.chain_address) h.world in
      let s' = record s { hub = record h { world = w } } in
      if leb min_start balance then serve user_id s' else refuse O 402 "WALLET_UNFUNDED" [] s'

  unfoldable pub enter : Option String → Door W → Reply × Door W
  unfolding gated serve
  enter none s = refuse O 401 "UNAUTHENTICATED" [] s
  enter (some user_id) s =
      if is_start_path request.path
      then gated user_id (get s.hub.users user_id) s
      else serve user_id s

  unfoldable pub dispatch : Door W → Reply × Door W
  unfolding enter
  dispatch s =
      if starts_with request.path proxy_prefix
      then enter (present (resolve_user_id O request s.hub)) s
      else (call_next, s)
