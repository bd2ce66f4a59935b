-- ===== src/Proxy/Tests.antt =====
-- Requests through the proxy of the hub, over a provider whose world is the clock.
use artic_trader.Prelude.{
  ℕ, ◌+◌, ◌⊎◌, ◌≡◌, refl, true, none, some, [], ◌∷◌, arith, eq_iff, String, str_eq, present,
  if◌then◌else◌,
}
use artic_trader.Prelude.Exec.{ok}
use artic_trader.Dict.{get, put}
use artic_trader.Strategies.Sandbox.{ends_with}
use artic_trader.Vm.State.{Status, stopped, UserVm, row_state, User}
use artic_trader.Vm.Provider.{Provider, Settings}
use artic_trader.Vm.Registry.Agree.{IsSynced}
use artic_trader.Proxy.Forward.{
  Request, Outside, Door, answered, forward, filter_headers, rewrite_path, dict_of, is_in,
}
use artic_trader.Proxy.Dispatch.{is_start_path, resolve_user_id, settle, dispatch}
use artic_trader.Proxy.Served.{IsPassed}
use artic_trader.Proxy.Passage.{dispatch-IsSynced, dispatch-passes}
use artic_trader.Proxy.Gate.{IsHeld, unfunded, dispatch-IsHeld}

-- Every call succeeds at once.
abbrev cloud : Provider ℕ
cloud = record {
  start = λ snapshot w.
      (ok (record { vm_id = "vm-1"; endpoint = ""; snapshot_id = some snapshot }), w + 10);
  configure_wake_on_http = λ vm w. (ok tt, w + 1);
  launch_user_server = λ vm u t env w. (ok "http://vm-1", w + 10);
  snapshot = λ vm w. (ok "snap-1", w + 5);
  stop = λ vm w. (ok tt, w + 5);
  health = λ e w. (true, w + 1);
  get_status = λ vm w. (ok (some "ready"), w + 1);
  secrets_push = none;
  create_account = λ w. (record { address = "0x1"; key = "k" }, w);
  now = λ w. w;
  utc_now = λ w. w;
  sleep = λ d w. w + d;
}

abbrev settings : Settings
settings = record {
  golden_snapshot_id = "golden";
  internal_secret = "secret";
  image_tag = "v1";
  wake_timeout = 5000;
  getenv = λ name. none;
}

-- Addresses hold one wei, and the user server answers 200.
abbrev outside : Outside ℕ
outside = record {
  internal_secret = "secret";
  lower = λ s. s;
  rstrip = λ s. s;
  header =
      λ headers name. get headers (if str_eq name "Authorization" then "authorization" else name);
  uuid4 = λ w. ("id-1", w);
  send = λ out w. (answered record { status_code = 200; headers = []; content = "[]" }, w + 3);
  error_body = λ code id. code;
  verify_jwt = λ token w. if str_eq token "tok" then some "ann" else none;
  hash_api_key = λ key. key;
  get_balance = λ a w. (some 1, w + 2);
}

abbrev request_to : String → Request
request_to path = record {
  method = "GET";
  path = path;
  query = [];
  headers = ("authorization", "Bearer tok") ∷ ("accept", "*/*") ∷ [];
  body = "";
}

abbrev row : UserVm
row = record {
  user_id = "ann";
  provider_vm_id = none;
  endpoint = none;
  status = stopped;
  last_active_at = none;
  image_tag = some "v1";
  wallet_address = none;
  snapshot_id = none;
}

abbrev up_row : UserVm
up_row = record row {
  provider_vm_id = some "vm-1";
  endpoint = some "http://vm-1";
  status = Status.running;
}

abbrev ann : User
ann = record {
  id = "ann";
  api_key_hash = none;
  chain_address = some "0xa";
  chain_privkey = some "k";
}

abbrev door : UserVm → Door ℕ
door r = record {
  hub = record {
    registry = ("ann", row_state r) ∷ [];
    vms = ("ann", r) ∷ [];
    users =
        (
          "ann",
          record {
            id = "ann";
            api_key_hash = none;
            chain_address = some "0xa";
            chain_privkey = some "k";
          },
        )
        ∷ [];
    world = 0;
  };
  sent = [];
}

door-IsSynced : (r : UserVm) → IsSynced (door r).hub
unfolding get
door-IsSynced r = record { at = λ j. ground (arith, eq_iff "ann" j) }

dispatch-IsSynced_example :
    IsSynced (dispatch cloud settings outside (request_to "/api/v1/u/agents") (door row)).1.hub
dispatch-IsSynced_example =
    dispatch-IsSynced cloud settings outside (request_to "/api/v1/u/agents") (door row)
      (door-IsSynced row)

dispatch-passes_example :
    ((dispatch cloud settings outside (request_to "/api/v1/u/agents") (door up_row)).1.sent ≡ [])
    ⊎ ((u : String) × ((present
              (resolve_user_id outside (request_to "/api/v1/u/agents") (door up_row).hub)
            ≡ some u)
          × IsPassed cloud settings outside
              (request_to "/api/v1/u/agents")
              u
              (door up_row)
              (dispatch cloud settings outside (request_to "/api/v1/u/agents") (door up_row)).1))
dispatch-passes_example =
    dispatch-passes cloud settings outside (request_to "/api/v1/u/agents") (door up_row)

ann_passes :
    (dispatch cloud settings outside (request_to "/api/v1/u/agents") (door up_row)).1.sent
    ≡ record {
      method = "GET";
      url = "http://vm-1/agents";
      content = "";
      headers = ("accept", "*/*") ∷ ("X-Hub-Secret", "secret") ∷ ("X-Request-ID", "id-1") ∷ [];
      params = [];
    }
      ∷ []
unfolding dispatch resolve_user_id get is_start_path ends_with settle forward rewrite_path put
    dict_of filter_headers is_in
ann_passes = refl

starts : is_start_path "/api/v1/u/agents/a1/start" ≡ true
unfolding is_start_path ends_with
starts = refl

dispatch-IsHeld_example :
    ((dispatch cloud settings outside (request_to "/api/v1/u/agents/a1/start") (door row)).0
      ≡ unfunded cloud settings outside (request_to "/api/v1/u/agents/a1/start") (door row))
    × IsHeld cloud settings outside
        (request_to "/api/v1/u/agents/a1/start")
        (door row)
        (dispatch cloud settings outside (request_to "/api/v1/u/agents/a1/start") (door row)).1
unfolding resolve_user_id get
dispatch-IsHeld_example =
    dispatch-IsHeld cloud settings outside (request_to "/api/v1/u/agents/a1/start") "ann" "0xa" "k"
      ann (door row) refl starts refl refl refl (omega arith)
