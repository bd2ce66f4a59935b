-- ===== src/Auth/SignInTests.antt =====
-- Sign-ins of hub/auth/router.py on small tables.
use artic_trader.Prelude.{ℕ, ◌+◌, true, none, some, [], ◌∷◌, ◌≡◌, ◌≢◌, refl, arith}
use artic_trader.Prelude.Exec.{ok}
use artic_trader.Dict.{get, put, modify}
use artic_trader.Vm.Provider.{Provider, Settings}
use artic_trader.Vm.Registry.Agree.{IsSynced}
use artic_trader.Vm.Service.{provision_for_user, provision_row}
use artic_trader.Auth.Endpoints.{open_session}
use artic_trader.Auth.SignIn.{
  SignInDb, VerifyRequest, Draws, Wallets, Verified, build_signin_message, check_answer,
  find_by_wallet, signed_in, verify_signature,
}
use artic_trader.Auth.Once.{no_time, answered_by, verify_signature-once}

abbrev cloud : Provider ℕ
cloud = record {
  start = λ snapshot w. (ok (record { vm_id = "vm-1"; endpoint = ""; snapshot_id = none }), w);
  configure_wake_on_http = λ vm w. (ok tt, w);
  launch_user_server = λ vm u t env w. (ok "http://vm-1", w);
  snapshot = λ vm w. (ok "snap-1", w);
  stop = λ vm w. (ok tt, w);
  health = λ e w. (true, w);
  get_status = λ vm w. (ok none, w);
  secrets_push = none;
  create_account = λ w. (record { address = "0x1"; key = "k" }, w);
  now = λ w. w;
  utc_now = λ w. w;
  sleep = λ d w. w + d;
}

abbrev settings : Settings
settings = record {
  golden_snapshot_id = "golden";
  internal_secret = "secret";
  image_tag = "v1";
  wake_timeout = 5000;
  getenv = λ name. none;
}

abbrev wallets : Wallets
wallets = record {
  supported = "initia" ∷ [];
  message_domain = "artic";
  nonce_ttl = 300;
  session_ttl = 1000;
  get_verifier = λ chain. some (λ address message signature pubkey. true);
  fromisoformat = λ s. some 500;
  isoformat = λ n. "t";
  create_jwt = λ u. u;
}

abbrev answer : VerifyRequest
answer = record {
  address = "init1";
  chain = "initia";
  nonce = "n1";
  signature = "sig";
  pubkey = "pk";
  session_pub = "key";
  session_scope = "authenticated-actions";
  session_expires_at = "later";
}

abbrev draws : Draws
draws = record {
  at_nonce = 10;
  at_expiry = 10;
  at_limit = 10;
  at_use = 11;
  user_id = "u1";
  session_id = "s1";
}

abbrev tables : SignInDb ℕ
tables = record {
  nonces =
      (
        "n1",
        record {
          address = "init1";
          chain = "initia";
          expires_at = 300;
          used_at = none;
          created_at = 0;
        },
      )
      ∷ [];
  db = record { users = []; sessions = [] };
  hub = record { registry = []; vms = []; users = []; world = 0 };
}

abbrev verified : Verified
verified = record { user_id = "u1"; access_token = "u1"; session_id = "s1" }

abbrev after : SignInDb ℕ
after = (signed_in cloud settings wallets answer draws 500 tables).1

signs_in : verify_signature cloud settings wallets answer draws tables ≡ (ok verified, after)
unfolding verify_signature check_answer build_signin_message signed_in find_by_wallet open_session
    provision_for_user provision_row get put modify
signs_in = refl

synced : IsSynced tables.hub
unfolding get
synced = record { at = λ j. ground arith }

verify_signature-once_example :
    (verify_signature cloud settings wallets answer
      (record draws { session_id = "s2" })
      (verify_signature cloud settings wallets answer draws after).1).0
    ≢ ok verified
verify_signature-once_example =
    verify_signature-once cloud settings wallets answer answer draws
      (record draws { session_id = "s2" }) tables after
      (verify_signature cloud settings wallets answer draws after).1 verified verified signs_in
      (answered_by answer draws no_time) refl
