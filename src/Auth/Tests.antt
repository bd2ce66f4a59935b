-- ===== src/Auth/Tests.antt =====
-- Requests to hub/auth on small tables.
use artic_trader.Prelude.{
  ℕ, zero, suc, true, none, some, List, [], ◌∷◌, ◌≡◌, ◌≢◌, refl, str_eq, if◌then◌else◌,
}
use artic_trader.Prelude.Exec.{ok}
use artic_trader.Dict.{get, modify}
use artic_trader.Auth.State.{pos, SessionKey, Db, Request, Outside}
use artic_trader.Auth.Session.{
  canonical_request, verify_session_signature, load_active_session, bump_nonce_atomic, find_by_key,
  get_current_user, Signed, check_request, after_checks, require_session_key,
}
use artic_trader.Auth.Endpoints.{
  revoke_session, revoke_current_session, generate_key, same, checked, key_made,
}
use artic_trader.Auth.Entitled.{IsEntitled, require_session_key-IsEntitled}
use artic_trader.Auth.Replay.{IsNoLater, require_session_key-replay, require_session_key-race}
use artic_trader.Auth.Keys.{generate_key-get_current_user}
use artic_trader.Auth.Revoked.{revoke_current_session-final}

abbrev zeros : ℕ → List ℕ
zeros zero = []
zeros (suc n) = 0 ∷ zeros n

abbrev outside : Outside
outside = record {
  verify_jwt = λ t now. some t;
  hash_api_key = λ k. k;
  int = λ s. if str_eq s "7" then some (pos 7) else none;
  sha256_hex = λ s. s;
  sha256_digest = λ s. [];
  upper = λ s. s;
  json_text = λ s. s;
  json_int = λ n. "n";
  b64decode = λ s. if str_eq s "key" then some (zeros 33) else some (zeros 64);
  verify_digest = λ k s d. some true;
  token = λ n. "t";
}

abbrev request : Request
request = record {
  bearer = some "u1";
  api_key = none;
  session_id = some "s1";
  raw_nonce = some "7";
  signature = some "sig";
  method = "POST";
  path = "/agents";
  body = "{}";
  now = 10;
}

abbrev row : SessionKey
row = record {
  user_id = "u1";
  session_pub = "key";
  scope = "authenticated-actions";
  expires_at = 20;
  last_nonce = pos 3;
  revoked_at = none;
}

abbrev db : Db
db = record {
  users = ("u1", record { wallet_address = "w"; wallet_chain = "c"; api_key_hash = none }) ∷ [];
  sessions = ("s1", row) ∷ [];
}

abbrev db_spent : Db
db_spent = record db { sessions = ("s1", record row { last_nonce = pos 7 }) ∷ [] }

abbrev db_revoked : Db
db_revoked = record db {
  sessions = ("s1", record row { last_nonce = pos 7; revoked_at = some 10 }) ∷ [];
}

abbrev signed : Signed
signed = record { user_id = "u1"; session_id = "s1"; nonce = pos 7; key = row }

checks : check_request outside request db ≡ ok signed
unfolding check_request get_current_user load_active_session canonical_request
    verify_session_signature get
checks = refl

accepts : require_session_key outside request db ≡ (ok "u1", db_spent)
unfolding require_session_key check_request get_current_user load_active_session canonical_request
    verify_session_signature bump_nonce_atomic get modify
accepts = refl

revokes : revoke_current_session outside request db ≡ (ok tt, db_revoked)
unfolding revoke_current_session revoke_session require_session_key check_request get_current_user
    load_active_session canonical_request verify_session_signature bump_nonce_atomic get modify
revokes = refl

require_session_key-IsEntitled_example : IsEntitled outside request db "u1"
require_session_key-IsEntitled_example =
    require_session_key-IsEntitled outside request db db_spent "u1" accepts

no_later : IsNoLater outside (record request { path = "/keys" }) request
no_later = record {
  raw' = _;
  raw = _;
  n' = _;
  n = _;
  header' = refl;
  header = refl;
  nonce' = refl;
  nonce = refl;
  at_most = refl;
}

require_session_key-replay_example :
    (require_session_key outside
      (record request { path = "/keys" })
      (generate_key outside 1 request db_spent).1).0
    ≢ ok "u1"
require_session_key-replay_example =
    require_session_key-replay outside request (record request { path = "/keys" }) db db_spent
      (generate_key outside 1 request db_spent).1 "u1" "u1" accepts (key_made 1 request same) refl
      no_later

require_session_key-race_example :
    ((after_checks (check_request outside request db) db).0 ≡ ok "u1")
    × ((after_checks
          (check_request outside request db)
          (after_checks (check_request outside request db) db).1).0
        ≡ ok "u1")
require_session_key-race_example = require_session_key-race outside request db signed checks refl

revoke_current_session-final_example :
    (require_session_key outside request (require_session_key outside request db_revoked).1).0
    ≢ ok "u1"
revoke_current_session-final_example =
    revoke_current_session-final outside request request db db_revoked
      (require_session_key outside request db_revoked).1 "u1" revokes (checked request same) refl

abbrev with_token : Request
with_token = record request { bearer = none; api_key = some "artic_t" }

abbrev db_keyed : Db
db_keyed = record db_spent {
  users =
      ("u1", record { wallet_address = "w"; wallet_chain = "c"; api_key_hash = some "artic_t" })
      ∷ [];
}

makes : generate_key outside 1 request db ≡ (ok "artic_t", db_keyed)
unfolding generate_key require_session_key check_request get_current_user load_active_session
    canonical_request verify_session_signature bump_nonce_atomic get modify
makes = refl

unused : find_by_key db.users "artic_t" ≡ none
unfolding find_by_key
unused = refl

generate_key-get_current_user_example :
    get_current_user outside db_keyed with_token ≡ get_current_user outside db request
generate_key-get_current_user_example =
    generate_key-get_current_user outside 1 request with_token db db_keyed "artic_t" makes unused
      refl refl
