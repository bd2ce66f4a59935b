-- ===== src/Auth/Endpoints.antt =====
-- The endpoints of hub/auth/router.py behind a session key, the row that a sign-in adds, and any order
-- in which they are served.
use Prim.Native.String.{◌++◌ as ◌<>◌}
use artic_trader.Prelude.{ℕ, String, Option, none, some, ◌≡◌}
use artic_trader.Prelude.Exec.{Result, ok, err, Exec}
use artic_trader.Dict.{get, put, modify}
use artic_trader.Auth.State.{pos, SessionKey, Db, Request, HttpError, Outside}
use artic_trader.Auth.Session.{load_active_session, require_session_key}

unfoldable pub revoke_session : String → ℕ → Db → Db
revoke_session session_id now db = record db {
  sessions = modify db.sessions session_id (λ k. record k { revoked_at = some now });
}

abbrev pub revoke_if : Option SessionKey → String → ℕ → Db → Db
revoke_if none session_id now db = db
revoke_if (some k) session_id now db = revoke_session session_id now db

abbrev pub header : Option String → String
header none = ""
header (some s) = s

abbrev pub revoke_for : Request → Result HttpError String → Db → Result HttpError Unit × Db
revoke_for r (err e) db = (err e, db)
revoke_for r (ok user_id) db = (
  ok tt,
  revoke_if (load_active_session db (header r.session_id) user_id r.now) (header r.session_id) r.now
      db,
)

-- DELETE /auth/session
unfoldable pub revoke_current_session : Outside → Request → Exec Db HttpError Unit
revoke_current_session O r db = let (u, db') = require_session_key O r db in revoke_for r u db'

abbrev pub key_for : Outside → ℕ → Result HttpError String → Db → Result HttpError String × Db
key_for O seed (err e) db = (err e, db)
key_for O seed (ok user_id) db = (
  ok ("artic_" <> O.token seed),
  record db {
    users =
        modify db.users user_id
          (λ a. record a { api_key_hash = some (O.hash_api_key ("artic_" <> O.token seed)) });
  },
)

-- POST /api/keys: the key, whose hash replaces the user's.
unfoldable pub generate_key : Outside → ℕ → Request → Exec Db HttpError String
generate_key O seed r db = let (u, db') = require_session_key O r db in key_for O seed u db'

-- The row that a sign-in adds, under a new id.
unfoldable pub open_session : String → String → String → String → ℕ → Db → Db
open_session id user_id session_pub scope expires_at db = record db {
  sessions = put db.sessions id (record {
    user_id = user_id;
    session_pub = session_pub;
    scope = scope;
    expires_at = expires_at;
    last_nonce = pos 0;
    revoked_at = none;
  });
}

-- What the hub may do to the tables, one request after another. Any endpoint that takes a session key
-- begins as `checked` does.
pub data Later (O : Outside) : Db → Db → Type 0 where
  same : {db : Db} → Later O db db
  checked :
      {db db' : Db} (r : Request) → Later O db db' → Later O db (require_session_key O r db').1
  revoked :
      {db db' : Db} (r : Request) → Later O db db' → Later O db (revoke_current_session O r db').1
  key_made :
      {db db' : Db} (seed : ℕ) (r : Request)
      → Later O db db'
      → Later O db (generate_key O seed r db').1
  opened :
      {db db' : Db} (id user_id session_pub scope : String) (expires_at : ℕ)
      → get db'.sessions id ≡ none
      → Later O db db'
      → Later O db (open_session id user_id session_pub scope expires_at db')
