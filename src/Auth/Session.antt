-- ===== src/Auth/Session.antt =====
-- hub/auth/session.py and hub/auth/deps.py.
use Prim.Native.String.{◌++◌ as ◌<>◌}
use artic_trader.Prelude.{
  ℕ, String, Bool, true, false, not, Option, none, some, List, [], ◌∷◌, length, leb, ◌==◌, str_eq,
  present, if◌then◌else◌,
}
use artic_trader.Prelude.Exec.{Result, ok, err, Exec}
use artic_trader.Prelude.Results.{◌>>=◌}
use artic_trader.Dict.{Dict, get, modify}
use artic_trader.Auth.State.{ℤ, leb_ℤ, SessionKey, Account, Db, Request, HttpError, Outside}

abbrev pub http : ℕ → String → HttpError
http code text = record { status_code = code; detail = text }

-- value, or raise
abbrev pub required : {A : Type 0} → Option A → HttpError → Result HttpError A
required none e = err e
required (some a) e = ok a

abbrev pub is_none : {A : Type 0} → Option A → Bool
is_none none = true
is_none (some a) = false

-- json.dumps(doc, sort_keys=True, separators=(",", ":"))
unfoldable pub canonical_request : Outside → String → String → String → String → ℤ → String
canonical_request O method path body session_id nonce =
    "{\"body_sha256\":"
    <> (O.json_text (O.sha256_hex body)
        <> (",\"method\":"
            <> (O.json_text (O.upper method)
                <> (",\"nonce\":"
                    <> (O.json_int nonce
                        <> (",\"path\":"
                            <> (O.json_text path
                                <> (",\"session_id\":" <> (O.json_text session_id <> "}")))))))))

abbrev pub true_or_false : Option Bool → Bool
true_or_false none = false
true_or_false (some b) = b

abbrev pub verify_decoded : Outside → Option (List ℕ) → Option (List ℕ) → String → Bool
verify_decoded O none sig canonical = false
verify_decoded O (some pub_key) none canonical = false
verify_decoded O (some pub_key) (some sig) canonical =
    if not (length pub_key == 33)
    then false
    else if not (length sig == 64)
    then false
    else true_or_false (O.verify_digest pub_key sig (O.sha256_digest canonical))

-- Every exception inside gives `False`.
unfoldable pub verify_session_signature : Outside → String → String → String → Bool
verify_session_signature O session_pub canonical signature =
    verify_decoded O (O.b64decode session_pub) (O.b64decode signature) canonical

abbrev pub active : String → ℕ → Option SessionKey → Option SessionKey
active user_id now none = none
active user_id now (some k) =
    if not (str_eq k.user_id user_id)
    then none
    else if not (is_none k.revoked_at)
    then none
    else if leb k.expires_at now
    then none
    else some k

-- The row with this id and user, unless it is revoked or expired.
unfoldable pub load_active_session : Db → String → String → ℕ → Option SessionKey
load_active_session db session_id user_id now = active user_id now (get db.sessions session_id)

-- `sess` is the row as it was loaded: the test reads that copy, and the commit writes the table.
unfoldable pub bump_nonce_atomic : String → SessionKey → ℤ → Db → Bool × Db
bump_nonce_atomic session_id sess presented_nonce db =
    if leb_ℤ presented_nonce sess.last_nonce then (false, db) else (
      true,
      record db {
        sessions = modify db.sessions session_id (λ k. record k { last_nonce = presented_nonce });
      },
    )

-- select(User).where(User.api_key_hash == hashed): the id
unfoldable pub find_by_key : Dict Account → String → Option String
find_by_key [] hashed = none
find_by_key ((id, a) ∷ us) hashed =
    if has_key a.api_key_hash then some id else find_by_key us hashed
  where
    has_key : Option String → Bool
    has_key none = false
    has_key (some h) = str_eq h hashed

abbrev pub known_user : String → Option Account → Result HttpError String
known_user id none = err (http 401 "User not found")
known_user id (some a) = ok id

abbrev pub by_token : Dict Account → Option String → Result HttpError String
by_token users none = err (http 401 "Invalid or expired token")
by_token users (some id) = known_user id (get users id)

abbrev pub by_key : Outside → Dict Account → Option String → Result HttpError String
by_key O users none = err (http 401 "Missing or invalid credentials")
by_key O users (some key) =
    required (find_by_key users (O.hash_api_key key)) (http 401 "Missing or invalid credentials")

abbrev pub by_header : Outside → Db → Request → Option String → Result HttpError String
by_header O db r (some token) = by_token db.users (O.verify_jwt token r.now)
by_header O db r none = by_key O db.users (present r.api_key)

-- The id of the user: by the token, or else by the API key.
unfoldable pub get_current_user : Outside → Db → Request → Result HttpError String
get_current_user O db r = by_header O db r r.bearer

-- The headers of a signed request.
pub record Signed : Type 0 where
  pub user_id : String
  pub session_id : String
  pub nonce : ℤ
  pub key : SessionKey

abbrev pub signed : Bool → Signed → Result HttpError Signed
signed true s = ok s
signed false s = err (http 401 "Invalid session signature")

-- All checks before the nonce is compared: they write nothing.
unfoldable pub check_request : Outside → Request → Db → Result HttpError Signed
check_request O r db = do
  user_id ← get_current_user O db r
  session_id ← required (present r.session_id) (http 401 "Session signature required")
  raw_nonce ← required (present r.raw_nonce) (http 401 "Session signature required")
  signature ← required (present r.signature) (http 401 "Session signature required")
  nonce ← required (O.int raw_nonce) (http 400 "Invalid X-Session-Nonce")
  sess ←
      required (load_active_session db session_id user_id r.now)
        (http 401 "Session expired or revoked")
  let canonical = canonical_request O r.method r.path r.body session_id nonce
  signed (verify_session_signature O sess.session_pub canonical signature)
      (record { user_id = user_id; session_id = session_id; nonce = nonce; key = sess })

abbrev pub bumped : String → Bool × Db → Result HttpError String × Db
bumped user_id (true, db) = (ok user_id, db)
bumped user_id (false, db) = (err (http 401 "Nonce replay rejected"), db)

abbrev pub after_checks : Result HttpError Signed → Exec Db HttpError String
after_checks (err e) db = (err e, db)
after_checks (ok s) db = bumped s.user_id (bump_nonce_atomic s.session_id s.key s.nonce db)

unfoldable pub require_session_key : Outside → Request → Exec Db HttpError String
require_session_key O r db = after_checks (check_request O r db) db
