-- ===== src/Auth/SignIn.antt =====
-- The wallet sign-in of hub/auth/router.py and service.py: the challenge and its answer. The chains'
-- verifiers, the dates' texts, JWT and the random ids are parameters.
use Prim.Native.String.{◌++◌ as ◌<>◌}
use artic_trader.Prelude.{
  ℕ, ◌+◌, String, Bool, true, false, not, ◌&&◌, Option, none, some, List, [], ◌∷◌, ltb, leb, str_eq,
  if◌then◌else◌,
}
use artic_trader.Prelude.Exec.{Result, ok, err, Exec}
use artic_trader.Prelude.Results.{◌>>=◌}
use artic_trader.Dict.{Dict, get, put, modify}
use artic_trader.Vm.State.{Hub}
use artic_trader.Vm.Provider.{Provider, Settings}
use artic_trader.Vm.Service.{provision_for_user}
use artic_trader.Auth.State.{Account, Db, HttpError}
use artic_trader.Auth.Session.{http, required, is_none}
use artic_trader.Auth.Endpoints.{open_session}

-- A row of `auth_nonce`; the table is read by the nonce, which is unique.
pub record AuthNonce : Type 0 where
  pub address : String
  pub chain : String
  pub expires_at : ℕ
  pub used_at : Option ℕ
  pub created_at : ℕ

-- The tables, with those of the VM service.
pub record SignInDb (W : Type 0) : Type 0 where
  pub nonces : Dict AuthNonce
  pub db : Db
  pub hub : Hub W

pub record VerifyRequest : Type 0 where
  pub address : String
  pub chain : String
  pub nonce : String
  pub signature : String
  pub pubkey : String
  pub session_pub : String
  pub session_scope : String
  pub session_expires_at : String

-- What one request draws: the times of its readings of the clock, in order, and its new ids.
pub record Draws : Type 0 where
  pub at_nonce : ℕ
  pub at_expiry : ℕ
  pub at_limit : ℕ
  pub at_use : ℕ
  pub user_id : String
  pub session_id : String

pub record Wallets : Type 0 where
  pub supported : List String
  pub message_domain : String
  pub nonce_ttl : ℕ
  pub session_ttl : ℕ
  -- get_verifier(chain), of the address, the message, the signature and the key
  pub get_verifier : String → Option (String → String → String → String → Bool)
  pub fromisoformat : String → Option ℕ
  pub isoformat : ℕ → String
  pub create_jwt : String → String

pub record Verified : Type 0 where
  pub user_id : String
  pub access_token : String
  pub session_id : String

abbrev pub includes : List String → String → Bool
includes [] c = false
includes (x ∷ xs) c = if str_eq x c then true else includes xs c

abbrev pub guard : Bool → ℕ → String → Result HttpError Unit
guard true code text = ok tt
guard false code text = err (http code text)

-- With the lines of the message.
unfoldable pub build_signin_message :
    Wallets → String → String → String → String → String → String → String → String
build_signin_message X chain address nonce session_pub session_scope issued_at expires_at =
    X.message_domain
    <> (" wants you to sign in with your "
        <> (chain
            <> (" account:\n"
                <> (address
                    <> ("\n\nSession public key: "
                        <> (session_pub
                            <> ("\nScope: "
                                <> (session_scope
                                    <> ("\nNonce: "
                                        <> (nonce
                                            <> ("\nIssued At: "
                                                <> (issued_at
                                                    <> ("\nExpires At: " <> expires_at)))))))))))))

abbrev pub usable : VerifyRequest → ℕ → Option AuthNonce → Option AuthNonce
usable q now none = none
usable q now (some n) =
    if not (str_eq n.address q.address && str_eq n.chain q.chain)
    then none
    else if not (is_none n.used_at)
    then none
    else if leb n.expires_at now
    then none
    else some n

abbrev pub verifies :
    Option (String → String → String → String → Bool) → VerifyRequest → String → Bool
verifies none q message = false
verifies (some v) q message = v q.address message q.signature q.pubkey

-- All checks, which write nothing: the time at which the session is to end.
unfoldable pub check_answer :
    {W : Type 0} → Wallets → VerifyRequest → Draws → SignInDb W → Result HttpError ℕ
check_answer X q t s = do
  c ← guard (includes X.supported q.chain) 400 "Unsupported chain"
  row ← required (usable q t.at_nonce (get s.nonces q.nonce)) (http 401 "Invalid or expired nonce")
  expires ← required (X.fromisoformat q.session_expires_at) (http 400 "Invalid session_expires_at")
  f ← guard (ltb t.at_expiry expires) 400 "session_expires_at in the past"
  g ← guard (leb expires (t.at_limit + X.session_ttl)) 400 "session_expires_at exceeds max"
  let message =
      build_signin_message X q.chain q.address q.nonce q.session_pub q.session_scope
        (X.isoformat row.created_at) q.session_expires_at
  v ← guard (verifies (X.get_verifier q.chain) q message) 401 "Signature verification failed"
  ok expires

-- select(User).where(wallet_address, wallet_chain): the id
unfoldable pub find_by_wallet : Dict Account → String → String → Option String
find_by_wallet [] address chain = none
find_by_wallet ((id, a) ∷ us) address chain =
    if str_eq a.wallet_address address && str_eq a.wallet_chain chain
    then some id
    else find_by_wallet us address chain

-- The user of the wallet, made if there is none: the id and the tables.
abbrev pub upsert_user : Option String → VerifyRequest → Draws → Db → String × Db
upsert_user (some id) q t db = (id, db)
upsert_user none q t db = (
  t.user_id,
  record db {
    users =
        put db.users t.user_id
          (record { wallet_address = q.address; wallet_chain = q.chain; api_key_hash = none });
  },
)

abbrev pub use_nonce : Dict AuthNonce → String → ℕ → Dict AuthNonce
use_nonce nonces nonce now = modify nonces nonce (λ n. record n { used_at = some now })

module _ {W : Type 0} (p : Provider W) (c : Settings) (X : Wallets) where
  -- The writes of a sign-in.
  unfoldable pub signed_in : VerifyRequest → Draws → ℕ → SignInDb W → Verified × SignInDb W
  signed_in q t expires s =
      let (u, db) = upsert_user (find_by_wallet s.db.users q.address q.chain) q t s.db in
      let (vm, hub) = provision_for_user p c u s.hub in
      (
        record { user_id = u; access_token = X.create_jwt u; session_id = t.session_id },
        record {
          nonces = use_nonce s.nonces q.nonce t.at_use;
          db = open_session t.session_id u q.session_pub q.session_scope expires db;
          hub = hub;
        },
      )

  abbrev pub answered :
      VerifyRequest → Draws → Result HttpError ℕ → Exec (SignInDb W) HttpError Verified
  answered q t (err e) s = (err e, s)
  answered q t (ok expires) s = let (v, s') = signed_in q t expires s in (ok v, s')

  unfoldable pub verify_signature : VerifyRequest → Draws → Exec (SignInDb W) HttpError Verified
  verify_signature q t s = answered q t (check_answer X q t s) s

module _ {W : Type 0} (X : Wallets) where
  -- The row of a challenge; the message of the answer is a preview.
  abbrev pub add_nonce : String → String → String → ℕ → SignInDb W → SignInDb W
  add_nonce address chain nonce now s = record s {
    nonces = put s.nonces nonce (record {
      address = address;
      chain = chain;
      expires_at = now + X.nonce_ttl;
      used_at = none;
      created_at = now;
    });
  }

  unfoldable pub issue_nonce :
      String → String → String → ℕ → SignInDb W → Result HttpError Unit × SignInDb W
  issue_nonce address chain nonce now s =
      if includes X.supported chain
      then (ok tt, add_nonce address chain nonce now s)
      else (err (http 400 "Unsupported chain"), s)
