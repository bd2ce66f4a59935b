-- ===== src/Auth/Checks.antt =====
-- What a request that passes the checks of hub/auth/deps.py has shown.
use artic_trader.Prelude.{
  ℕ, String, Bool, true, false, Option, none, some, ◌≡◌, refl, present, eq_iff, arith, leb,
}
use mathlib.Core.Path.{subst}
use artic_trader.Prelude.Exec.{ok}
use artic_trader.Prelude.Results.{Returns, Returns-self, Returns-bind}
use artic_trader.Dict.{get}
use artic_trader.Auth.State.{SessionKey, Db, Request, HttpError, Outside}
use artic_trader.Auth.Session.{
  required, is_none, http, canonical_request, verify_session_signature, active, load_active_session,
  get_current_user, Signed, signed, check_request,
}

-- The user is known, the three headers are there, the session is the user's, neither revoked nor
-- expired, and its key signed the method, the path, the body, the session and the nonce.
pub record IsAuthorised (O : Outside) (r : Request) (db : Db) (s : Signed) : Type 0 where
  pub user : get_current_user O db r ≡ ok s.user_id
  pub id : present r.session_id ≡ some s.session_id
  pub session : load_active_session db s.session_id s.user_id r.now ≡ some s.key
  pub raw_nonce : String
  pub nonce_header : present r.raw_nonce ≡ some raw_nonce
  pub nonce : O.int raw_nonce ≡ some s.nonce
  pub signature : String
  pub signature_header : present r.signature ≡ some signature
  pub verified :
      verify_session_signature O s.key.session_pub
        (canonical_request O r.method r.path r.body s.session_id s.nonce)
        signature
      ≡ true

pub required-some :
    {A : Type 0} (x : Option A) (e : HttpError) → Returns (λ a. x ≡ some a) (required x e)
required-some none e = tt
required-some (some a) e = refl

signed-true :
    (P : Signed → Type 0) (b : Bool) (s : Signed) → (b ≡ true → P s) → Returns P (signed b s)
signed-true P true s h = h refl
signed-true P false s h = tt

pub check_request-IsAuthorised :
    (O : Outside) (r : Request) (db : Db) → Returns (IsAuthorised O r db) (check_request O r db)
unfolding check_request
check_request-IsAuthorised O r db =
    let P = IsAuthorised O r db in
    Returns-bind _ P (get_current_user O db r) _ (Returns-self (get_current_user O db r))
      (λ user_id hu.
        Returns-bind _ P (required (present r.session_id) (http 401 "Session signature required")) _
          (required-some _ _)
          (λ session_id hi.
            Returns-bind _ P
              (required (present r.raw_nonce) (http 401 "Session signature required")) _
              (required-some _ _)
              (λ raw hr.
                Returns-bind _ P
                  (required (present r.signature) (http 401 "Session signature required")) _
                  (required-some _ _)
                  (λ sig hs.
                    Returns-bind _ P (required (O.int raw) (http 400 "Invalid X-Session-Nonce")) _
                      (required-some _ _)
                      (λ nonce hn.
                        Returns-bind _ P
                          (required (load_active_session db session_id user_id r.now)
                            (http 401 "Session expired or revoked"))
                          _ (required-some _ _)
                          (λ sess hk. signed-true P _ _ (λ v. record {
                            user = hu;
                            id = hi;
                            session = hk;
                            raw_nonce = raw;
                            nonce_header = hr;
                            nonce = hn;
                            signature = sig;
                            signature_header = hs;
                            verified = v;
                          })))))))

-- What makes a session active at a time.
abbrev pub IsActive : String → ℕ → SessionKey → Type 0
IsActive user_id now k =
    (k.user_id ≡ user_id) × (k.revoked_at ≡ none) × (leb k.expires_at now ≡ false)

-- An active session is a row of the table, of the user, not revoked and not expired.
pub load_active_session-row :
    (db : Db) (id user_id : String) (now : ℕ) (k : SessionKey)
    → load_active_session db id user_id now ≡ some k
    → (get db.sessions id ≡ some k) × IsActive user_id now k
unfolding load_active_session
load_active_session-row db id user_id now k e = inverse (get db.sessions id) e
  where
    inverse :
        (o : Option SessionKey)
        → active user_id now o ≡ some k
        → (o ≡ some k) × IsActive user_id now k
    inverse none q = cc
    inverse (some row) q =
        let (u, v, w, same) = tests row q in
        subst (λ x. (some row ≡ some x) × IsActive user_id now x) same
          (refl, (u, none_is row.revoked_at v, w))
      where
        tests :
            (row : SessionKey)
            → active user_id now (some row) ≡ some k
            → (row.user_id ≡ user_id)
              × (is_none row.revoked_at ≡ true)
              × (leb row.expires_at now ≡ false)
              × (row ≡ k)
        tests row q = ground (arith, eq_iff row.user_id user_id, q)

        none_is : (o : Option ℕ) → is_none o ≡ true → o ≡ none
        none_is none h = refl
        none_is (some n) h = cc
