-- ===== src/Auth/Lasting.antt =====
-- What stays true of a session's row in hub/auth, whatever requests are served.
use artic_trader.Prelude.{
  ℕ, String, Bool, true, false, Option, none, some, ◌≡◌, refl, Bool-cases, inl, inr, str_eq, eq_iff,
  arith,
}
use mathlib.Core.Path.{subst}
use artic_trader.Prelude.Exec.{Result, ok, err}
use artic_trader.Prelude.Results.{Returns}
use artic_trader.Dict.{get, modify, get-put, get-modify}
use artic_trader.Auth.State.{
  ℤ, pos, leb_ℤ, leb_ℤ-trans, leb_ℤ-total, SessionKey, Db, Request, HttpError, Outside,
}
use artic_trader.Auth.Session.{
  is_none, bump_nonce_atomic, Signed, check_request, bumped, after_checks, require_session_key,
}
use artic_trader.Auth.Checks.{IsAuthorised, check_request-IsAuthorised, load_active_session-row}
use artic_trader.Auth.Endpoints.{
  revoke_session, revoke_if, revoke_for, revoke_current_session, key_for, generate_key,
  open_session, Later, same, checked, revoked, key_made, opened,
}

-- The session is there, and `P` holds of its row.
pub record Has (P : SessionKey → Type 0) (id : String) (db : Db) : Type 0 where
  pub row : SessionKey
  pub there : get db.sessions id ≡ some row
  pub holds : P row

-- What no request undoes: neither a higher nonce nor a revocation ends it.
pub record IsLasting (P : SessionKey → Type 0) : Type 0 where
  pub raised :
      (k : SessionKey) (n : ℤ) → leb_ℤ k.last_nonce n ≡ true → P k → P (record k { last_nonce = n })
  pub revoked : (k : SessionKey) (now : ℕ) → P k → P (record k { revoked_at = some now })

-- The nonce has been used: the row has counted up to it at least.
abbrev pub Counts : ℤ → SessionKey → Type 0
Counts n k = leb_ℤ n k.last_nonce ≡ true

abbrev pub IsRevoked : SessionKey → Type 0
IsRevoked k = is_none k.revoked_at ≡ false

pub Counts-IsLasting : (n : ℤ) → IsLasting (Counts n)
Counts-IsLasting n = record {
  raised = λ k m h c. leb_ℤ-trans n k.last_nonce m c h;
  revoked = λ k now c. c;
}

pub IsRevoked-IsLasting : IsLasting IsRevoked
IsRevoked-IsLasting = record { raised = λ k m h c. c; revoked = λ k now c. refl }

modify-Has :
    (P : SessionKey → Type 0) (id j : String) (db : Db) (f : SessionKey → SessionKey)
    → ((k : SessionKey) → get db.sessions j ≡ some k → P k → P (f k))
    → Has P id db
    → Has P id (record db { sessions = modify db.sessions j f })
modify-Has P id j db f keeps s = elim (Bool-cases (str_eq j id)) [
  | inl e ↦ record {
    row = f s.row;
    there = ground (arith, get-modify db.sessions j id f, e, s.there);
    holds = keeps s.row (at_id e) s.holds;
  }
  | inr e ↦ record {
    row = s.row;
    there = ground (arith, get-modify db.sessions j id f, e, s.there);
    holds = s.holds;
  }
]
  where
    at_id : str_eq j id ≡ true → get db.sessions j ≡ some s.row
    at_id e = ground (arith, eq_iff j id, e, s.there)

pub bumped_db : (u : String) (b : Bool × Db) → (bumped u b).1 ≡ b.1
bumped_db u (true, db) = refl
bumped_db u (false, db) = refl

module _ (O : Outside) (P : SessionKey → Type 0) (lasting : IsLasting P) (id : String) where
  bumped-Has :
      (db : Db) (s : Signed)
      → get db.sessions s.session_id ≡ some s.key
      → Has P id db
      → Has P id (bump_nonce_atomic s.session_id s.key s.nonce db).1
  unfolding bump_nonce_atomic
  bumped-Has db s there spent = elim (Bool-cases (leb_ℤ s.nonce s.key.last_nonce)) [
    | inl e ↦ rw e spent
    | inr e ↦ rw e (
        modify-Has P id s.session_id db (λ k. record k { last_nonce = s.nonce })
          (λ k h. lasting.raised k s.nonce (grown k h e)) spent)
  ]
    where
      grown :
          (k : SessionKey)
          → get db.sessions s.session_id ≡ some k
          → leb_ℤ s.nonce s.key.last_nonce ≡ false
          → leb_ℤ k.last_nonce s.nonce ≡ true
      grown k h e =
          leb_ℤ-total s.nonce k.last_nonce
            (subst (λ x. leb_ℤ s.nonce x.last_nonce ≡ false) (same h) e)
        where
          same : get db.sessions s.session_id ≡ some k → s.key ≡ k
          same h = cc

  after_checks-Has :
      (r : Request) (db : Db) (c : Result HttpError Signed)
      → Returns (IsAuthorised O r db) c
      → Has P id db
      → Has P id (after_checks c db).1
  after_checks-Has r db (err e) a spent = spent
  after_checks-Has r db (ok s) a spent =
      rw (bumped_db s.user_id (bump_nonce_atomic s.session_id s.key s.nonce db)) (
        bumped-Has db s (load_active_session-row db s.session_id s.user_id r.now s.key a.session).0
          spent)

  require-Has : (r : Request) (db : Db) → Has P id db → Has P id (require_session_key O r db).1
  unfolding require_session_key
  require-Has r db spent =
      after_checks-Has r db (check_request O r db) (check_request-IsAuthorised O r db) spent

  revoke_if-Has :
      (k : Option SessionKey) (j : String) (now : ℕ) (db : Db)
      → Has P id db
      → Has P id (revoke_if k j now db)
  unfolding revoke_session
  revoke_if-Has none j now db spent = spent
  revoke_if-Has (some k) j now db spent =
      modify-Has P id j db (λ k. record k { revoked_at = some now }) (λ k h. lasting.revoked k now)
        spent

  revoke_for-Has :
      (r : Request) (u : Result HttpError String) (db : Db)
      → Has P id db
      → Has P id (revoke_for r u db).1
  revoke_for-Has r (err e) db spent = spent
  revoke_for-Has r (ok u) db spent = revoke_if-Has _ _ r.now db spent

  key_for-Has :
      (seed : ℕ) (u : Result HttpError String) (db : Db)
      → Has P id db
      → Has P id (key_for O seed u db).1
  key_for-Has seed (err e) db spent = spent
  key_for-Has seed (ok u) db spent = record {
    row = spent.row;
    there = spent.there;
    holds = spent.holds;
  }

  open_session-Has :
      (j u p s : String) (t : ℕ) (db : Db)
      → get db.sessions j ≡ none
      → Has P id db
      → Has P id (open_session j u p s t db)
  unfolding open_session
  open_session-Has j u p s t db new spent = record {
    row = spent.row;
    there = ground (arith, get-put db.sessions j id fresh, eq_iff j id, new, spent.there);
    holds = spent.holds;
  }
    where
      fresh : SessionKey
      fresh = record {
        user_id = u;
        session_pub = p;
        scope = s;
        expires_at = t;
        last_nonce = pos 0;
        revoked_at = none;
      }

  pub Later-Has : (db db' : Db) → Later O db db' → Has P id db → Has P id db'
  unfolding revoke_current_session generate_key
  Later-Has db _ same spent = spent
  Later-Has db _ (checked {db' = mid} r l) spent = require-Has r mid (Later-Has db mid l spent)
  Later-Has db _ (revoked {db' = mid} r l) spent =
      revoke_for-Has r _ _ (require-Has r mid (Later-Has db mid l spent))
  Later-Has db _ (key_made {db' = mid} seed r l) spent =
      key_for-Has seed _ _ (require-Has r mid (Later-Has db mid l spent))
  Later-Has db _ (opened {db' = mid} j u p s t new l) spent =
      open_session-Has j u p s t mid new (Later-Has db mid l spent)
