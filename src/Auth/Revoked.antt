-- ===== src/Auth/Revoked.antt =====
-- Revocations of session keys (DELETE /auth/session of hub/auth/router.py).
use artic_trader.Prelude.{
  ℕ, String, Bool, true, false, Option, none, some, ◌≡◌, ◌≢◌, refl, sym, ◌∙◌, ap, eq_iff, arith,
  present,
}
use mathlib.Core.Path.{subst}
use text.Mathlib.TextPositions.{eq_refl}
use artic_trader.Prelude.Exec.{Result, ok, err}
use artic_trader.Prelude.Results.{Returns}
use artic_trader.Dict.{get, get-modify}
use artic_trader.Auth.State.{SessionKey, Db, Request, HttpError, Outside}
use artic_trader.Auth.Session.{
  is_none, load_active_session, active, bump_nonce_atomic, Signed, check_request, bumped,
  after_checks, require_session_key,
}
use artic_trader.Auth.Checks.{
  IsAuthorised, check_request-IsAuthorised, IsActive, load_active_session-row,
}
use artic_trader.Auth.Endpoints.{revoke_session, header, revoke_for, revoke_current_session, Later}
use artic_trader.Auth.Lasting.{Has, IsRevoked, IsRevoked-IsLasting, Later-Has}
use artic_trader.Auth.Replay.{raised_row, one, no_clash}

active_if :
    (user_id : String) (now : ℕ) (k : SessionKey)
    → IsActive user_id now k
    → active user_id now (some k) ≡ some k
active_if user_id now k (u, v, w) = rw (u, v, w, eq_refl user_id) refl

module _ (O : Outside) where
  loads_if :
      (db : Db) (id user_id : String) (now : ℕ) (k : SessionKey)
      → get db.sessions id ≡ some k
      → IsActive user_id now k
      → load_active_session db id user_id now ≡ some k
  unfolding load_active_session
  loads_if db id user_id now k there a = rw there (active_if user_id now k a)

  header-present : (h : Option String) {id : String} → present h ≡ some id → header h ≡ id
  header-present none e = cc
  header-present (some s) e = ground (arith, e)

  revoke_session-IsRevoked :
      (id : String) (now : ℕ) (db : Db) (k : SessionKey)
      → get db.sessions id ≡ some k
      → Has IsRevoked id (revoke_session id now db)
  unfolding revoke_session
  revoke_session-IsRevoked id now db k there = record {
    row = record k { revoked_at = some now };
    there = ground (
      arith,
      get-modify db.sessions id id (λ k. record k { revoked_at = some now }),
      eq_iff id id,
      there,
    );
    holds = refl;
  }

  revoke_for-IsRevoked :
      (r : Request) (db : Db) (s : Signed) (p : Bool × Db)
      → IsAuthorised O r db s
      → bump_nonce_atomic s.session_id s.key s.nonce db ≡ p
      → (revoke_for r (bumped s.user_id p).0 (bumped s.user_id p).1).0 ≡ ok tt
      → Has IsRevoked s.session_id (revoke_for r (bumped s.user_id p).0 (bumped s.user_id p).1).1
  revoke_for-IsRevoked r db s (false, db₁) a e h = elim (failed h) [ ]
    where
      failed : {x : HttpError} → err x ≡ ok tt → ⊥
      failed q = cc
  revoke_for-IsRevoked r db s (true, db₁) a e h =
      rw (header-present r.session_id a.id, loads)
        (revoke_session-IsRevoked s.session_id r.now db₁ (record (s.key) { last_nonce = s.nonce })
          row)
    where
      was : (get db.sessions s.session_id ≡ some s.key) × IsActive s.user_id r.now s.key
      was = load_active_session-row db s.session_id s.user_id r.now s.key a.session

      row : get db₁.sessions s.session_id ≡ some (record (s.key) { last_nonce = s.nonce })
      row =
          subst
            (λ q. get q.1.sessions s.session_id ≡ some (record (s.key) { last_nonce = s.nonce })) e
            (raised_row s db was.0 (ap (λ q. q.0) e))

      loads :
          load_active_session db₁ s.session_id s.user_id r.now
          ≡ some (record (s.key) { last_nonce = s.nonce })
      loads =
          loads_if db₁ s.session_id s.user_id r.now (record (s.key) { last_nonce = s.nonce }) row
            was.1

  Revokes : Request → Db → Type 0
  Revokes r db = (id : String) × (present r.session_id ≡ some id) × Has IsRevoked id db

  revoked_after :
      (r : Request) (db : Db) (c : Result HttpError Signed)
      → Returns (IsAuthorised O r db) c
      → (revoke_for r (after_checks c db).0 (after_checks c db).1).0 ≡ ok tt
      → Revokes r (revoke_for r (after_checks c db).0 (after_checks c db).1).1
  unfolding Revokes
  revoked_after r db (err x) a h = elim (failed h) [ ]
    where
      failed : err x ≡ ok tt → ⊥
      failed q = cc
  revoked_after r db (ok s) a h = (
    s.session_id,
    a.id,
    revoke_for-IsRevoked r db s (bump_nonce_atomic s.session_id s.key s.nonce db) a refl h,
  )

  still_refused :
      (r' : Request) (db : Db) (c : Result HttpError Signed) (u id : String)
      → Returns (IsAuthorised O r' db) c
      → present r'.session_id ≡ some id
      → Has IsRevoked id db
      → (after_checks c db).0 ≢ ok u
  still_refused r' db (err x) u id a i has h = failed h
    where
      failed : err x ≢ ok u
      failed q = cc
  still_refused r' db (ok s) u id a i has h = no_clash (sym has.holds ∙ was_open)
    where
      was : (get db.sessions s.session_id ≡ some s.key) × IsActive s.user_id r'.now s.key
      was = load_active_session-row db s.session_id s.user_id r'.now s.key a.session

      same_key : has.row ≡ s.key
      same_key = one (sym has.there ∙ ap (get db.sessions) (one (sym i ∙ a.id)) ∙ was.0)

      was_open : is_none has.row.revoked_at ≡ true
      was_open = rw (same_key, was.1.1) refl

  -- Once a session has been revoked, no request is accepted with it, whatever is served in between.
  pub revoke_current_session-final :
      (r r' : Request) (db db' db'' : Db) (u' : String)
      → revoke_current_session O r db ≡ (ok tt, db')
      → Later O db' db''
      → r'.session_id ≡ r.session_id
      → (require_session_key O r' db'').0 ≢ ok u'
  unfolding revoke_current_session require_session_key Revokes
  revoke_current_session-final r r' db db' db'' u' e l i =
      let (id, p, has) = subst (Revokes r) (ap (λ q. q.1) e) (
        revoked_after r db (check_request O r db) (check_request-IsAuthorised O r db)
          (ap (λ q. q.0) e)) in
      still_refused r' db'' (check_request O r' db'') u' id (check_request-IsAuthorised O r' db'')
        (ap present i ∙ p) (Later-Has O IsRevoked IsRevoked-IsLasting id db' db'' l has)
