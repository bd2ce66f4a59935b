-- ===== src/Auth/Replay.antt =====
-- What the nonces of hub/auth/session.py rule out, and what they do not.
use artic_trader.Prelude.{
  String, Bool, true, false, some, ◌≡◌, ◌≢◌, refl, sym, ◌∙◌, ap, eq_iff, arith, present,
  if◌then◌else◌,
}
use mathlib.Core.Path.{subst, subst₂}
use artic_trader.Prelude.Exec.{Result, ok, err}
use artic_trader.Prelude.Results.{Returns}
use artic_trader.Dict.{get, modify, get-modify}
use artic_trader.Auth.State.{
  ℤ, leb_ℤ, leb_ℤ-refl, leb_ℤ-trans, SessionKey, Db, Request, HttpError, Outside,
}
use artic_trader.Auth.Session.{
  bump_nonce_atomic, Signed, check_request, bumped, after_checks, require_session_key,
}
use artic_trader.Auth.Checks.{IsAuthorised, check_request-IsAuthorised, load_active_session-row}
use artic_trader.Auth.Endpoints.{Later}
use artic_trader.Auth.Lasting.{Has, Counts, Counts-IsLasting, bumped_db, Later-Has}

pub no_clash : false ≡ true → ⊥
no_clash h = cc

-- The row after its nonce has been raised.
pub raised_row :
    (s : Signed) (db : Db)
    → get db.sessions s.session_id ≡ some s.key
    → (bump_nonce_atomic s.session_id s.key s.nonce db).0 ≡ true
    → get (bump_nonce_atomic s.session_id s.key s.nonce db).1.sessions s.session_id
      ≡ some (record (s.key) { last_nonce = s.nonce })
unfolding bump_nonce_atomic
raised_row s db there h = outcome (leb_ℤ s.nonce s.key.last_nonce) h
  where
    set : SessionKey → SessionKey
    set k = record k { last_nonce = s.nonce }

    written_unless : Bool → Bool × Db
    written_unless b =
        if b
        then (false, db)
        else (true, record db { sessions = modify db.sessions s.session_id set })

    outcome :
        (b : Bool)
        → (written_unless b).0 ≡ true
        → get (written_unless b).1.sessions s.session_id ≡ some (set s.key)
    outcome true h = elim (no_clash h) [ ]
    outcome false h = ground (
      arith,
      get-modify db.sessions s.session_id s.session_id set,
      eq_iff s.session_id s.session_id,
      there,
    )

bump-Counts :
    (s : Signed) (db : Db)
    → get db.sessions s.session_id ≡ some s.key
    → (bump_nonce_atomic s.session_id s.key s.nonce db).0 ≡ true
    → Has (Counts s.nonce) s.session_id (bump_nonce_atomic s.session_id s.key s.nonce db).1
bump-Counts s db there h = record {
  row = record (s.key) { last_nonce = s.nonce };
  there = raised_row s db there h;
  holds = leb_ℤ-refl s.nonce;
}

pub one : {A : Type 0} {x y : A} → some x ≡ some y → x ≡ y
one e = cc

ok_one : {E A : Type 0} {x y : A} → ◌≡◌ {A = Result E A} (ok x) (ok y) → x ≡ y
ok_one e = cc

pub bumped_true : (u₀ u : String) (p : Bool × Db) → (bumped u₀ p).0 ≡ ok u → p.0 ≡ true
bumped_true u₀ u (true, db) h = refl
bumped_true u₀ u (false, db) h = cc

module _ (O : Outside) where
  -- What an accepted request has spent.
  record Spends (r : Request) (db : Db) : Type 0 where
    id : String
    raw : String
    n : ℤ
    id_header : present r.session_id ≡ some id
    nonce_header : present r.raw_nonce ≡ some raw
    nonce : O.int raw ≡ some n
    spent : Has (Counts n) id db

  accepted-Spends :
      (r : Request) (db : Db) (c : Result HttpError Signed) (u : String)
      → Returns (IsAuthorised O r db) c
      → (after_checks c db).0 ≡ ok u
      → Spends r (after_checks c db).1
  accepted-Spends r db (err e) u a h = elim (refused h) [ ]
    where
      refused : err e ≡ ok u → ⊥
      refused q = cc
  accepted-Spends r db (ok s) u a h = record {
    id = s.session_id;
    raw = a.raw_nonce;
    n = s.nonce;
    id_header = a.id;
    nonce_header = a.nonce_header;
    nonce = a.nonce;
    spent = rw (bumped_db s.user_id (bump_nonce_atomic s.session_id s.key s.nonce db)) (
        bump-Counts s db (load_active_session-row db s.session_id s.user_id r.now s.key a.session).0
          (bumped_true s.user_id u (bump_nonce_atomic s.session_id s.key s.nonce db) h));
  }

  -- The nonce of the first request is at most that of the second, however the headers spell them.
  pub record IsNoLater (r' r : Request) : Type 0 where
    pub raw' : String
    pub raw : String
    pub n' : ℤ
    pub n : ℤ
    pub header' : present r'.raw_nonce ≡ some raw'
    pub header : present r.raw_nonce ≡ some raw
    pub nonce' : O.int raw' ≡ some n'
    pub nonce : O.int raw ≡ some n
    pub at_most : leb_ℤ n' n ≡ true

  -- A spent nonce is refused.
  refuses :
      (s : Signed) (db : Db) (u : String)
      → Has (Counts s.nonce) s.session_id db
      → get db.sessions s.session_id ≡ some s.key
      → (after_checks (ok s) db).0 ≢ ok u
  unfolding bump_nonce_atomic
  refuses s db u spent there h =
      rejected (leb_ℤ s.nonce s.key.last_nonce) _
        (subst (λ k. leb_ℤ s.nonce k.last_nonce ≡ true) (same spent.there there) spent.holds) h
    where
      same :
          get db.sessions s.session_id ≡ some spent.row
          → get db.sessions s.session_id ≡ some s.key
          → spent.row ≡ s.key
      same p q = cc

      rejected :
          (b : Bool) (w : Db)
          → b ≡ true
          → (bumped s.user_id (if b then (false, db) else (true, w))).0 ≢ ok u
      rejected true w e q = cc
      rejected false w e q = no_clash e

  refused_again :
      (r r' : Request) (db : Db) (c : Result HttpError Signed) (u : String)
      → Returns (IsAuthorised O r' db) c
      → r'.session_id ≡ r.session_id
      → IsNoLater r' r
      → Spends r db
      → (after_checks c db).0 ≢ ok u
  refused_again r r' db (err e) u a i n spends h = failed h
    where
      failed : err e ≢ ok u
      failed q = cc
  refused_again r r' db (ok s) u a i n spends h =
      refuses s db u
        (subst (λ j. Has (Counts s.nonce) j db) same_id
          (record {
            row = spends.spent.row;
            there = spends.spent.there;
            holds =
                leb_ℤ-trans s.nonce spends.n spends.spent.row.last_nonce below spends.spent.holds;
          }))
        (load_active_session-row db s.session_id s.user_id r'.now s.key a.session).0 h
    where
      same_id : spends.id ≡ s.session_id
      same_id = one (sym spends.id_header ∙ ap present (sym i) ∙ a.id)

      first : n.n ≡ spends.n
      first = one (sym n.nonce ∙ ap O.int (one (sym n.header ∙ spends.nonce_header)) ∙ spends.nonce)

      second : n.n' ≡ s.nonce
      second = one (sym n.nonce' ∙ ap O.int (one (sym n.header' ∙ a.nonce_header)) ∙ a.nonce)

      below : leb_ℤ s.nonce spends.n ≡ true
      below = subst₂ (λ x y. leb_ℤ x y ≡ true) second first n.at_most

  -- Once a request has been accepted, no request of the same session with that nonce or a lower one,
  -- in whatever spelling, is accepted again, with any other path, body or time, after any requests,
  -- revocations, new keys and sign-ins, each of which is served as a whole before the next begins.
  pub require_session_key-replay :
      (r r' : Request) (db db' db'' : Db) (u u' : String)
      → require_session_key O r db ≡ (ok u, db')
      → Later O db' db''
      → r'.session_id ≡ r.session_id
      → IsNoLater r' r
      → (require_session_key O r' db'').0 ≢ ok u'
  unfolding require_session_key
  require_session_key-replay r r' db db' db'' u u' e l i n =
      refused_again r r' db'' (check_request O r' db'') u' (check_request-IsAuthorised O r' db'') i
        n later
    where
      spends : Spends r db'
      spends = subst (Spends r) (ap (λ p. p.1) e) (
          accepted-Spends r db (check_request O r db) u (check_request-IsAuthorised O r db)
            (ap (λ p. p.0) e))

      later : Spends r db''
      later = record {
        id = spends.id;
        raw = spends.raw;
        n = spends.n;
        id_header = spends.id_header;
        nonce_header = spends.nonce_header;
        nonce = spends.nonce;
        spent =
            Later-Has O (Counts spends.n) (Counts-IsLasting spends.n) spends.id db' db'' l
              spends.spent;
      }

  IsGranted : Request → Db → String → Signed → Type 0
  IsGranted r db u s =
      IsAuthorised O r db s × (s.user_id ≡ u) × (leb_ℤ s.nonce s.key.last_nonce ≡ false)

  granted :
      (r : Request) (db : Db) (c : Result HttpError Signed) (u : String)
      → Returns (IsAuthorised O r db) c
      → (after_checks c db).0 ≡ ok u
      → (s : Signed) × IsGranted r db u s
  unfolding bump_nonce_atomic IsGranted
  granted r db (err e) u a h = elim (failed h) [ ]
    where
      failed : err e ≢ ok u
      failed q = cc
  granted r db (ok s) u a h =
      let (same_user, above) = counted (leb_ℤ s.nonce s.key.last_nonce) _ h in
      (s, (a, same_user, above))
    where
      counted :
          (b : Bool) (w : Db)
          → (bumped s.user_id (if b then (false, db) else (true, w))).0 ≡ ok u
          → (s.user_id ≡ u) × (b ≡ false)
      counted true w q = elim (failed q) [ ]
        where
          failed : {x : HttpError} → err x ≢ ok u
          failed q = cc
      counted false w q = (ok_one q, refl)

  -- A request that is accepted is authorised: the user is known by a token or a key, the session is
  -- the user's, neither revoked nor expired, its key signed the method, the path, the body, the session
  -- and the nonce, and the nonce is above the session's last.
  pub require_session_key-IsAuthorised :
      (r : Request) (db db' : Db) (u : String)
      → require_session_key O r db ≡ (ok u, db')
      → (s : Signed) × (IsAuthorised O r db s
          × (s.user_id ≡ u)
          × (leb_ℤ s.nonce s.key.last_nonce ≡ false))
  unfolding require_session_key IsGranted
  require_session_key-IsAuthorised r db db' u e =
      granted r db (check_request O r db) u (check_request-IsAuthorised O r db) (ap (λ p. p.0) e)

  -- The checks read, and the write comes later: of two copies of a request whose checks both run before
  -- either writes, both are accepted.
  pub require_session_key-race :
      (r : Request) (db : Db) (s : Signed)
      → check_request O r db ≡ ok s
      → leb_ℤ s.nonce s.key.last_nonce ≡ false
      → ((after_checks (check_request O r db) db).0 ≡ ok s.user_id)
        × ((after_checks (check_request O r db) (after_checks (check_request O r db) db).1).0
            ≡ ok s.user_id)
  unfolding bump_nonce_atomic
  require_session_key-race r db s e h = rw (e, h) (refl, refl)
