-- ===== src/Auth/Keys.antt =====
-- API keys: POST /api/keys of hub/auth/router.py, and their use in hub/auth/deps.py.
use Prim.Native.String.{◌++◌ as ◌<>◌, count}
use text.Mathlib.TextLemmas.{length-append}
use artic_trader.Prelude.{
  ℕ, String, Bool, true, false, Option, none, some, [], ◌∷◌, ◌≡◌, refl, sym, ◌∙◌, ap, Bool-cases,
  inl, inr, str_eq, eq_iff, arith, present, if◌then◌else◌,
}
use mathlib.Core.Path.{subst}
use artic_trader.Prelude.Exec.{Result, ok, err}
use artic_trader.Dict.{Dict, get, modify}
use artic_trader.Auth.State.{Account, Db, Request, HttpError, Outside}
use artic_trader.Auth.Session.{
  http, required, known_user, find_by_key, by_token, by_key, by_header, get_current_user, Signed,
  bump_nonce_atomic, check_request, after_checks, require_session_key,
}
use artic_trader.Auth.Replay.{require_session_key-IsAuthorised}
use artic_trader.Auth.Endpoints.{key_for, generate_key}

-- The user's new hash is found under the user, if nobody had it.
find_by_key-modify :
    (us : Dict Account) (u h : String) (a : Account)
    → get us u ≡ some a
    → find_by_key us h ≡ none
    → find_by_key (modify us u (λ x. record x { api_key_hash = some h })) h ≡ some u
unfolding get find_by_key modify
find_by_key-modify [] u h v e f = cc
find_by_key-modify ((id, a) ∷ us) u h v e f = elim (Bool-cases (str_eq id u)) [
  | inl same ↦ rw same (ground (arith, eq_iff h h, eq_iff id u, same))
  | inr other ↦ rw other (
      step _ (find_by_key-modify us u h v) f
        (subst (λ b. (if b then some a else get us u) ≡ some v) other e))
]
  where
    step :
        (b : Bool)
        → (get us u ≡ some v
            → find_by_key us h ≡ none
            → find_by_key (modify us u (λ x. record x { api_key_hash = some h })) h ≡ some u)
        → (if b then some id else find_by_key us h) ≡ none
        → (get us u ≡ some v)
        → (if b
            then some id
            else find_by_key (modify us u (λ x. record x { api_key_hash = some h })) h)
          ≡ some u
    step true ih q w = cc
    step false ih q w = ih w q

find_later :
    (b : Bool) (id u : String) (rest : Option String)
    → str_eq id u ≡ false
    → (if b then some id else rest) ≡ some u
    → rest ≡ some u
find_later true id u rest other e = ground (arith, eq_iff id u, other, e)
find_later false id u rest other e = e

-- A user who is found by a key has a row.
find_by_key-get :
    (us : Dict Account) (h u : String)
    → find_by_key us h ≡ some u
    → (a : Account) × (get us u ≡ some a)
unfolding get find_by_key
find_by_key-get [] h u e = cc
find_by_key-get ((id, a) ∷ us) h u e = elim (Bool-cases (str_eq id u)) [
  | inl same ↦ rw same (a, refl)
  | inr other ↦ rw other (find_by_key-get us h u (find_later _ id u _ other e))
]

-- The user of a request has a row.
get_current_user-get :
    (O : Outside) (db : Db) (r : Request) (u : String) (o : Option String)
    → by_header O db r o ≡ ok u
    → (a : Account) × (get db.users u ≡ some a)
get_current_user-get O db r u none e = keyed (present r.api_key) e
  where
    keyed :
        (k : Option String) → by_key O db.users k ≡ ok u → (a : Account) × (get db.users u ≡ some a)
    keyed none q = cc
    keyed (some k) q = found (find_by_key db.users (O.hash_api_key k)) refl q
      where
        found :
            (f : Option String)
            → find_by_key db.users (O.hash_api_key k) ≡ f
            → required f (http 401 "Missing or invalid credentials") ≡ ok u
            → (a : Account) × (get db.users u ≡ some a)
        found none h w = cc
        found (some id) h w = find_by_key-get db.users (O.hash_api_key k) u cc
get_current_user-get O db r u (some token) e = decoded (O.verify_jwt token r.now) e
  where
    decoded :
        (j : Option String) → by_token db.users j ≡ ok u → (a : Account) × (get db.users u ≡ some a)
    decoded none q = cc
    decoded (some id) q = row (get db.users id) refl q
      where
        row :
            (o : Option Account)
            → get db.users id ≡ o
            → known_user id o ≡ ok u
            → (a : Account) × (get db.users u ≡ some a)
        row none h w = cc
        row (some a) h w = (a, cc)

after_checks-users :
    (x : Result HttpError Signed) (db : Db) → (after_checks x db).1.users ≡ db.users
unfolding bump_nonce_atomic
after_checks-users (err e) db = refl
after_checks-users (ok s) db = ground (arith)

present-prefixed : (t : String) → present (some ("artic_" <> t)) ≡ some ("artic_" <> t)
present-prefixed t = elim (Bool-cases (str_eq ("artic_" <> t) "")) [
  | inl same ↦
      (let empty = ap count ((eq_iff ("artic_" <> t) "").0 same) in
        let long = length-append "artic_" t in ground (arith, empty, long))
  | inr other ↦ rw other refl
]

module _ (O : Outside) where
  with_key :
      (db : Db) (r : Request) (u t : String) (a : Account)
      → get db.users u ≡ some a
      → find_by_key db.users (O.hash_api_key ("artic_" <> t)) ≡ none
      → r.bearer ≡ none
      → r.api_key ≡ some ("artic_" <> t)
      → get_current_user O
          (record db {
            users =
                modify db.users u
                  (λ x. record x { api_key_hash = some (O.hash_api_key ("artic_" <> t)) });
          })
          r
        ≡ ok u
  unfolding get_current_user
  with_key db r u t a e f b k =
      rw
        (
          b,
          k,
          present-prefixed t,
          find_by_key-modify db.users u (O.hash_api_key ("artic_" <> t)) a e f,
        )
        refl

  made :
      (seed : ℕ) (db db' : Db) (r r' : Request) (key : String) (x : Result HttpError String)
      (d : Db)
      → d.users ≡ db.users
      → ((u : String) → x ≡ ok u → get_current_user O db r ≡ ok u)
      → key_for O seed x d ≡ (ok key, db')
      → find_by_key db.users (O.hash_api_key key) ≡ none
      → r'.bearer ≡ none
      → r'.api_key ≡ some key
      → get_current_user O db' r' ≡ get_current_user O db r
  unfolding get_current_user
  made seed db db' r r' key (err e) d s h q f b k = cc
  made seed db db' r r' key (ok u) d s h q f b k =
      let (a, row) = get_current_user-get O db r u r.bearer (h u refl) in
      let same : "artic_" <> O.token seed ≡ key = cc in
      let fresh = subst (λ t. find_by_key db.users (O.hash_api_key t) ≡ none) (sym same) f in
      let found =
        with_key d r' u (O.token seed) a (subst (λ us. get us u ≡ some a) (sym s) row)
          (subst (λ us. find_by_key us (O.hash_api_key ("artic_" <> O.token seed)) ≡ none) (sym s)
            fresh)
          b (k ∙ ap some (sym same)) in
      subst (λ z. get_current_user O z r' ≡ ok u) (ap (λ p. p.1) q) found ∙ sym (h u refl)

  -- If POST /api/keys returns a key, whose hash no row had, then a later request with this key and no
  -- token is the same user's, on the tables that the call left.
  pub generate_key-get_current_user :
      (seed : ℕ) (r r' : Request) (db db' : Db) (key : String)
      → generate_key O seed r db ≡ (ok key, db')
      → find_by_key db.users (O.hash_api_key key) ≡ none
      → r'.bearer ≡ none
      → r'.api_key ≡ some key
      → get_current_user O db' r' ≡ get_current_user O db r
  unfolding generate_key require_session_key
  generate_key-get_current_user seed r r' db db' key e f b k =
      made seed db db' r r' key (after_checks (check_request O r db) db).0
        (after_checks (check_request O r db) db).1 (after_checks-users (check_request O r db) db)
        granted e f b k
    where
      granted :
          (u : String)
          → (after_checks (check_request O r db) db).0 ≡ ok u
          → get_current_user O db r ≡ ok u
      granted u q =
          let (s, (shown, own, later)) =
            require_session_key-IsAuthorised O r db _ u
              (ap (λ x. (x, (after_checks (check_request O r db) db).1)) q) in
          subst (λ v. get_current_user O db r ≡ ok v) own shown.user
