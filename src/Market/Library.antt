-- ===== src/Market/Library.antt =====
-- hub/strategies/router.py: the strategies of a user. A new id is an argument, as `uuid4` draws it. A
-- commit raises where it breaks a key, and what was written before is rolled back.
use mathlib.Core.List.{reverse}
use artic_trader.Prelude.{
  suc, ◌-◌, ◌||◌, not, String, str_eq, Bool, true, false, Option, none, some, List, [], ◌∷◌,
  present, if◌then◌else◌, ltb,
}
use artic_trader.Prelude.Exec.{Result, ok, err, Exec, raise, gets, ◌>>=◌}
use artic_trader.Prelude.Results.{lift}
use artic_trader.Dict.{Dict, get, put, assign}
use artic_trader.Auth.State.{HttpError}
use artic_trader.Auth.Session.{http}
use artic_trader.Market.State.{
  Source, builtin, marketplace, authored, UserStrategy, Listing, Tables, Caller, erase,
  is_marketplace, name_taken, find_copy,
}

pub record StrategyCreate (J : Type 0) : Type 0 where
  pub name : String
  pub code : String
  pub params_schema : Option J

pub record StrategyPatch (J : Type 0) : Type 0 where
  pub name : Option String
  pub code : Option String
  pub params_schema : Option J

-- What the endpoints use of Python and of the libraries.
pub record Outside : Type 0 where
  pub hash_code : String → String
  pub lower : String → String
  pub startswith : String → String → Bool

abbrev pub is_authored : Source → Bool
is_authored authored = true
is_authored _ = false

abbrev pub is_builtin : Source → Bool
is_builtin builtin = true
is_builtin _ = false

abbrev pub is_some : {A : Type 0} → Option A → Bool
is_some none = false
is_some (some a) = true

-- x if x is not None else y
abbrev pub given : {A : Type 0} → Option A → A → A
given none y = y
given (some x) y = x

abbrev pub or_else : {A : Type 0} → Option A → Option A → Option A
or_else none y = y
or_else (some x) y = some x

abbrev pub Step : Type 0 → Type 0 → Type 0
Step J B = Exec (Tables J) HttpError B

module _ {J : Type 0} where
  abbrev pub owned : Option (UserStrategy J) → String → Result HttpError (UserStrategy J)
  owned none user_id = err (http 404 "Strategy not found")
  owned (some row) user_id =
      if str_eq row.user_id user_id then ok row else err (http 404 "Strategy not found")

  unfoldable pub load_owned : String → String → Step J (UserStrategy J)
  load_owned strategy_id user_id s = (owned (get s.strategies strategy_id) user_id, s)

  abbrev pub mine : String → Dict (UserStrategy J) → List (String × UserStrategy J)
  mine user_id [] = []
  mine user_id ((k, r) ∷ d) =
      let rest = mine user_id d in if str_eq r.user_id user_id then (k, r) ∷ rest else rest

  -- GET /strategies: the rows are kept in the order of their creation, and are listed the newest first.
  unfoldable pub list_strategies : Caller → Step J (List (String × UserStrategy J))
  list_strategies user s = (ok (reverse (mine user.id s.strategies)), s)

  -- The commit of a library: the row under this id must not break a key.
  abbrev pub commit : Bool → String → Tables J → Step J Unit
  commit broken detail new s = if broken then (err (http 409 detail), s) else (ok tt, new)

  abbrev pub record_audit : String → String → String → Step J Unit
  record_audit actor action target s = (
    ok tt,
    record s { audits = record { actor = actor; action = action; target = target } ∷ s.audits },
  )

  -- A new row: its id and the name must be free.
  abbrev pub add_row : String → UserStrategy J → (Tables J → Tables J) → String → Step J Unit
  add_row id row also detail s =
      commit (is_some (get s.strategies id) || name_taken s.strategies id row.user_id row.name)
        detail (also (record s { strategies = put s.strategies id row })) s

  unfoldable pub create_authored :
      Outside → String → Caller → StrategyCreate J → Step J (UserStrategy J)
  create_authored O id user body =
      if str_eq (O.lower body.name) "builtin" then raise (http 400 "Reserved name") else (do
        let row : UserStrategy J = record {
          user_id = user.id;
          source = authored;
          name = body.name;
          code_hash = some (O.hash_code body.code);
          code_blob = some body.code;
          params_schema = body.params_schema;
          marketplace_id = none;
        }
        _ ← add_row id row (λ s. s) "Strategy name already in use"
        _ ← record_audit user.id "strategy.create" id
        (λ s. (ok row, s)))

  unfoldable pub patched : Outside → StrategyPatch J → UserStrategy J → UserStrategy J
  patched O body row = record row {
    name = given body.name row.name;
    code_blob = or_else body.code row.code_blob;
    code_hash = hashed body.code;
    params_schema = or_else body.params_schema row.params_schema;
  }
    where
      hashed : Option String → Option String
      hashed none = row.code_hash
      hashed (some code) = some (O.hash_code code)

  abbrev pub write_row : String → UserStrategy J → Step J Unit
  write_row id row s =
      commit (name_taken s.strategies id row.user_id row.name) "Strategy name already in use"
        (record s { strategies = assign s.strategies id (λ r. row) }) s

  unfoldable pub patch_strategy :
      Outside → String → Caller → StrategyPatch J → Step J (UserStrategy J)
  patch_strategy O strategy_id user body = do
    row ← load_owned strategy_id user.id
    if not (is_authored row.source)
        then raise (http 403 "Only authored strategies can be edited")
        else (do
          _ ← write_row strategy_id (patched O body row)
          (λ s. (ok (patched O body row), s)))

  -- mp.installs_count -= 1, if there is such a row and the count is positive
  abbrev pub one_less : Listing J → Listing J
  one_less l = record l {
    installs_count = if ltb 0 l.installs_count then l.installs_count - 1 else l.installs_count;
  }

  abbrev pub uninstall : Source → Option String → Dict (Listing J) → Dict (Listing J)
  uninstall source none d = d
  uninstall source (some k) d = if is_marketplace source then assign d k one_less else d

  unfoldable pub delete_strategy : String → Caller → Step J Unit
  delete_strategy strategy_id user = do
    row ← load_owned strategy_id user.id
    if is_builtin row.source then raise (http 403 "Cannot remove builtin strategy") else (λ s. (
      ok tt,
      record s {
        strategies = erase s.strategies strategy_id;
        listings = uninstall row.source (present row.marketplace_id) s.listings;
      },
    ))

  abbrev pub listed : Option (Listing J) → Result HttpError (Listing J)
  listed none = err (http 404 "Marketplace strategy not found")
  listed (some l) = if l.delisted then err (http 404 "Marketplace strategy not found") else ok l

  abbrev pub copy_of : String → String → Listing J → UserStrategy J
  copy_of user_id k l = record {
    user_id = user_id;
    source = marketplace;
    name = l.name;
    code_hash = some l.code_hash;
    code_blob = some l.code_blob;
    params_schema = l.params_schema;
    marketplace_id = some k;
  }

  abbrev pub one_more : Listing J → Listing J
  one_more l = record l { installs_count = suc l.installs_count }

  abbrev pub install_new : String → String → Caller → Listing J → Step J (UserStrategy J)
  install_new k id user l = do
    _ ←
        add_row id (copy_of user.id k l) (λ s. record s { listings = assign s.listings k one_more })
          "Strategy name conflicts in your library"
    _ ← record_audit user.id "strategy.install" k
    (λ s. (ok (copy_of user.id k l), s))

  abbrev pub install_or_keep :
      String
      → String
      → Caller
      → Listing J
      → Option (String × UserStrategy J)
      → Step J (UserStrategy J)
  install_or_keep k id user l (some (j, row)) = λ s. (ok row, s)
  install_or_keep k id user l none = install_new k id user l

  -- The call that grants usage of the token writes no table.
  unfoldable pub install_marketplace : String → String → Caller → Step J (UserStrategy J)
  install_marketplace k id user s =
      (gets (λ s. listed (get s.listings k)) >>= λ r.
      lift r >>= λ l. install_or_keep k id user l (find_copy s.strategies user.id k))
        s
