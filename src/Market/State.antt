-- ===== src/Market/State.antt =====
-- The rows of hub/db/models/strategy.py. `J` is what `json` makes of a column.
use artic_trader.Prelude.{
  ℕ, suc, ◌&&◌, ◌||◌, not, String, str_eq, Bool, true, false, Option, none, some, List, [], ◌∷◌,
  if◌then◌else◌,
}
use artic_trader.Dict.{Dict}
use artic_trader.Auth.State.{ℤ}

pub data Source : Type 0 where
  builtin marketplace authored : Source

pub record UserStrategy (J : Type 0) : Type 0 where
  pub user_id : String
  pub source : Source
  pub name : String
  pub code_hash : Option String
  pub code_blob : Option String
  pub params_schema : Option J
  pub marketplace_id : Option String

-- The figures of a backtest, set together.
pub record Metrics : Type 0 where
  pub sharpe_bps : ℤ
  pub max_dd_bps : ℤ
  pub total_return_bps : ℤ
  pub win_rate_bps : ℤ
  pub n_trades : ℤ

pub record Listing (J : Type 0) : Type 0 where
  pub author_user_id : String
  pub name : String
  pub code_hash : String
  pub code_blob : String
  pub params_schema : Option J
  pub installs_count : ℕ
  pub reports_count : ℕ
  pub delisted : Bool
  pub metrics : Option Metrics
  pub registry_tx : Option String
  pub attest_tx : Option String
  pub inft_token_id : Option ℕ
  pub inft_mint_tx : Option String

pub record Report : Type 0 where
  pub strategy_id : String
  pub reporter_user_id : String
  pub reason : String

-- A line of the audit log: who did what to which row.
pub record Audit : Type 0 where
  pub actor : String
  pub action : String
  pub target : String

-- The tables, by the rows' ids, which are their primary keys.
pub record Tables (J : Type 0) : Type 0 where
  pub strategies : Dict (UserStrategy J)
  pub listings : Dict (Listing J)
  pub reports : List Report
  pub audits : List Audit

-- The user of a request.
pub record Caller : Type 0 where
  pub id : String
  pub wallet_chain : String
  pub wallet_address : String

abbrev pub is_marketplace : Source → Bool
is_marketplace marketplace = true
is_marketplace _ = false

abbrev pub is_id : Option String → String → Bool
is_id none k = false
is_id (some i) k = str_eq i k

module _ {J : Type 0} where
  -- Delete the row with an id: the first is the only one.
  unfoldable pub erase : Dict (UserStrategy J) → String → Dict (UserStrategy J)
  erase [] k = []
  erase ((j, r) ∷ d) k = let rest = erase d k in if str_eq j k then d else (j, r) ∷ rest

  -- A copy of the listing.
  abbrev pub is_copy : UserStrategy J → String → Bool
  is_copy r k = is_marketplace r.source && is_id r.marketplace_id k

  -- The copies of a listing in the users' libraries.
  unfoldable pub copies : Dict (UserStrategy J) → String → ℕ
  copies [] k = 0
  copies ((j, r) ∷ d) k = let rest = copies d k in if is_copy r k then suc rest else rest

  -- uq_user_strategies_name: another row of the user has the name.
  unfoldable pub name_taken : Dict (UserStrategy J) → String → String → String → Bool
  name_taken [] id user_id name = false
  name_taken ((j, r) ∷ d) id user_id name =
      (not (str_eq j id) && str_eq r.user_id user_id && str_eq r.name name)
      || name_taken d id user_id name

  -- select(...).where(user_id == ..., marketplace_id == ...): the row's id and the row
  -- The first of several rows, where the query would raise; no request makes a second one.
  unfoldable pub find_copy :
      Dict (UserStrategy J) → String → String → Option (String × UserStrategy J)
  find_copy [] user_id k = none
  find_copy ((j, r) ∷ d) user_id k =
      if str_eq r.user_id user_id && is_id r.marketplace_id k
      then some (j, r)
      else find_copy d user_id k

  -- select(...).where(author_user_id == ..., code_hash == ...): the listing's id
  unfoldable pub find_listing : Dict (Listing J) → String → String → Option String
  find_listing [] author hash = none
  find_listing ((j, l) ∷ d) author hash =
      if str_eq l.author_user_id author && str_eq l.code_hash hash
      then some j
      else find_listing d author hash

-- uq_marketplace_reports_user
unfoldable pub reported_by : List Report → String → String → Bool
reported_by [] strategy_id user_id = false
reported_by (r ∷ rs) strategy_id user_id =
    (str_eq r.strategy_id strategy_id && str_eq r.reporter_user_id user_id)
    || reported_by rs strategy_id user_id

-- select(func.count(MarketplaceReport.id)).where(strategy_id == ...)
unfoldable pub count_reports : List Report → String → ℕ
count_reports [] k = 0
count_reports (r ∷ rs) k =
    let rest = count_reports rs k in if str_eq r.strategy_id k then suc rest else rest
