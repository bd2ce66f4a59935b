-- ===== src/Market/Listings.antt =====
-- hub/marketplace/router.py, and POST /strategies/{id}/publish of hub/strategies/router.py. The times of
-- the rows are left out. The hashes that the user server answers are taken to be hexadecimal.
use artic_trader.Prelude.{
  ℕ, ◌&&◌, ◌||◌, not, String, Bool, false, Option, none, some, List, [], ◌∷◌, leb, ltb, take, drop,
  present, if◌then◌else◌,
}
use artic_trader.Prelude.Exec.{Result, ok, err, raise, gets, ◌>>=◌}
use artic_trader.Prelude.Results.{lift}
use artic_trader.Dict.{Dict, get, put, assign}
use artic_trader.Auth.State.{HttpError}
use artic_trader.Auth.Session.{http, required}
use artic_trader.Market.State.{
  UserStrategy, Metrics, Listing, Report, Tables, Caller, reported_by, count_reports, find_listing,
}
use artic_trader.Market.Library.{
  Outside, Step, is_authored, is_some, load_owned, commit, record_audit,
}

abbrev pub autohide_threshold : ℕ
autohide_threshold = 3

abbrev pub report_for : String → Caller → String → Report
report_for strategy_id user reason = record {
  strategy_id = strategy_id;
  reporter_user_id = user.id;
  reason = reason;
}

module _ {J : Type 0} where
  abbrev pub is_visible : Listing J → Bool
  is_visible l = not l.delisted && ltb l.reports_count autohide_threshold

  abbrev pub visible : Dict (Listing J) → Dict (Listing J)
  visible [] = []
  visible ((k, l) ∷ d) = let rest = visible d in if is_visible l then (k, l) ∷ rest else rest

  -- `order` is the order of the database by the column that was asked for.
  unfoldable pub list_marketplace :
      (Dict (Listing J) → Dict (Listing J)) → ℕ → ℕ → Step J (Dict (Listing J))
  list_marketplace order limit offset s =
      (ok (take limit (drop offset (order (visible s.listings)))), s)

  abbrev pub shown : Option (Listing J) → Result HttpError (Listing J)
  shown none = err (http 404 "Marketplace strategy not found")
  shown (some l) =
      if l.delisted || leb autohide_threshold l.reports_count
      then err (http 404 "Marketplace strategy not found")
      else ok l

  unfoldable pub get_marketplace_strategy : String → Step J (Listing J)
  get_marketplace_strategy strategy_id s = (shown (get s.listings strategy_id), s)

  -- The count is taken with the new report.
  abbrev pub counted : String → List Report → Tables J → Tables J
  counted strategy_id reports s = record s {
    reports = reports;
    listings =
        assign s.listings strategy_id
          (λ l. record l { reports_count = count_reports reports strategy_id });
  }

  unfoldable pub report_marketplace_strategy : String → Caller → String → Step J ℕ
  report_marketplace_strategy strategy_id user reason = do
    l ← gets (λ s. get s.listings strategy_id)
    _ ← lift (required l (http 404 "Marketplace strategy not found"))
    reports ← gets (λ s. s.reports)
    _ ← (λ s.
        commit (reported_by reports strategy_id user.id) "Already reported by this user"
          (counted strategy_id (report_for strategy_id user reason ∷ reports) s) s)
    _ ← record_audit user.id "marketplace.report" strategy_id
    (λ s. (ok (count_reports s.reports strategy_id), s))

-- What the user server answers.
pub record Backtest : Type 0 where
  pub strategy_hash : String
  pub dataset_hash : String
  pub metrics : Metrics

-- The calls of other services: the user server, the two contracts, and the mint, which are `none`
-- where they do nothing.
pub record Services : Type 0 where
  pub validate_and_backtest : String → String → Result HttpError Backtest
  pub publish_tx : String → String → Option String
  pub attest_tx : Backtest → Option String
  pub mint : String → String → String → Option (ℕ × String)

-- The code of a row, if it has both the code and its hash.
abbrev pub code_of : Option String → Option String → Result HttpError String
code_of none hash = err (http 400 "Strategy has no code")
code_of (some code) none = err (http 400 "Strategy has no code")
code_of (some code) (some hash) = ok code

-- The mint, for a wallet of the 0G chain.
abbrev pub mint_for : Outside → Services → Caller → String → String → Option (ℕ × String)
mint_for O v user hash code =
    if O.startswith user.wallet_chain "0g" && O.startswith user.wallet_address "0x"
    then v.mint user.wallet_address hash code
    else none

module _ {J : Type 0} where
  abbrev pub minted : Option (ℕ × String) → Listing J → Listing J
  minted none l = l
  minted (some (token_id, tx)) l = record l {
    inft_token_id = some token_id;
    inft_mint_tx = some tx;
  }

  abbrev pub blank : Caller → String → Listing J
  blank user hash = record {
    author_user_id = user.id;
    name = "";
    code_hash = hash;
    code_blob = "";
    params_schema = none;
    installs_count = 0;
    reports_count = 0;
    delisted = false;
    metrics = none;
    registry_tx = none;
    attest_tx = none;
    inft_token_id = none;
    inft_mint_tx = none;
  }

  abbrev pub refreshed :
      Outside → Services → Caller → UserStrategy J → String → Backtest → Listing J → Listing J
  refreshed O v user row code bt l = minted (mint_for O v user bt.strategy_hash code) (record l {
    name = row.name;
    code_blob = code;
    params_schema = row.params_schema;
    metrics = some bt.metrics;
    registry_tx = v.publish_tx bt.strategy_hash row.name;
    attest_tx = v.attest_tx bt;
  })

  -- The author's listing of the same code is written again, or a new one is added.
  abbrev pub upsert :
      Option String → String → String → (Listing J → Listing J) → Listing J → Step J String
  upsert (some k) id hash f l s = (ok k, record s { listings = assign s.listings k f })
  upsert none id hash f l s =
      if is_some (get s.listings id)
      then (err (http 409 "Marketplace conflict"), s)
      else (ok id, record s { listings = put s.listings id (f l) })

  unfoldable pub publish_strategy :
      Outside → Services → String → String → Caller → Step J (String × Backtest)
  publish_strategy O v strategy_id id user = do
    row ← load_owned strategy_id user.id
    if not (is_authored row.source)
        then raise (http 403 "Only authored strategies can be published")
        else (do
          code ← lift (code_of (present row.code_blob) (present row.code_hash))
          bt ← lift (v.validate_and_backtest code row.name)
          existing ← gets (λ s. find_listing s.listings user.id bt.strategy_hash)
          k ←
              upsert existing id bt.strategy_hash (refreshed O v user row code bt)
                (blank user bt.strategy_hash)
          _ ← record_audit user.id "strategy.publish" k
          (λ s. (ok (k, bt), s)))
