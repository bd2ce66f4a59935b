-- ===== src/Market/Serve.antt =====
-- The requests to hub/strategies/router.py and hub/marketplace/router.py that write, one after another.
use artic_trader.Prelude.{String, List, [], ◌∷◌}
use artic_trader.Market.State.{Tables, Caller}
use artic_trader.Market.Library.{
  Outside, StrategyCreate, StrategyPatch, create_authored, patch_strategy, delete_strategy,
  install_marketplace,
}
use artic_trader.Market.Listings.{Services, report_marketplace_strategy, publish_strategy}

-- Each with its caller; a new id where one is drawn.
pub data Call (J : Type 0) : Type 0 where
  create_call : (id : String) → StrategyCreate J → Call J
  patch_call : (id : String) → StrategyPatch J → Call J
  delete_call : (id : String) → Call J
  install_call : (strategy_id id : String) → Call J
  report_call : (id reason : String) → Call J
  publish_call : (strategy_id id : String) → Call J

module _ {J : Type 0} (O : Outside) (v : Services) where
  -- The tables after a request.
  abbrev pub serve : Caller → Call J → Tables J → Tables J
  serve user (create_call id body) s = (create_authored O id user body s).1
  serve user (patch_call id body) s = (patch_strategy O id user body s).1
  serve user (delete_call id) s = (delete_strategy id user s).1
  serve user (install_call strategy_id id) s = (install_marketplace strategy_id id user s).1
  serve user (report_call id reason) s = (report_marketplace_strategy id user reason s).1
  serve user (publish_call strategy_id id) s = (publish_strategy O v strategy_id id user s).1

  unfoldable pub serve_all : List (Caller × Call J) → Tables J → Tables J
  serve_all [] s = s
  serve_all ((user, c) ∷ calls) s = serve_all calls (serve user c s)
