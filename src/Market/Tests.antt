-- ===== src/Market/Tests.antt =====
-- Requests to the marketplace on small tables.
use artic_trader.Prelude.{
  ℕ, String, false, none, some, List, [], ◌∷◌, ◌≡◌, ◌≢◌, refl, eq_iff, arith,
}
use artic_trader.Prelude.Exec.{ok, err}
use artic_trader.Dict.{get, put, assign}
use artic_trader.Auth.Session.{http}
use artic_trader.Auth.State.{pos}
use artic_trader.Market.State.{
  authored, UserStrategy, Listing, Tables, Caller, copies, name_taken, find_copy, find_listing,
}
use artic_trader.Market.Library.{
  Outside, StrategyCreate, load_owned, copy_of, create_authored, install_marketplace,
}
use artic_trader.Market.Listings.{Services, get_marketplace_strategy, publish_strategy}
use artic_trader.Market.Serve.{
  Call, create_call, delete_call, install_call, publish_call, serve, serve_all,
}
use artic_trader.Market.Copies.{IsCounted}
use artic_trader.Market.Installs.{serve_all-IsCounted}
use artic_trader.Market.Owned.{serve-spares}
use artic_trader.Market.Again.{install_marketplace-twice, hidden-installs}

abbrev outside : Outside
outside = record { hash_code = λ c. c; lower = λ s. s; startswith = λ s p. false }

abbrev services : Services
services = record {
  validate_and_backtest = λ code name. ok (record {
    strategy_hash = code;
    dataset_hash = "d";
    metrics = record {
      sharpe_bps = pos 1;
      max_dd_bps = pos 1;
      total_return_bps = pos 1;
      win_rate_bps = pos 1;
      n_trades = pos 1;
    };
  });
  publish_tx = λ h n. none;
  attest_tx = λ b. none;
  mint = λ a h c. none;
}

abbrev ann : Caller
ann = record { id = "ann"; wallet_chain = "c"; wallet_address = "w" }

abbrev bob : Caller
bob = record ann { id = "bob" }

abbrev nothing : Tables ℕ
nothing = record { strategies = []; listings = []; reports = []; audits = [] }

nothing-IsCounted : IsCounted nothing.strategies nothing.listings
unfolding copies get
nothing-IsCounted = record { installs = λ k. refl; unnamed = refl }

abbrev body : StrategyCreate ℕ
body = record { name = "scalper"; code = "x = 1"; params_schema = none }

-- Ann writes a strategy and publishes it, and Bob installs it.
abbrev calls : List (Caller × Call ℕ)
calls =
    (ann, create_call "s1" body)
    ∷ (ann, publish_call "s1" "m1")
    ∷ (bob, install_call "m1" "s2")
    ∷ []

abbrev listing : Listing ℕ
listing = record {
  author_user_id = "ann";
  name = "scalper";
  code_hash = "x = 1";
  code_blob = "x = 1";
  params_schema = none;
  installs_count = 0;
  reports_count = 3;
  delisted = false;
  metrics = none;
  registry_tx = none;
  attest_tx = none;
  inft_token_id = none;
  inft_mint_tx = none;
}

abbrev hidden : Tables ℕ
hidden = record nothing { listings = ("m1", listing) ∷ [] }

installed_once : copies (serve_all outside services calls nothing).strategies "m1" ≡ 1
unfolding copies serve_all create_authored publish_strategy install_marketplace load_owned get put
    assign name_taken find_copy find_listing
installed_once = refl

serve_all-IsCounted_example :
    IsCounted
      (serve_all outside services calls nothing).strategies
      (serve_all outside services calls nothing).listings
serve_all-IsCounted_example =
    serve_all-IsCounted outside services calls nothing (tt, (m1_named, (tt, tt))) nothing-IsCounted
  where
    m1_named : ◌≢◌ {A = String} "m1" ""
    m1_named e = ground (arith, eq_iff "m1" "", e)

abbrev annas : UserStrategy ℕ
annas = record {
  user_id = "ann";
  source = authored;
  name = "scalper";
  code_hash = some "x = 1";
  code_blob = some "x = 1";
  params_schema = none;
  marketplace_id = none;
}

abbrev with_row : Tables ℕ
with_row = record nothing { strategies = ("s1", annas) ∷ [] }

has_row : get with_row.strategies "s1" ≡ some annas
unfolding get
has_row = refl

serve-spares_example :
    get (serve outside services bob (delete_call "s1") with_row).strategies "s1" ≡ some annas
serve-spares_example =
    serve-spares outside services bob (delete_call "s1") with_row "s1" annas others has_row
  where
    others : ◌≢◌ {A = String} "ann" "bob"
    others e = ground (arith, eq_iff "ann" "bob", e)

abbrev after : Tables ℕ
after = record {
  strategies = ("s2", copy_of "bob" "m1" listing) ∷ [];
  listings = ("m1", record listing { installs_count = 1 }) ∷ [];
  reports = [];
  audits = record { actor = "bob"; action = "strategy.install"; target = "m1" } ∷ [];
}

installs_hidden :
    install_marketplace "m1" "s2" bob hidden ≡ (ok (copy_of "bob" "m1" listing), after)
unfolding install_marketplace get put assign name_taken find_copy
installs_hidden = refl

install_marketplace-twice_example :
    install_marketplace "m1" "s3" bob after ≡ (ok (copy_of "bob" "m1" listing), after)
install_marketplace-twice_example =
    install_marketplace-twice "m1" "s2" "s3" bob hidden after (copy_of "bob" "m1" listing)
      installs_hidden

is_listed : get hidden.listings "m1" ≡ some listing
unfolding get
is_listed = refl

no_copy : find_copy hidden.strategies "bob" "m1" ≡ none
unfolding find_copy
no_copy = refl

no_row : get hidden.strategies "s2" ≡ none
unfolding get
no_row = refl

no_name : name_taken hidden.strategies "s2" "bob" "scalper" ≡ false
unfolding name_taken
no_name = refl

hidden-installs_example :
    ((get_marketplace_strategy "m1" hidden).0 ≡ err (http 404 "Marketplace strategy not found"))
    × ((install_marketplace "m1" "s2" bob hidden).0 ≡ ok (copy_of "bob" "m1" listing))
hidden-installs_example =
    hidden-installs "m1" "s2" bob listing hidden is_listed refl (omega arith) no_copy no_row no_name
