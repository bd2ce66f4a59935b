-- ===== src/Market/Again.antt =====
-- POST /strategies/{id}/install of hub/strategies/router.py: again, and of a hidden listing.
use mathlib.Core.Path.{subst}
use artic_trader.Prelude.{
  ◌≤◌, leb, String, eq_iff, Bool, true, false, Option, none, some, [], ◌∷◌, ◌≡◌, refl, sym, ◌∙◌, ap,
  arith,
}
use artic_trader.Prelude.Exec.{Result, ok, err}
use artic_trader.Dict.{Dict, get, put, assign, get-assign}
use artic_trader.Auth.Session.{http}
use artic_trader.Auth.State.{HttpError}
use artic_trader.Market.State.{UserStrategy, Listing, Tables, Caller, find_copy, name_taken}
use artic_trader.Market.Library.{one_more, copy_of, install_marketplace}
use artic_trader.Market.Listings.{autohide_threshold, get_marketplace_strategy}

module _ {J : Type 0} where
  -- A copy that is added is the one that is found.
  find_copy-put :
      (d : Dict (UserStrategy J)) (id k user_id : String) (l : Listing J)
      → get d id ≡ none
      → find_copy d user_id k ≡ none
      → find_copy (put d id (copy_of user_id k l)) user_id k ≡ some (id, copy_of user_id k l)
  unfolding find_copy put get
  find_copy-put [] id k user_id l g f = ground (arith, eq_iff user_id user_id, eq_iff k k)
  find_copy-put ((j, r) ∷ d) id k user_id l g f =
      ground (arith, find_copy-put d id k user_id l, g, f)

  -- The tables after an install that adds a copy.
  abbrev after_install : String → String → Caller → Listing J → Tables J → Tables J
  after_install k id user l s = record s {
    strategies = put s.strategies id (copy_of user.id k l);
    listings = assign s.listings k one_more;
    audits = record { actor = user.id; action = "strategy.install"; target = k } ∷ s.audits;
  }

  kept-again :
      (k id' : String) (user : Caller) (s : Tables J) (l : Listing J) (j : String)
      (row : UserStrategy J)
      → get s.listings k ≡ some l
      → l.delisted ≡ false
      → find_copy s.strategies user.id k ≡ some (j, row)
      → install_marketplace k id' user s ≡ (ok row, s)
  unfolding install_marketplace
  kept-again k id' user s l j row e d f = rw (e, d, f) refl

  new-again :
      (k id id' : String) (user : Caller) (s : Tables J) (l : Listing J)
      → get s.listings k ≡ some l
      → l.delisted ≡ false
      → find_copy s.strategies user.id k ≡ none
      → get s.strategies id ≡ none
      → install_marketplace k id' user (after_install k id user l s)
        ≡ (ok (copy_of user.id k l), after_install k id user l s)
  new-again k id id' user s l e d f g =
      kept-again k id' user (after_install k id user l s) (one_more l) id (copy_of user.id k l)
        (ground (arith, get-assign s.listings k k one_more, eq_iff k k, e)) d
        (find_copy-put s.strategies id k user.id l g f)

  -- An install after one that returned changes nothing, and returns the same row.
  pub install_marketplace-twice :
      (k id id' : String) (user : Caller) (s s' : Tables J) (row : UserStrategy J)
      → install_marketplace k id user s ≡ (ok row, s')
      → install_marketplace k id' user s' ≡ (ok row, s')
  unfolding install_marketplace
  install_marketplace-twice k id id' user s s' row e = by_listing (get s.listings k) refl e
    where
      Again : Result HttpError (UserStrategy J) × Tables J → Type 0
      Again p = install_marketplace k id' user p.1 ≡ p

      by_conflict :
          (l : Listing J) (o : Option (UserStrategy J)) (b : Bool)
          → get s.listings k ≡ some l
          → l.delisted ≡ false
          → find_copy s.strategies user.id k ≡ none
          → get s.strategies id ≡ o
          → name_taken s.strategies id user.id l.name ≡ b
          → install_marketplace k id user s ≡ (ok row, s')
          → Again (ok row, s')
      by_conflict l (some r) b g d f h n q = let w = rw (g, d, f, h) at q in cc (ap (λ p. p.0) w)
      by_conflict l none true g d f h n q = let w = rw (g, d, f, h, n) at q in cc (ap (λ p. p.0) w)
      by_conflict l none false g d f h n q =
          subst Again (rw (g, d, f, h, n) at q) (new-again k id id' user s l g d f h)

      by_copy :
          (l : Listing J) (o : Option (String × UserStrategy J))
          → get s.listings k ≡ some l
          → l.delisted ≡ false
          → find_copy s.strategies user.id k ≡ o
          → install_marketplace k id user s ≡ (ok row, s')
          → Again (ok row, s')
      by_copy l (some (j, r)) g d f q =
          subst Again (sym (kept-again k id user s l j r g d f) ∙ q)
            (kept-again k id' user s l j r g d f)
      by_copy l none g d f q = by_conflict l _ _ g d f refl refl q

      by_listing :
          (o : Option (Listing J))
          → get s.listings k ≡ o
          → install_marketplace k id user s ≡ (ok row, s')
          → Again (ok row, s')
      by_listing none g q = let w = rw g at q in cc (ap (λ p. p.0) w)
      by_listing (some l) g q = by_delisted l.delisted refl
        where
          by_delisted : (b : Bool) → l.delisted ≡ b → Again (ok row, s')
          by_delisted true d = let w = rw (g, d) at q in cc (ap (λ p. p.0) w)
          by_delisted false d = by_copy l _ g d refl q

  -- A listing that three users have reported is not shown, and yet a user can install it who has no
  -- copy of it and no strategy of its name, while it is not delisted.
  pub hidden-installs :
      (k id : String) (user : Caller) (l : Listing J) (s : Tables J)
      → get s.listings k ≡ some l
      → l.delisted ≡ false
      → autohide_threshold ≤ l.reports_count
      → find_copy s.strategies user.id k ≡ none
      → get s.strategies id ≡ none
      → name_taken s.strategies id user.id l.name ≡ false
      → ((get_marketplace_strategy k s).0 ≡ err (http 404 "Marketplace strategy not found"))
        × ((install_marketplace k id user s).0 ≡ ok (copy_of user.id k l))
  unfolding get_marketplace_strategy install_marketplace
  hidden-installs k id user l s e d r f g n = (rw (e, d, hidden) refl, rw (e, d, f, g, n) refl)
    where
      hidden : leb 3 l.reports_count ≡ true
      hidden = ground (arith, r)
