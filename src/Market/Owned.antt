-- ===== src/Market/Owned.antt =====
-- Whose rows a request to hub/strategies/router.py or hub/marketplace/router.py may change.
use artic_trader.Prelude.{
  ◌||◌, not, String, str_eq, eq_iff, Bool, false, Option, none, some, [], ◌∷◌, ◌≡◌, ◌≢◌, refl, sym,
  ◌∙◌, ap, arith, present, Bool-cases, inl, inr,
}
use artic_trader.Prelude.Exec.{◌>>=◌}
use artic_trader.Dict.{Dict, get, put, get-assign, get-put}
use artic_trader.Auth.Session.{required}
use artic_trader.Market.State.{
  UserStrategy, Listing, Tables, Caller, erase, name_taken, find_copy, find_listing, reported_by,
}
use artic_trader.Market.Library.{
  Outside, Step, is_some, is_builtin, is_authored, patched, listed, install_or_keep,
  create_authored, patch_strategy, delete_strategy, install_marketplace,
}
use artic_trader.Market.Listings.{
  Services, code_of, upsert, report_marketplace_strategy, publish_strategy,
}
use artic_trader.Market.Serve.{
  Call, create_call, patch_call, delete_call, install_call, report_call, publish_call, serve,
}
use artic_trader.Market.Rules.{Leaves-lift, Leaves-if, Leaves-commit, Leaves-owned}

module _ {J : Type 0} where
  get-erase : (d : Dict (UserStrategy J)) (id j : String) → id ≢ j → get (erase d id) j ≡ get d j
  unfolding get erase
  get-erase [] id j h = refl
  get-erase ((i, r) ∷ d) id j h = ground (arith, eq_iff i id, eq_iff i j, get-erase d id j h, h)

module _ {J : Type 0} (j : String) (theirs : UserStrategy J) where
  abbrev Has : Tables J → Type 0
  Has s = get s.strategies j ≡ some theirs

  add-Has :
      (s : Tables J) (id : String) (r : UserStrategy J) (b : Bool)
      → (is_some (get s.strategies id) || b) ≡ false
      → Has s
      → get (put s.strategies id r) j ≡ some theirs
  add-Has s id r b h e = ground (arith, get-put s.strategies id j r, eq_iff id j, free, e)
    where
      none_of : (o : Option (UserStrategy J)) → (is_some o || b) ≡ false → o ≡ none
      none_of none h = refl
      none_of (some q) h = cc

      free : get s.strategies id ≡ none
      free = none_of (get s.strategies id) h

  -- The row of another user is under another id.
  apart :
      (s : Tables J) (id : String) (user : Caller) (row : UserStrategy J)
      → get s.strategies id ≡ some row
      → row.user_id ≡ user.id
      → theirs.user_id ≢ user.id
      → Has s
      → id ≢ j
  apart s id user row found mine other e same =
      let rows : some row ≡ some theirs = sym found ∙ ap (get s.strategies) same ∙ e in
      let same_row : row ≡ theirs = cc in other (sym (ap (λ r. r.user_id) same_row) ∙ mine)

  upsert-Has :
      {B : Type 0} (s : Tables J) (o : Option String) (id hash : String) (f : Listing J → Listing J)
      (l : Listing J) (cont : String → Step J B)
      → ((k : String) (t : Tables J) → Has t → Has (cont k t).1)
      → Has s
      → Has ((upsert o id hash f l >>= cont) s).1
  upsert-Has s (some k) id hash f l cont rest e = rest k _ e
  upsert-Has s none id hash f l cont rest e = elim (Bool-cases (is_some (get s.listings id))) [
    | inl t ↦ rw t e
    | inr t ↦ rw t (rest id _ e)
  ]

module _ {J : Type 0} (O : Outside) (v : Services) where
  -- Whatever a user requests, a row of another user's library stays as it is.
  pub serve-spares :
      (user : Caller) (c : Call J) (s : Tables J) (j : String) (theirs : UserStrategy J)
      → theirs.user_id ≢ user.id
      → get s.strategies j ≡ some theirs
      → get (serve O v user c s).strategies j ≡ some theirs
  unfolding create_authored patch_strategy patched delete_strategy install_marketplace
      report_marketplace_strategy publish_strategy
  serve-spares user (create_call id body) s j theirs other e =
      Leaves-if (Has j theirs) s (str_eq (O.lower body.name) "builtin") _ _ (λ _. e)
        (λ _.
          Leaves-commit (Has j theirs) s
            (is_some (get s.strategies id) || name_taken s.strategies id user.id body.name) _ _ _ e
            (λ h. add-Has j theirs s id _ _ h e))
  serve-spares user (patch_call id body) s j theirs other e =
      Leaves-owned (Has j theirs) s id user.id _ e (λ row found mine.
        Leaves-if (Has j theirs) s (not (is_authored row.source)) _ _ (λ _. e)
          (λ _.
            Leaves-commit (Has j theirs) s
              (name_taken s.strategies id row.user_id (patched O body row).name) _ _ _ e
              (λ h. ground (
                arith,
                get-assign s.strategies id j (λ q. patched O body row),
                eq_iff id j,
                apart j theirs s id user row found mine other e,
                e,
              ))))
  serve-spares user (delete_call id) s j theirs other e =
      Leaves-owned (Has j theirs) s id user.id _ e (λ row found mine.
        Leaves-if (Has j theirs) s (is_builtin row.source) _ _ (λ _. e)
          (λ _. get-erase s.strategies id j (apart j theirs s id user row found mine other e) ∙ e))
  serve-spares user (install_call k id) s j theirs other e =
      Leaves-lift (Has j theirs) s (listed (get s.listings k)) _ e
        (λ l _. new_or_kept l (find_copy s.strategies user.id k))
    where
      new_or_kept :
          (l : Listing J) (o : Option (String × UserStrategy J))
          → Has j theirs (install_or_keep k id user l o s).1
      new_or_kept l (some (i, row)) = e
      new_or_kept l none =
          Leaves-commit (Has j theirs) s
            (is_some (get s.strategies id) || name_taken s.strategies id user.id l.name) _ _ _ e
            (λ h. add-Has j theirs s id _ _ h e)
  serve-spares user (report_call k reason) s j theirs other e =
      Leaves-lift (Has j theirs) s (required (get s.listings k) _) _ e
        (λ l _. Leaves-commit (Has j theirs) s (reported_by s.reports k user.id) _ _ _ e (λ h. e))
  serve-spares user (publish_call k id) s j theirs other e =
      Leaves-owned (Has j theirs) s k user.id _ e (λ row found mine.
        Leaves-if (Has j theirs) s (not (is_authored row.source)) _ _ (λ _. e)
          (λ _.
            Leaves-lift (Has j theirs) s (code_of (present row.code_blob) (present row.code_hash)) _
              e
              (λ code _.
                Leaves-lift (Has j theirs) s (v.validate_and_backtest code row.name) _ e (λ bt _.
                  upsert-Has j theirs s (find_listing s.listings user.id bt.strategy_hash) id
                    bt.strategy_hash _ _ _ (λ k t h. h) e))))
