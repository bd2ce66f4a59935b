-- ===== src/Market/Installs.antt =====
-- The counts of hub/strategies/router.py and hub/marketplace/router.py against the rows.
use artic_trader.Prelude.{
  ◌||◌, not, String, str_eq, Option, none, some, List, [], ◌∷◌, ◌≡◌, ◌≢◌, refl, ◌∙◌, ap, Bool-cases,
  inl, inr, present,
}
use artic_trader.Prelude.Exec.{◌>>=◌}
use artic_trader.Dict.{get}
use artic_trader.Market.State.{
  UserStrategy, Listing, Tables, Caller, name_taken, find_copy, find_listing, reported_by,
}
use artic_trader.Market.Library.{
  Outside, Step, StrategyCreate, StrategyPatch, is_some, is_builtin, is_authored, patched, listed,
  install_or_keep, create_authored, patch_strategy, delete_strategy, install_marketplace,
}
use artic_trader.Auth.Session.{required}
use artic_trader.Market.Listings.{
  Services, code_of, mint_for, upsert, report_marketplace_strategy, publish_strategy,
}
use artic_trader.Market.Serve.{
  Call, create_call, patch_call, delete_call, install_call, report_call, publish_call, serve,
  serve_all,
}
use artic_trader.Market.Counts.{copy_bit, copies-assign}
use artic_trader.Market.Rules.{Leaves-commit, Leaves-lift, Leaves-if, Leaves-owned}
use artic_trader.Market.Copies.{
  IsCounted, Counted, free, added, erased, uninstalled, uninstalled-unnamed, same_count,
  listed-some, copied, none_of, minted-installs, new_listing,
}

module _ {J : Type 0} where
  created :
      (O : Outside) (id : String) (user : Caller) (body : StrategyCreate J) (s : Tables J)
      → Counted s
      → Counted (create_authored O id user body s).1
  unfolding create_authored
  created O id user body s c =
      Leaves-if Counted s (str_eq (O.lower body.name) "builtin") _ _ (λ _. c)
        (λ _.
          Leaves-commit Counted s
            (is_some (get s.strategies id) || name_taken s.strategies id user.id body.name) _ _ _ c
            (λ h. added s id _ (free (get s.strategies id) _ h) (λ k. refl) c))

  edited :
      (O : Outside) (id : String) (user : Caller) (body : StrategyPatch J) (s : Tables J)
      → Counted s
      → Counted (patch_strategy O id user body s).1
  unfolding patch_strategy patched
  edited O id user body s c = Leaves-owned Counted s id user.id _ c (λ row found mine.
      Leaves-if Counted s (not (is_authored row.source)) _ _ (λ _. c)
        (λ _.
          Leaves-commit Counted s (name_taken s.strategies id row.user_id (patched O body row).name)
            _ _ _ c
            (λ h. record {
              installs = λ k.
                  copies-assign s.strategies id (patched O body row) k
                    (ap (λ o. copy_bit o k) found)
                  ∙ c.installs k;
              unnamed = c.unnamed;
            })))

  deleted :
      (id : String) (user : Caller) (s : Tables J)
      → Counted s
      → Counted (delete_strategy id user s).1
  unfolding delete_strategy
  deleted id user s c = Leaves-owned Counted s id user.id _ c (λ row found mine.
      Leaves-if Counted s (is_builtin row.source) _ _ (λ _. c)
        (λ _. record {
          installs = λ k.
              uninstalled row.source row.marketplace_id s.listings k _ (erased id row s k found c)
                c.unnamed;
          unnamed = uninstalled-unnamed row.source row.marketplace_id s.listings c.unnamed;
        }))

  installed :
      (k id : String) (user : Caller) (s : Tables J)
      → Counted s
      → Counted (install_marketplace k id user s).1
  unfolding install_marketplace
  installed k id user s c =
      Leaves-lift Counted s (listed (get s.listings k)) _ c (λ l e.
        new_or_kept l (find_copy s.strategies user.id k) (listed-some (get s.listings k) l e))
    where
      new_or_kept :
          (l : Listing J) (o : Option (String × UserStrategy J))
          → get s.listings k ≡ some l
          → Counted (install_or_keep k id user l o s).1
      new_or_kept l (some (j, row)) e = c
      new_or_kept l none e =
          Leaves-commit Counted s
            (is_some (get s.strategies id) || name_taken s.strategies id user.id l.name) _ _ _ c
            (λ h. copied s k id user l e (free (get s.strategies id) _ h) c)

  reported :
      (k : String) (user : Caller) (reason : String) (s : Tables J)
      → Counted s
      → Counted (report_marketplace_strategy k user reason s).1
  unfolding report_marketplace_strategy
  reported k user reason s c = Leaves-lift Counted s (required (get s.listings k) _) _ c (λ l e.
      Leaves-commit Counted s (reported_by s.reports k user.id) _ _ _ c
        (λ h. same_count s.strategies s.listings k _ (λ l. refl) c))

  written :
      {B : Type 0} (s : Tables J) (o : Option String) (id hash : String) (f : Listing J → Listing J)
      (l : Listing J) (cont : String → Step J B)
      → id ≢ ""
      → ((l : Listing J) → (f l).installs_count ≡ l.installs_count)
      → l.installs_count ≡ 0
      → ((k : String) (t : Tables J) → Counted t → Counted (cont k t).1)
      → Counted s
      → Counted ((upsert o id hash f l >>= cont) s).1
  written s (some k) id hash f l cont named same fresh rest c =
      rest k _ (same_count s.strategies s.listings k f same c)
  written s none id hash f l cont named same fresh rest c =
      elim (Bool-cases (is_some (get s.listings id))) [
        | inl e ↦ rw e c
        | inr e ↦ rw e (
            rest id _ (
              new_listing s.strategies s.listings id (f l) named (none_of (get s.listings id) e)
                (same l ∙ fresh) c))
      ]

  published :
      (O : Outside) (v : Services) (k id : String) (user : Caller) (s : Tables J)
      → id ≢ ""
      → Counted s
      → Counted (publish_strategy O v k id user s).1
  unfolding publish_strategy
  published O v k id user s named c = Leaves-owned Counted s k user.id _ c (λ row found mine.
      Leaves-if Counted s (not (is_authored row.source)) _ _ (λ _. c)
        (λ _.
          Leaves-lift Counted s (code_of (present row.code_blob) (present row.code_hash)) _ c
            (λ code _. Leaves-lift Counted s (v.validate_and_backtest code row.name) _ c (λ bt _.
              written s (find_listing s.listings user.id bt.strategy_hash) id bt.strategy_hash _ _ _
                named (λ l. minted-installs (mint_for O v user bt.strategy_hash code) _) refl
                (λ k t h. h) c))))

-- A new listing's id, which `uuid4` draws, is not the empty text.
abbrev pub IsNamed : {J : Type 0} → Call J → Type 0
IsNamed (publish_call strategy_id id) = id ≢ ""
IsNamed _ = Unit

abbrev pub AreNamed : {J : Type 0} → List (Caller × Call J) → Type 0
AreNamed [] = Unit
AreNamed ((user, c) ∷ calls) = IsNamed c × AreNamed calls

module _ {J : Type 0} (O : Outside) (v : Services) where
  serve-Counted :
      (user : Caller) (c : Call J) (s : Tables J)
      → IsNamed c
      → Counted s
      → Counted (serve O v user c s)
  serve-Counted user (create_call id body) s n h = created O id user body s h
  serve-Counted user (patch_call id body) s n h = edited O id user body s h
  serve-Counted user (delete_call id) s n h = deleted id user s h
  serve-Counted user (install_call strategy_id id) s n h = installed strategy_id id user s h
  serve-Counted user (report_call id reason) s n h = reported id user reason s h
  serve-Counted user (publish_call strategy_id id) s n h = published O v strategy_id id user s n h

  -- Whatever requests are served, in any order and by whomever, the installs count of every listing
  -- stays the number of its copies in the users' libraries, and an id that is no listing has none, if
  -- it was so before and no new listing's id is empty. Commits that fail, deletions and repeated
  -- installs are among them.
  pub serve_all-IsCounted :
      (calls : List (Caller × Call J)) (s : Tables J)
      → AreNamed calls
      → IsCounted s.strategies s.listings
      → IsCounted (serve_all O v calls s).strategies (serve_all O v calls s).listings
  unfolding serve_all
  serve_all-IsCounted [] s n h = h
  serve_all-IsCounted ((user, c) ∷ calls) s (n, ns) h =
      serve_all-IsCounted calls (serve O v user c s) ns (serve-Counted user c s n h)
