-- ===== src/Market/Copies.antt =====
-- The counts of hub/strategies/router.py and hub/marketplace/router.py against the rows, change by change.
use mathlib.Core.Option
use artic_trader.Prelude.{
  ℕ, ◌+◌, ◌-◌, ◌&&◌, ◌||◌, String, eq_iff, Bool, false, Option, none, some, ◌≡◌, ◌≢◌, refl, sym,
  ◌∙◌, ap, arith, present,
}
use artic_trader.Prelude.Exec.{ok}
use artic_trader.Dict.{Dict, get, put, assign, get-assign, get-put}
use artic_trader.Market.State.{
  Source, builtin, marketplace, authored, UserStrategy, Listing, Tables, Caller, is_copy,
  is_marketplace, is_id, copies, erase,
}
use artic_trader.Market.Library.{is_some, one_less, one_more, uninstall, copy_of, listed}
use artic_trader.Market.Listings.{minted}
use artic_trader.Market.Counts.{bit, copy_bit, copies-put, copies-erase}

module _ {J : Type 0} where
  abbrev pub installs_of : Option (Listing J) → ℕ
  installs_of none = 0
  installs_of (some l) = l.installs_count

  -- The count of each listing is that of its copies; an id that is no listing has none.
  pub record IsCounted (rows : Dict (UserStrategy J)) (listings : Dict (Listing J)) : Type 0 where
    pub installs : (k : String) → copies rows k ≡ installs_of (get listings k)
    pub unnamed : get listings "" ≡ none

  abbrev pub Counted : Tables J → Type 0
  Counted s = IsCounted s.strategies s.listings

  pub free : (o : Option (UserStrategy J)) (b : Bool) → (is_some o || b) ≡ false → o ≡ none
  free none b h = refl
  free (some r) b h = cc

  -- A row that is no copy is added.
  pub added :
      (s : Tables J) (id : String) (r : UserStrategy J)
      → get s.strategies id ≡ none
      → ((k : String) → is_copy r k ≡ false)
      → Counted s
      → IsCounted (put s.strategies id r) s.listings
  added s id r f n c = record {
    installs = λ k. ground (arith, copies-put s.strategies id r k f, n k, c.installs k);
    unnamed = c.unnamed;
  }

  pub erased :
      (id : String) (row : UserStrategy J) (s : Tables J) (k : String)
      → get s.strategies id ≡ some row
      → Counted s
      → copies (erase s.strategies id) k + bit (is_copy row k) ≡ installs_of (get s.listings k)
  erased id row s k found c =
      ap (λ o. copies (erase s.strategies id) k + copy_bit o k) (sym found)
      ∙ copies-erase s.strategies id k
      ∙ c.installs k

  pub installs-less :
      (o : Option (Listing J)) → installs_of (Option.map one_less o) ≡ installs_of o - 1
  installs-less none = omega arith
  installs-less (some l) = ground arith

  pub installs-more :
      (o : Option (Listing J)) {l : Listing J}
      → o ≡ some l
      → installs_of (Option.map one_more o) ≡ installs_of o + 1
  installs-more none e = cc
  installs-more (some l) e = omega arith

  -- A count goes down with the copy that is deleted.
  pub uninstalled :
      (source : Source) (id : Option String) (d : Dict (Listing J)) (k : String) (n : ℕ)
      → n + bit (is_marketplace source && is_id id k) ≡ installs_of (get d k)
      → get d "" ≡ none
      → n ≡ installs_of (get (uninstall source (present id) d) k)
  uninstalled builtin none d k n h u = ground (arith, h)
  uninstalled builtin (some m) d k n h u = ground (arith, h)
  uninstalled authored none d k n h u = ground (arith, h)
  uninstalled authored (some m) d k n h u = ground (arith, h)
  uninstalled marketplace none d k n h u = ground (arith, h)
  uninstalled marketplace (some m) d k n h u =
      ground
        (arith, h, u, eq_iff m "", eq_iff m k, get-assign d m k one_less, installs-less (get d k))

  pub uninstalled-unnamed :
      (source : Source) (id : Option String) (d : Dict (Listing J))
      → get d "" ≡ none
      → get (uninstall source (present id) d) "" ≡ none
  uninstalled-unnamed source none d u = u
  uninstalled-unnamed builtin (some m) d u = ground (arith, u)
  uninstalled-unnamed authored (some m) d u = ground (arith, u)
  uninstalled-unnamed marketplace (some m) d u =
      ground (arith, u, eq_iff m "", get-assign d m "" one_less)

  -- A change of a listing that leaves its count.
  pub same_count :
      (rows : Dict (UserStrategy J)) (d : Dict (Listing J)) (k : String) (f : Listing J → Listing J)
      → ((l : Listing J) → (f l).installs_count ≡ l.installs_count)
      → IsCounted rows d
      → IsCounted rows (assign d k f)
  same_count rows d k f h c = record {
    installs = λ j. c.installs j ∙ step j (get d j) refl;
    unnamed = ground (arith, get-assign d k "" f, c.unnamed);
  }
    where
      mapped : (o : Option (Listing J)) → installs_of o ≡ installs_of (Option.map f o)
      mapped none = refl
      mapped (some l) = sym (h l)

      step :
          (j : String) (o : Option (Listing J))
          → get d j ≡ o
          → installs_of (get d j) ≡ installs_of (get (assign d k f) j)
      step j o e = ground (arith, get-assign d k j f, mapped (get d j))

  pub listed-some : (o : Option (Listing J)) (l : Listing J) → listed o ≡ ok l → o ≡ some l
  listed-some none l e = cc
  listed-some (some q) l e = ground (arith, e)

  pub copied :
      (s : Tables J) (k id : String) (user : Caller) (l : Listing J)
      → get s.listings k ≡ some l
      → get s.strategies id ≡ none
      → Counted s
      → IsCounted (put s.strategies id (copy_of user.id k l)) (assign s.listings k one_more)
  copied s k id user l e f c = record {
    installs = λ j. ground (
      arith,
      copies-put s.strategies id (copy_of user.id k l) j f,
      c.installs j,
      eq_iff k j,
      get-assign s.listings k j one_more,
      installs-more (get s.listings k) e,
    );
    unnamed = ground (arith, get-assign s.listings k "" one_more, c.unnamed);
  }

  pub none_of : (o : Option (Listing J)) → is_some o ≡ false → o ≡ none
  none_of none h = refl
  none_of (some l) h = cc

  pub minted-installs :
      (x : Option (ℕ × String)) (l : Listing J) → (minted x l).installs_count ≡ l.installs_count
  minted-installs none l = refl
  minted-installs (some (token_id, tx)) l = refl

  -- A new listing has no copies yet.
  pub new_listing :
      (rows : Dict (UserStrategy J)) (d : Dict (Listing J)) (id : String) (l : Listing J)
      → id ≢ ""
      → get d id ≡ none
      → l.installs_count ≡ 0
      → IsCounted rows d
      → IsCounted rows (put d id l)
  new_listing rows d id l named fresh zero_count c = record {
    installs = λ j. c.installs j ∙ step j;
    unnamed = ground (arith, get-put d id "" l, eq_iff id "", named, c.unnamed);
  }
    where
      step : (j : String) → installs_of (get d j) ≡ installs_of (get (put d id l) j)
      step j = ground (arith, get-put d id j l, eq_iff id j, fresh, zero_count)
