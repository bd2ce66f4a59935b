-- ===== src/Market/Counts.antt =====
-- The copies of a listing under the changes of the library of hub/strategies/router.py.
use artic_trader.Prelude.{
  ℕ, ◌+◌, String, Bool, true, false, Option, none, some, [], ◌∷◌, ◌≡◌, refl, arith,
}
use artic_trader.Dict.{Dict, get, put, assign}
use artic_trader.Market.State.{UserStrategy, is_copy, copies, erase}

abbrev pub bit : Bool → ℕ
bit true = 1
bit false = 0

module _ {J : Type 0} where
  abbrev pub copy_bit : Option (UserStrategy J) → String → ℕ
  copy_bit none k = 0
  copy_bit (some r) k = bit (is_copy r k)

  -- A new row under a free id.
  pub copies-put :
      (d : Dict (UserStrategy J)) (id : String) (r : UserStrategy J) (k : String)
      → get d id ≡ none
      → copies (put d id r) k ≡ copies d k + bit (is_copy r k)
  unfolding copies put get
  copies-put [] id r k h = ground arith
  copies-put ((j, q) ∷ d) id r k h = ground (arith, copies-put d id r k, h)

  pub copies-erase :
      (d : Dict (UserStrategy J)) (id : String) (k : String)
      → copies (erase d id) k + copy_bit (get d id) k ≡ copies d k
  unfolding copies erase get
  copies-erase [] id k = ground arith
  copies-erase ((j, q) ∷ d) id k = ground (arith, copies-erase d id k)

  -- A row that stays the copy that it was.
  pub copies-assign :
      (d : Dict (UserStrategy J)) (id : String) (r : UserStrategy J) (k : String)
      → copy_bit (get d id) k ≡ bit (is_copy r k)
      → copies (assign d id (λ q. r)) k ≡ copies d k
  unfolding copies assign get
  copies-assign [] id r k h = refl
  copies-assign ((j, q) ∷ d) id r k h = ground (arith, copies-assign d id r k, h)
