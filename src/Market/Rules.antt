-- ===== src/Market/Rules.antt =====
-- What a request to hub/strategies/router.py or hub/marketplace/router.py leaves, step by step from the
-- tables that it found.
use artic_trader.Prelude.{
  String, str_eq, eq_iff, Bool, true, false, Option, none, some, ◌≡◌, refl, if◌then◌else◌,
}
use artic_trader.Prelude.Exec.{Result, ok, err, continue, ◌>>=◌}
use artic_trader.Prelude.Results.{lift}
use artic_trader.Dict.{get}
use artic_trader.Auth.State.{HttpError}
use artic_trader.Market.State.{UserStrategy, Tables}
use artic_trader.Market.Library.{Step, commit, owned, load_owned}

module _ {J : Type 0} (P : Tables J → Type 0) (s : Tables J) where
  abbrev pub Leaves : {B : Type 0} → Step J B → Type 0
  Leaves m = P (m s).1

  pub Leaves-lift :
      {A B : Type 0} (r : Result HttpError A) (f : A → Step J B)
      → P s
      → ((a : A) → r ≡ ok a → Leaves (f a))
      → Leaves (lift r >>= f)
  Leaves-lift (ok a) f p h = h a refl
  Leaves-lift (err e) f p h = p

  pub Leaves-if :
      {B : Type 0} (b : Bool) (m n : Step J B)
      → (b ≡ true → Leaves m)
      → (b ≡ false → Leaves n)
      → Leaves (if b then m else n)
  Leaves-if true m n h k = h refl
  Leaves-if false m n h k = k refl

  pub Leaves-commit :
      {B : Type 0} (b : Bool) (detail : String) (new : Tables J) (f : Unit → Step J B)
      → P s
      → (b ≡ false → P (f tt new).1)
      → Leaves (commit b detail new >>= f)
  Leaves-commit true detail new f p h = p
  Leaves-commit false detail new f p h = h refl

  pub Leaves-owned :
      {B : Type 0} (id user_id : String) (f : UserStrategy J → Step J B)
      → P s
      → ((row : UserStrategy J)
          → get s.strategies id ≡ some row
          → row.user_id ≡ user_id
          → Leaves (f row))
      → Leaves (load_owned id user_id >>= f)
  unfolding load_owned
  Leaves-owned id user_id f p h = row_of (get s.strategies id) refl
    where
      mine :
          (row : UserStrategy J) (b : Bool) (e : HttpError)
          → get s.strategies id ≡ some row
          → str_eq row.user_id user_id ≡ b
          → P (continue (if b then ok row else err e) f s).1
      mine row true e g q = h row g ((eq_iff row.user_id user_id).0 q)
      mine row false e g q = p

      row_of :
          (o : Option (UserStrategy J))
          → get s.strategies id ≡ o
          → P (continue (owned o user_id) f s).1
      row_of none g = p
      row_of (some row) g = mine row (str_eq row.user_id user_id) _ g refl
