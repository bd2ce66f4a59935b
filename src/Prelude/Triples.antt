-- ===== src/Prelude/Triples.antt =====
-- Pre- and postconditions of methods that may raise: what holds when a method returns, and what
-- holds when it raises.
use artic_trader.Prelude.Tests.{if◌then◌else◌}
use artic_trader.Prelude.Exec.{Keeps, Result, ok, err, Exec, pure, gets, continue, ◌>>=◌}
use artic_trader.Prelude.Results.{lift}
use mathlib.Core.Path.{◌≡◌, refl}
use mathlib.Core.Bool.{Bool, true, false}

module _ {ℓ} {S E A : Type ℓ} where
  abbrev pub Post : (A → S → Type ℓ) → (S → Type ℓ) → Result E A × S → Type ℓ
  Post Q R (ok a, s) = Q a s
  Post Q R (err e, s) = R s

  pub record Triple (P : S → Type ℓ) (m : Exec S E A) (Q : A → S → Type ℓ) (R : S → Type ℓ)
      : Type ℓ where
    pub at : (s : S) → P s → Post Q R (m s)

module _ {ℓ} {S E A : Type ℓ} {P : S → Type ℓ} {R : S → Type ℓ} where
  pub Triple-pure :
      {Q : A → S → Type ℓ} (a : A) → ((s : S) → P s → Q a s) → Triple P (pure {E = E} a) Q R
  Triple-pure a h = record { at = h }

  -- A pure result: the rest may use which result it was.
  pub Triple-lift : (r : Result E A) → ((s : S) → P s → R s) → Triple P (lift r) (λ a s. P s) R
  Triple-lift (ok a) h = record { at = λ s p. p }
  Triple-lift (err e) h = record { at = h }

  pub Triple-if :
      {Q : A → S → Type ℓ} (b : Bool) (m n : Exec S E A)
      → (b ≡ true → Triple P m Q R)
      → (b ≡ false → Triple P n Q R)
      → Triple P (if b then m else n) Q R
  Triple-if true m n km kn = km refl
  Triple-if false m n km kn = kn refl

module _ {ℓ} {S E A B : Type ℓ} {R : S → Type ℓ} {Q : A → S → Type ℓ} {Q' : B → S → Type ℓ} where
  continue-Post :
      (r : Result E A) (f : A → Exec S E B)
      → ((a : A) → Triple (Q a) (f a) Q' R)
      → (s : S) → Post Q R (r, s)
      → Post Q' R (continue r f s)
  continue-Post (ok a) f kf s h = (kf a).at s h
  continue-Post (err e) f kf s h = h

  pub Triple-bind :
      {P : S → Type ℓ} (m : Exec S E A) (f : A → Exec S E B)
      → Triple P m Q R
      → ((a : A) → Triple (Q a) (f a) Q' R)
      → Triple P (m >>= f) Q' R
  Triple-bind m f km kf = record {
    at = λ s h. let (r, s') = m s in continue-Post r f kf s' (km.at s h);
  }

module _ {ℓ} {S E A : Type ℓ} {P R : S → Type ℓ} where
  Post-keeps : (r : Result E A) (s : S) → P s → ((s : S) → P s → R s) → Post (λ a s. P s) R (r, s)
  Post-keeps (ok a) s h w = h
  Post-keeps (err e) s h w = w s h

  -- What a method keeps holds after it, and when it raises what follows from that holds.
  pub Keeps→Triple :
      (m : Exec S E A) → Keeps P m → ((s : S) → P s → R s) → Triple P m (λ a s. P s) R
  Keeps→Triple m k w = record { at = λ s h. let (r, s') = m s in Post-keeps r s' (k.at s h) w }

module _ {S E : Type 0} (Q R : S → Type 0) where
  -- What holds when a method has returned.
  pub Post-ok : (r : Result E Unit) (s : S) → Post (λ a s. Q s) R (r, s) → r ≡ ok tt → Q s
  Post-ok (ok tt) s h e = h
  Post-ok (err _) s h e = cc

module _ {ℓ} {S E A : Type ℓ} (R : S → Type ℓ) where
  post-end : (r : Result E A) (s : S) → Post (λ a s. R s) R (r, s) → R s
  post-end (ok a) s h = h
  post-end (err e) s h = h

  Post-same : (r : Result E A) (s : S) → R s → Post (λ a s. R s) R (r, s)
  Post-same (ok a) s h = h
  Post-same (err e) s h = h

  pub Triple-same :
      {P : S → Type ℓ} (m : Exec S E A) → ((s : S) → P s → R (m s).1) → Triple P m (λ a s. R s) R
  Triple-same m k = record { at = λ s h. let (r, s') = m s in Post-same r s' (k s h) }

  -- A postcondition that holds however the method ends.
  pub Triple-end :
      {P : S → Type ℓ} (m : Exec S E A) → Triple P m (λ a s. R s) R → (s : S) → P s → R (m s).1
  Triple-end m t s h = let (r, s') = m s in post-end r s' (t.at s h)

module _ {ℓ} {S E : Type ℓ} {P R : S → Type ℓ} where
  pub Triple-gets : {A : Type ℓ} (f : S → A) → Triple P (gets {E = E} f) (λ a s. P s × (f s ≡ a)) R
  Triple-gets f = record { at = λ s h. (h, refl) }
