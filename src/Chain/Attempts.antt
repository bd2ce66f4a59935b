-- ===== src/Chain/Attempts.antt =====
-- user-server/user_server/chain/retry.py: how often a transaction is tried, and what is returned.
use artic_trader.Prelude.{
  ℕ, zero, suc, ◌+◌, ◌-◌, ◌≤◌, ◌≡◌, ◌≢◌, refl, true, Option, none, some, [], ◌∷◌, length,
  length-append, arith, ltb, if_both, String, Bool-cases, inl, inr,
}
use artic_trader.Prelude.Exec.{Result, ok, err}
use artic_trader.Chain.Retry.{
  ReceiptStatus, Wait, in_time, timed_out, broken, SendError, RetryOutcome, Network, is_success,
  Tries, give_up, Next, return, again, raise, on_receipt, on_send, attempt, begin, follow, retry,
  with_gas_bump, patience,
}

-- Each attempt has its gas price.
record IsCounted (t : Tries) : Type 0 where
  counted : length t.gas_prices ≡ t.attempts

-- A hash comes with a receipt of success, and no hash with no receipt.
abbrev pub IsConfirmed : Option String → Option ReceiptStatus → Type 0
IsConfirmed none none = Unit {0}
IsConfirmed none (some r) = ⊥
IsConfirmed (some h) none = ⊥
IsConfirmed (some h) (some r) = is_success r ≡ true

pub record IsFair (max_attempts : ℕ) (o : RetryOutcome) : Type 0 where
  pub bounded : o.attempts ≤ max_attempts
  pub priced : length o.gas_prices ≡ o.attempts
  pub confirmed : IsConfirmed o.tx_hash o.receipt

abbrev pub Ends : ℕ → Result SendError RetryOutcome → Type 0
Ends max_attempts (ok o) = IsFair max_attempts o
Ends max_attempts (err e) = ⊥

-- What an attempt may come to, with `n` attempts made.
abbrev Goes : ℕ → Next → Type 0
Goes n (return o) = IsFair n o
Goes n (again t) = IsCounted t × (t.attempts ≡ n)
Goes n raise = ⊥

-- The wait for a receipt raises nothing but its time-out.
pub record IsWaiting {W : Type 0} (net : Network W) : Type 0 where
  pub waits : (h : String) (t : ℕ) (w : W) → (net.wait_receipt h t w).0 ≢ broken

module _ {W : Type 0} (net : Network W) (waiting : IsWaiting net) where
  on_receipt-Goes :
      (t : Tries) (tx_hash : String) (r : Wait)
      → r ≢ broken
      → IsCounted t
      → Goes t.attempts (on_receipt net t tx_hash r)
  on_receipt-Goes t tx_hash timed_out p c = (record { counted = c.counted }, refl)
  on_receipt-Goes t tx_hash broken p c = p refl
  on_receipt-Goes t tx_hash (in_time none) p c = (record { counted = c.counted }, refl)
  on_receipt-Goes t tx_hash (in_time (some r)) p c = elim (Bool-cases (is_success r)) [
    | inl e ↦ rw e (record { bounded = omega arith; priced = c.counted; confirmed = e })
    | inr e ↦ rw e (record { counted = c.counted }, refl)
  ]

  on_send-Goes :
      (budget start : ℕ) (t : Tries) (r : Option String × W)
      → IsCounted t
      → Goes t.attempts (on_send net budget start t r).0
  on_send-Goes budget start t (none, w) c = (record { counted = c.counted }, refl)
  on_send-Goes budget start t (some tx_hash, w) c =
      on_receipt-Goes t tx_hash (net.wait_receipt tx_hash (patience net budget start w) w).0
        (waiting.waits tx_hash (patience net budget start w) w) c

  give_up-IsFair : (n : ℕ) (t : Tries) → IsCounted t → t.attempts ≤ n → IsFair n (give_up t)
  unfolding give_up
  give_up-IsFair n t c h = record { bounded = h; priced = c.counted; confirmed = tt }

  follow-Ends :
      (n m : ℕ) (rest : Tries → W → Result SendError RetryOutcome × W) (x : Next × W)
      → m ≤ n
      → Goes m x.0
      → ((t : Tries) (w : W) → IsCounted t → t.attempts ≡ m → Ends n (rest t w).0)
      → Ends n (follow net rest x).0
  follow-Ends n m rest (return o, w) h g k = record {
    bounded = omega (arith, g.bounded, h);
    priced = g.priced;
    confirmed = g.confirmed;
  }
  follow-Ends n m rest (raise, w) h g k = absurd g
  follow-Ends n m rest (again t, w) h g k = k t w g.0 g.1

  retry-Ends :
      (n left budget start : ℕ) (t : Tries) (w : W)
      → IsCounted t
      → t.attempts + left ≤ n
      → Ends n (retry net left budget start t w).0
  unfolding retry attempt
  retry-Ends n zero budget start t w c h = give_up-IsFair n t c (omega (arith, h))
  retry-Ends n (suc left) budget start t w c h =
      if_both (λ (x : Result SendError RetryOutcome × W). Ends n x.0)
        (ltb (net.monotonic w - start) budget) _ (ok (give_up t), w)
        (follow-Ends n (t.attempts + 1) (λ t w. retry net left budget start t w)
          (attempt net budget start t w) (omega (arith, h))
          (on_send-Goes budget start (begin net t) (net.send t.gas w) (record {
            counted = omega (arith, length-append t.gas_prices (t.gas ∷ []), c.counted);
          }))
          (λ t' w' c' e. retry-Ends n left budget start t' w' c' (omega (arith, e, h))))
        (give_up-IsFair n t c (omega (arith, h)))

  -- If the wait for a receipt raises nothing but its time-out, a retried transaction returns, whether its
  -- sends raise or not: its outcome counts at most the allowed attempts, has a gas price for each, and
  -- names a transaction only with a receipt of success.
  pub with_gas_bump-Ends :
      (initial max_attempts budget : ℕ) (w : W)
      → Ends max_attempts (with_gas_bump net initial max_attempts budget w).0
  unfolding with_gas_bump
  with_gas_bump-Ends initial max_attempts budget w =
      retry-Ends max_attempts max_attempts budget (net.monotonic w)
        (record { gas = initial; attempts = 0; gas_prices = []; last_err = none }) w
        (record { counted = refl }) (omega arith)
