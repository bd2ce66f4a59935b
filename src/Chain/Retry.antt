-- ===== src/Chain/Retry.antt =====
-- user-server/user_server/chain/retry.py. The two calls of the chain and the clock are parameters; so
-- is the rise of the gas price, which is computed in floats.
use artic_trader.Prelude.{
  ℕ, zero, suc, ◌+◌, ◌-◌, ◌==◌, ltb, String, str_eq, Bool, false, Option, none, some, List, [], ◌∷◌,
  ◌++◌, if◌then◌else◌,
}
use artic_trader.Prelude.Exec.{Result, ok, err}

-- `receipt.get("status")`: a number, a text, or no status.
pub data ReceiptStatus : Type 0 where
  code : ℕ → ReceiptStatus
  text : String → ReceiptStatus
  absent : ReceiptStatus

-- How the wait for a receipt ends: in time with what the chain has, too late, or with an exception.
pub data Wait : Type 0 where
  in_time : Option ReceiptStatus → Wait
  timed_out broken : Wait

pub data SendError : Type 0 where
  raised : SendError

pub data LastError : Type 0 where
  send_failed receipt_timeout exhausted : LastError
  receipt_status : Option ReceiptStatus → LastError

pub record RetryOutcome : Type 0 where
  pub attempts : ℕ
  pub gas_prices : List ℕ
  pub tx_hash : Option String
  pub receipt : Option ReceiptStatus
  pub last_error : Option LastError

-- Times are in milliseconds; `none` of `send` is an exception.
pub record Network (W : Type 0) : Type 0 where
  pub send : ℕ → W → Option String × W
  pub wait_receipt : String → ℕ → W → Wait × W
  pub monotonic : W → ℕ
  pub bumped : ℕ → ℕ

-- status in (1, "0x1")
unfoldable pub is_success : ReceiptStatus → Bool
is_success (code n) = n == 1
is_success (text t) = str_eq t "0x1"
is_success absent = false

-- The locals of the loop.
pub record Tries : Type 0 where
  pub gas : ℕ
  pub attempts : ℕ
  pub gas_prices : List ℕ
  pub last_err : Option LastError

abbrev pub or_exhausted : Option LastError → LastError
or_exhausted none = exhausted
or_exhausted (some e) = e

-- The outcome without a transaction.
unfoldable pub give_up : Tries → RetryOutcome
give_up t = record {
  attempts = t.attempts;
  gas_prices = t.gas_prices;
  tx_hash = none;
  receipt = none;
  last_error = some (or_exhausted t.last_err);
}

abbrev pub done : Tries → String → ReceiptStatus → RetryOutcome
done t tx_hash receipt = record {
  attempts = t.attempts;
  gas_prices = t.gas_prices;
  tx_hash = some tx_hash;
  receipt = some receipt;
  last_error = none;
}

-- What an attempt comes to: the outcome, another attempt, or an exception.
pub data Next : Type 0 where
  return : RetryOutcome → Next
  again : Tries → Next
  raise : Next

module _ {W : Type 0} (net : Network W) where
  abbrev pub failed : LastError → Tries → Next
  failed e t = again (record t { gas = net.bumped t.gas; last_err = some e })

  abbrev pub on_receipt : Tries → String → Wait → Next
  on_receipt t tx_hash timed_out = failed receipt_timeout t
  on_receipt t tx_hash broken = raise
  on_receipt t tx_hash (in_time none) = failed (receipt_status none) t
  on_receipt t tx_hash (in_time (some r)) =
      if is_success r then return (done t tx_hash r) else failed (receipt_status (some r)) t

  -- max(1.0, remaining)
  abbrev pub patience : ℕ → ℕ → W → ℕ
  patience budget start w =
      let remaining = budget - (net.monotonic w - start) in
      if ltb 1000 remaining then remaining else 1000

  abbrev pub on_send : ℕ → ℕ → Tries → Option String × W → Next × W
  on_send budget start t (none, w) = (failed send_failed t, w)
  on_send budget start t (some tx_hash, w) =
      let (r, w') = net.wait_receipt tx_hash (patience budget start w) w in
      (on_receipt t tx_hash r, w')

  -- The counters of an attempt that begins.
  abbrev pub begin : Tries → Tries
  begin t = record t { attempts = t.attempts + 1; gas_prices = t.gas_prices ++ t.gas ∷ [] }

  unfoldable pub attempt : ℕ → ℕ → Tries → W → Next × W
  unfolding is_success
  attempt budget start t w = on_send budget start (begin t) (net.send t.gas w)

  abbrev pub follow :
      (Tries → W → Result SendError RetryOutcome × W) → Next × W → Result SendError RetryOutcome × W
  follow rest (return o, w) = (ok o, w)
  follow rest (raise, w) = (err raised, w)
  follow rest (again t, w) = rest t w

  -- The loop, with the number of attempts that are left.
  unfoldable pub retry : ℕ → ℕ → ℕ → Tries → W → Result SendError RetryOutcome × W
  unfolding give_up attempt
  retry zero budget start t w = (ok (give_up t), w)
  retry (suc left) budget start t w =
      if ltb (net.monotonic w - start) budget
      then follow (λ t w. retry left budget start t w) (attempt budget start t w)
      else (ok (give_up t), w)

  unfoldable pub with_gas_bump : ℕ → ℕ → ℕ → W → Result SendError RetryOutcome × W
  unfolding retry
  with_gas_bump initial_gas_price max_attempts total_budget w =
      retry max_attempts total_budget (net.monotonic w)
        (record { gas = initial_gas_price; attempts = 0; gas_prices = []; last_err = none }) w
