-- ===== src/Chain/Tests.antt =====
-- A run of user-server/user_server/chain/retry.py: the first receipt is a failure, the second is late,
-- the third is a success.
use artic_trader.Prelude.{
  ℕ, ◌+◌, ◌==◌, ◌≡◌, ◌≢◌, refl, Bool, true, false, none, some, [], ◌∷◌, if◌then◌else◌,
}
use artic_trader.Prelude.Exec.{ok}
use artic_trader.Chain.Retry.{
  Network, code, in_time, timed_out, broken, is_success, give_up, attempt, retry, with_gas_bump,
}
use artic_trader.Chain.Attempts.{Ends, IsWaiting, with_gas_bump-Ends}

abbrev network : Network ℕ
network = record {
  send = λ gas w. (some "0xab", w + 1);
  wait_receipt = λ h t w. (
    if w == 1
        then in_time (some (code 0))
        else if w == 3
        then timed_out
        else in_time (some (code 1)),
    w + 1,
  );
  monotonic = λ w. w;
  bumped = λ gas. gas + 20;
}

network-IsWaiting : IsWaiting network
network-IsWaiting = record { waits = λ h t w. never (w == 1) (w == 3) }
  where
    never :
        (a b : Bool)
        → (if a then in_time (some (code 0)) else if b then timed_out else in_time (some (code 1)))
          ≢ broken
    never true b e = cc
    never false true e = cc
    never false false e = cc

confirms :
    (with_gas_bump network 100 3 120000 0).0
    ≡ ok (record {
      attempts = 3;
      gas_prices = 100 ∷ 120 ∷ 140 ∷ [];
      tx_hash = some "0xab";
      receipt = some (code 1);
      last_error = none;
    })
unfolding with_gas_bump retry attempt give_up is_success
confirms = refl

with_gas_bump-Ends_example : Ends 3 (with_gas_bump network 100 3 120000 0).0
with_gas_bump-Ends_example = with_gas_bump-Ends network network-IsWaiting 100 3 120000 0
