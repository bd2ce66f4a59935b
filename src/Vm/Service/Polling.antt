-- ===== src/Vm/Service/Polling.antt =====
-- The health poll of a wake ends: by a healthy answer, or once the clock has reached the deadline.
use artic_trader.Prelude.{
  ℕ, zero, suc, ◌+◌, ◌*◌, ◌/◌, ◌≤◌, String, ◌≡◌, inl, inr, arith, ltb, if◌then◌else◌, Bool-cases,
  ltb→lt,
}
use artic_trader.Vm.Provider.{Provider, IsTimed, Settings}
use artic_trader.Vm.Service.{poll, poll_fuel, Poll, healthy, deadline_passed, out_of_fuel}

module _ {W : Type 0} (p : Provider W) (c : Settings) (t : IsTimed p) (e : String) where
  -- How a poll may end, and what the clock then says.
  abbrev pub Ends : ℕ → Poll × W → Type 0
  Ends deadline (healthy, w) = Unit {0}
  Ends deadline (deadline_passed, w) = deadline ≤ p.now w
  Ends deadline (out_of_fuel, w) = ⊥

  poll-suc :
      (fuel deadline : ℕ) (w : W)
      → poll p c (suc fuel) deadline e w ≡ (
          if ltb (p.now w) deadline
          then (if (p.health e w).0
              then (healthy, (p.health e w).1)
              else poll p c fuel deadline e (p.sleep 500 (p.health e w).1))
          else (deadline_passed, w))
  unfolding poll
  poll-suc fuel deadline w = ground arith

  poll_rounds :
      (k deadline : ℕ) (w : W)
      → deadline ≤ p.now w + 500 * k
      → Ends deadline (poll p c (suc k) deadline e w)
  poll_rounds zero deadline w h =
      rw (poll-suc zero deadline w) (elim (Bool-cases (ltb (p.now w) deadline)) [
        | inl before ↦ absurd (omega (arith, ltb→lt _ _ before))
        | inr after ↦ rw after (ground arith)
      ])
  poll_rounds (suc k) deadline w h =
      rw (poll-suc (suc k) deadline w) (elim (Bool-cases (ltb (p.now w) deadline)) [
        | inl before ↦ rw before (elim (Bool-cases (p.health e w).0) [
          | inl up ↦ rw up tt
          | inr down ↦ rw down (
              poll_rounds k deadline (p.sleep 500 (p.health e w).1)
                (omega (arith, t.sleep_lasts 500 (p.health e w).1, t.health_forward e w)))
        ])
        | inr after ↦ rw after (ground arith)
      ])

  -- With a clock that a sleep moves on and a health request does not move back, the poll of a wake
  -- never runs out of rounds: it ends healthy, or with the clock at its deadline or past it.
  pub poll-Ends :
      (w : W)
      → Ends (p.now w + c.wake_timeout) (poll p c (poll_fuel p c) (p.now w + c.wake_timeout) e w)
  poll-Ends w = poll_rounds (c.wake_timeout / 500 + 1) (p.now w + c.wake_timeout) w (omega arith)
