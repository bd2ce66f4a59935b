-- ===== src/Trading/Actions/Ledger.antt =====
-- app/engine.py: the on-chain trade log of a run is a ledger. Openings and closings alternate, each
-- closing names the side and the entry price of the opening before it, and the position on hand is
-- what the ledger leaves open.
use mathlib.Core.Path.{subst}
use artic_trader.Prelude.{
  ◌≡◌, ◌≢◌, sym, ◌∙◌, Bool, true, false, Option, none, some, List, [], ◌∷◌, ◌++◌,
}
use artic_trader.Prelude.Exec.{Keeps, ◌>>◌}
use artic_trader.Prelude.Triples.{Triple, Triple-bind}
use artic_trader.Trading.Paper.{PositionSide, flat, PaperPosition}
use artic_trader.Trading.Session.{Event, logged_open, logged_close, Engine, Session}
use artic_trader.Trading.Actions.{Step, send, update, skip, when}

-- What a ledger leaves open: nothing, or a side and its entry price.
abbrev pub Book : Type 0 → Type 0
Book A = Option (PositionSide × A)

-- An event that is no on-chain trade.
abbrev pub IsAside : {A : Type 0} → Event A → Type 0
IsAside (logged_open _ _) = ⊥
IsAside (logged_close _ _ _ _) = ⊥
IsAside _ = Unit {0}

module _ {A : Type 0} where
  pub data Ledger : List (Event A) → Book A → Type 0 where
    nothing : Ledger [] none
    opening :
        {evs : List (Event A)} (side : PositionSide) (entry : A)
        → Ledger evs none
        → Ledger (evs ++ logged_open side entry ∷ []) (some (side, entry))
    closing :
        {evs : List (Event A)} (side : PositionSide) (entry exit bps : A)
        → Ledger evs (some (side, entry))
        → Ledger (evs ++ logged_close side (some entry) exit bps ∷ []) none
    aside :
        {evs : List (Event A)} {b : Book A} (ev : Event A)
        → IsAside ev
        → Ledger evs b
        → Ledger (evs ++ ev ∷ []) b

  -- The position is what the book says.
  abbrev pub Holds : PaperPosition A → Book A → Type 0
  Holds pos none = pos.side ≡ flat
  Holds pos (some (side, entry)) =
      (side ≢ flat) × (pos.side ≡ side) × (pos.entry_price ≡ some entry)

-- Each rule is given what a step needs to keep an invariant of the engine's position and log.
module _ {A W : Type 0} where
  -- The log leaves `logged` open while the engine holds `held`.
  pub record At (logged held : Book A) (s : Session A W) : Type 0 where
    pub ledger : Ledger s.sent logged
    pub position : Holds s.engine.position held

  -- Between the steps the two are one book.
  pub record IsBalanced (s : Session A W) : Type 0 where
    pub book : Book A
    pub at : At book book s

  pub send-At : {b c : Book A} (ev : Event A) → IsAside ev → Keeps (At b c) (send ev)
  send-At ev e = record {
    at = λ s h. record { ledger = aside ev e h.ledger; position = h.position };
  }

  pub send-IsBalanced : (ev : Event A) → IsAside ev → Keeps IsBalanced (send ev)
  send-IsBalanced ev e = record {
    at = λ s h. record { book = h.book; at = (send-At ev e).at s h.at };
  }

  -- A write of the engine that leaves the position alone.
  pub update-IsBalanced :
      (f : Engine A → Engine A)
      → ((e : Engine A) → (f e).position ≡ e.position)
      → Keeps IsBalanced (update f)
  update-IsBalanced f same = record {
    at = λ s h. record {
      book = h.book;
      at = record {
        ledger = h.at.ledger;
        position =
            subst (λ (p : PaperPosition A). Holds p h.book) (sym (same s.engine)) h.at.position;
      };
    };
  }

  -- A flat engine's log leaves nothing open.
  pub flat_book : (s : Session A W) → IsBalanced s → s.engine.position.side ≡ flat → At none none s
  flat_book s h e = by_book h.book h.at
    where
      by_book : (b : Book A) → At b b s → At none none s
      by_book none h = h
      by_book (some (side, entry)) h = absurd (h.position.0 (sym h.position.1 ∙ e))

  pub balanced : {b : Book A} (s : Session A W) → At b b s → IsBalanced s
  balanced s h = record { book = _; at = h }

  pub log_open :
      (side : PositionSide) (price : A) (s : Session A W)
      → At none (some (side, price)) s
      → IsBalanced (send (logged_open side price) s).1
  log_open side price s h = record {
    book = some (side, price);
    at = record { ledger = opening side price h.ledger; position = h.position };
  }

module _ {A W : Type 0} {R : Session A W → Type 0} where
  -- Events that are no trade, anywhere in a step.
  pub send_aside :
      {b c : Book A} (ev : Event A) → IsAside ev → Triple (At b c) (send ev) (λ a. At b c) R
  send_aside ev e = record { at = (send-At ev e).at }

  pub skip_aside : {b c : Book A} → Triple (At b c) skip (λ a. At b c) R
  skip_aside = record { at = λ s h. h }

  pub when_aside :
      {b c : Book A} (t : Bool) (m : Step A W Unit)
      → Triple (At b c) m (λ a. At b c) R
      → Triple (At b c) (when t m) (λ a. At b c) R
  when_aside true m h = h
  when_aside false m h = skip_aside

  pub then_aside :
      {P : Session A W → Type 0} {Q : Session A W → Type 0} {b c : Book A} (m n : Step A W Unit)
      → Triple P m (λ a. At b c) R
      → Triple (At b c) n (λ a. Q) R
      → Triple P (m >> n) (λ a. Q) R
  then_aside m n h k = Triple-bind m (λ _. n) h (λ _. k)
