-- ===== src/Strategies/Sound.antt =====
-- What the loader and the runners of user-server/user_server/strategies/runner.py return.
use artic_trader.Prelude.{
  String, true, not, Option, none, some, ◌≡◌, refl, ap, Bool-cases, inl, inr, if_both,
}
use mathlib.Core.Path.{subst}
use artic_trader.Prelude.Exec.{Result, ok, err}
use artic_trader.Prelude.Results.{◌>>=◌, ◌>>◌, Returns, Returns-bind}
use artic_trader.Dict.{Dict, get}
use artic_trader.Trading.Float.{FloatOps}
use artic_trader.Strategies.Sandbox.{SandboxError, Node, among, validate_ast}
use artic_trader.Strategies.Walk.{Everywhere}
use artic_trader.Strategies.Clean.{IsClean, validate_ast-Everywhere}
use artic_trader.Strategies.Python.{Interpreter, Raised, timed_out, raised, escaped, Failure}
use artic_trader.Strategies.Loader.{
  StrategyHandle, from_sandbox, compiled, syntax_checked, parse_and_validate, if_callable,
  handle_of, executed, load_strategy,
}
use artic_trader.Strategies.Tick.{
  valid_actions, Decision, listed, checked_action, in_unit, checked_size, checked_reason,
  checked_result, called, tick,
}

module _ {V A Code W : Type 0} (I : Interpreter V A Code W) where
  -- A handle of the source: the source is the text of a tree that is clean everywhere, the hash is
  -- the source's, and `on_tick` can be called.
  pub record IsLoaded (source : String) (h : StrategyHandle V) : Type 0 where
    pub tree : Node
    pub parsed : I.parse source ≡ ok tree
    pub clean : Everywhere IsClean tree
    pub hashed : h.code_hash ≡ I.sha256 source
    pub can_tick : I.callable h.on_tick ≡ true

  module _ (source : String) where
    -- The tree that the loader goes on with.
    abbrev Parsed : Node → Type 0
    Parsed tree = (I.parse source ≡ ok tree) × (validate_ast tree ≡ ok tt)

    validated :
        (tree : Node) (r : Result SandboxError Unit)
        → I.parse source ≡ ok tree
        → validate_ast tree ≡ r
        → Returns Parsed (from_sandbox (r >> ok tree))
    validated tree (ok u) p v = (p, v)
    validated tree (err e) p v = tt

    syntax_checked-Parsed :
        (r : Result String Node)
        → I.parse source ≡ r
        → Returns Parsed (from_sandbox (syntax_checked I r))
    syntax_checked-Parsed (ok tree) p = validated tree (validate_ast tree) p refl
    syntax_checked-Parsed (err msg) p = tt

    handle_of-IsLoaded :
        (ns : Dict V) (tree : Node) (f : Option V)
        → Parsed tree
        → Returns (IsLoaded source) (handle_of I source ns (if_callable I f))
    handle_of-IsLoaded ns tree none p = tt
    handle_of-IsLoaded ns tree (some v) p = elim (Bool-cases (I.callable v)) [
      | inl e ↦ rw e (record {
        tree = tree;
        parsed = p.0;
        clean = (validate_ast-Everywhere tree).0 p.1;
        hashed = refl;
        can_tick = e;
      })
      | inr e ↦ rw e tt
    ]

    executed-IsLoaded :
        (tree : Node) (r : Result Raised (Dict V))
        → Parsed tree
        → Returns (IsLoaded source) (executed I source r)
    executed-IsLoaded tree (err timed_out) p = tt
    executed-IsLoaded tree (err (raised msg)) p = tt
    executed-IsLoaded tree (err (escaped msg)) p = tt
    executed-IsLoaded tree (ok ns) p = handle_of-IsLoaded ns tree (get ns "on_tick") p

    compiled-IsLoaded :
        (tree : Node) (r : Result String Code)
        → Parsed tree
        → Returns (IsLoaded source) (compiled r >>= λ code. executed I source (I.exec_tree code))
    compiled-IsLoaded tree (err msg) p = tt
    compiled-IsLoaded tree (ok code) p = executed-IsLoaded tree (I.exec_tree code) p

    loaded : Returns (IsLoaded source) (load_strategy I source)
    unfolding load_strategy parse_and_validate
    loaded =
        Returns-bind Parsed (IsLoaded source) (from_sandbox (syntax_checked I (I.parse source))) _
          (syntax_checked-Parsed (I.parse source) refl)
          (λ tree p. compiled-IsLoaded tree (I.compile_tree tree) p)

    -- Whatever the loader returns a handle for has been parsed, and no node of its tree is banned;
    -- the handle carries the hash of the source, and its `on_tick` can be called.
    pub load_strategy-IsLoaded :
        {h : StrategyHandle V} → load_strategy I source ≡ ok h → IsLoaded source h
    load_strategy-IsLoaded e = subst (Returns (IsLoaded source)) e loaded

-- A decision that the engine may act on.
module _ {A : Type 0} ⦃o : FloatOps A⦄ where
  abbrev pub IsValid : Decision A → Type 0
  IsValid d =
      (among d.action valid_actions ≡ true)
      × (o.le (o.lit 0) d.size ≡ true)
      × (o.le d.size (o.lit 1) ≡ true)

module _ {V A Code W : Type 0} (I : Interpreter V A Code W) ⦃o : FloatOps A⦄
    (unit_interval : (o.le (o.lit 0) (o.lit 0) ≡ true) × (o.le (o.lit 0) (o.lit 1) ≡ true)) where
  listed-valid : (t : Option String) → Returns (λ s. among s valid_actions ≡ true) (listed t)
  listed-valid none = tt
  listed-valid (some s) = elim (Bool-cases (among s valid_actions)) [
    | inl e ↦ rw e e
    | inr e ↦ rw e tt
  ]

  checked_action-valid :
      (v : Option V) → Returns (λ s. among s valid_actions ≡ true) (checked_action I v)
  checked_action-valid none = tt
  checked_action-valid (some v) =
      if_both (Returns (λ s. among s valid_actions ≡ true)) (not (I.hashable v)) _ _ tt
        (listed-valid (I.as_text v))

  abbrev InUnit : A → Type 0
  InUnit x = (o.le (o.lit 0) x ≡ true) × (o.le x (o.lit 1) ≡ true)

  in_unit-InUnit : (x : Option A) → Returns InUnit (in_unit I x)
  in_unit-InUnit none = tt
  in_unit-InUnit (some x) = elim (Bool-cases (o.le (o.lit 0) x)) [
    | inl e ↦ elim (Bool-cases (o.le x (o.lit 1))) [
      | inl f ↦ rw (e, f) (e, f)
      | inr f ↦ rw (e, f) tt
    ]
    | inr e ↦ rw e tt
  ]

  checked_size-InUnit : (v : Option V) → Returns InUnit (checked_size I v)
  checked_size-InUnit none = unit_interval
  checked_size-InUnit (some v) =
      if_both (Returns InUnit) (not (I.is_number v)) _ _ tt (in_unit-InUnit (I.to_float v))

  checked_result-IsValid : (d : Option (Dict V)) → Returns IsValid (checked_result I d)
  checked_result-IsValid none = tt
  checked_result-IsValid (some d) =
      Returns-bind _ IsValid (checked_action I (get d "action")) _
        (checked_action-valid (get d "action"))
        (λ action a.
          Returns-bind InUnit IsValid (checked_size I (get d "size")) _
            (checked_size-InUnit (get d "size"))
            (λ size s.
              Returns-bind (λ r. Unit {0}) IsValid (checked_reason I (get d "reason")) _
                (anything (checked_reason I (get d "reason"))) (λ reason r. (a, s.0, s.1))))
    where
      anything : (r : Result Failure String) → Returns (λ r. Unit {0}) r
      anything (ok x) = tt
      anything (err e) = tt

  called-IsValid : (r : Result Raised V) → Returns IsValid (called I r)
  called-IsValid (err timed_out) = tt
  called-IsValid (err (raised msg)) = tt
  called-IsValid (err (escaped msg)) = tt
  called-IsValid (ok v) = checked_result-IsValid (I.as_dict v)

  -- Whatever the user's code does, a dict that `tick` returns has one of the four actions and a size
  -- between 0 and 1.
  pub tick-IsValid :
      (h : StrategyHandle V) (ctx : V) (w w' : W) {d : Decision A}
      → tick I h ctx w ≡ (ok d, w')
      → IsValid d
  unfolding tick
  tick-IsValid h ctx w w' e =
      subst (Returns IsValid) (ap (λ p. p.0) e) (called-IsValid (I.call_tick h.on_tick ctx w).0)
