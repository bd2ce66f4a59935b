-- ===== src/Strategies/Refusals.antt =====
-- The sources that user-server/user_server/strategies/publish_router.py refuses.
use artic_trader.Prelude.{
  String, Bool, true, false, ◌||◌, Option, none, some, List, [], ◌∷◌, ◌≡◌, ◌≢◌, refl, str_eq,
  if_both,
}
use artic_trader.Prelude.Exec.{Result, ok, err}
use artic_trader.Prelude.Results.{◌>>◌}
use artic_trader.Trading.Float.{FloatOps}
use artic_trader.Trading.Session.{Candle}
use artic_trader.Backtest.Metrics.{MathOps}
use artic_trader.Backtest.Orders.{Position}
use artic_trader.Strategies.Sandbox.{
  SandboxError, ast_violation, runtime_violation, timeout_violation, Node, node, among,
  banned_nodes, banned_names, is_dunder, check_text, check_node, check_all, validate_ast, walk,
}
use artic_trader.Strategies.Walk.{Everywhere}
use artic_trader.Strategies.Clean.{IsClean, validate_ast-Everywhere}
use artic_trader.Strategies.Python.{Interpreter}
use artic_trader.Strategies.Loader.{parse_and_validate, load_strategy}
use artic_trader.Strategies.Publish.{bad_request, Dataset, validate_and_backtest}

-- The checks raise nothing but `ASTViolation`.
abbrev Flagged : Result SandboxError Unit → Type 0
Flagged (ok u) = Unit {0}
Flagged (err (ast_violation msg)) = Unit {0}
Flagged (err (runtime_violation msg)) = ⊥
Flagged (err timeout_violation) = ⊥

check_text-Flagged : (a b c : Bool) (s : String) → Flagged (check_text a b c s)
unfolding check_text
check_text-Flagged true b c s = if_both Flagged (among s banned_names || is_dunder s) _ _ tt tt
check_text-Flagged false true c s = if_both Flagged (is_dunder s) _ _ tt tt
check_text-Flagged false false true s = if_both Flagged (is_dunder s) _ _ tt tt
check_text-Flagged false false false s = tt

check_node-Flagged : (x : Node) → Flagged (check_node x)
unfolding check_node
check_node-Flagged (node c none ns) = if_both Flagged (among c banned_nodes) _ _ tt tt
check_node-Flagged (node c (some s) ns) =
    if_both Flagged (among c banned_nodes) _ _ tt
      (check_text-Flagged (str_eq c "Name") (str_eq c "arg") (str_eq c "Constant") s)

then-Flagged : (r k : Result SandboxError Unit) → Flagged r → Flagged k → Flagged (r >> k)
then-Flagged (ok u) k f g = g
then-Flagged (err e) k f g = f

check_all-Flagged : (xs : List Node) → Flagged (check_all xs)
unfolding check_all
check_all-Flagged [] = tt
check_all-Flagged (x ∷ xs) =
    then-Flagged (check_node x) (check_all xs) (check_node-Flagged x) (check_all-Flagged xs)

module _ {V A Code W : Type 0} (I : Interpreter V A Code W) ⦃o : FloatOps A⦄
    (round_int : A → Option A) (context : List (Candle A) → Option (Position A) → V)
    (m : MathOps A) where
  refused :
      (code : String) (d : Dataset A) (w : W) (tree : Node) (r : Result SandboxError Unit)
      → I.parse code ≡ ok tree
      → validate_ast tree ≡ r
      → Flagged r
      → r ≢ ok tt
      → validate_and_backtest round_int I context m code d w ≡ err (bad_request "ast_violation")
  unfolding validate_and_backtest load_strategy parse_and_validate
  refused code d w tree (ok u) p v f n = elim (n refl) [ ]
  refused code d w tree (err (ast_violation msg)) p v f n = rw (p, v) refl
  refused code d w tree (err (runtime_violation msg)) p v f n = elim f [ ]
  refused code d w tree (err timeout_violation) p v f n = elim f [ ]

  -- A source with a node anywhere in its tree that is not clean is refused as such, with the status 400
  -- and the kind "ast_violation".
  pub validate_and_backtest-refuses :
      (code : String) (d : Dataset A) (w : W) (tree : Node)
      → I.parse code ≡ ok tree
      → ¬ Everywhere IsClean tree
      → validate_and_backtest round_int I context m code d w ≡ err (bad_request "ast_violation")
  unfolding validate_ast
  validate_and_backtest-refuses code d w tree p n =
      refused code d w tree (validate_ast tree) p refl (check_all-Flagged (walk tree))
        (λ e. n ((validate_ast-Everywhere tree).0 e))
