-- ===== src/Strategies/Sandbox.antt =====
-- The syntax checks of user-server/user_server/strategies/sandbox.py.
use Prim.Native.String.{len, count, slice}
use text.Mathlib.Text.{starts_with}
use artic_trader.Prelude.{
  String, ℕ, zero, suc, ◌+◌, ◌-◌, Bool, true, false, ◌&&◌, ◌||◌, Option, none, some, List, [], ◌∷◌,
  ◌++◌, str_eq, leb, if◌then◌else◌,
}
use artic_trader.Prelude.Exec.{Result, ok, err}
use artic_trader.Prelude.Results.{◌>>◌}

pub data SandboxError : Type 0 where
  -- the source contains a banned AST node or name
  ast_violation : String → SandboxError
  -- the strategy gave an invalid result or raised
  runtime_violation : String → SandboxError
  timeout_violation : SandboxError

-- A node of Python's syntax tree: the name of its class, its text (the identifier of a `Name`, the
-- name of an `arg`, the value of a `Constant` that is a text), and its child nodes in order.
mutual
  pub data Node : Type 0 where
    node : String → Option String → Nodes → Node

  pub data Nodes : Type 0 where
    end : Nodes
    child : Node → Nodes → Nodes

abbrev pub class_of : Node → String
class_of (node c t ns) = c

abbrev pub text_of : Node → Option String
text_of (node c t ns) = t

abbrev pub to_list : Nodes → List Node
to_list end = []
to_list (child x xs) = x ∷ to_list xs

-- ast.iter_child_nodes
abbrev pub children : Node → List Node
children (node c t ns) = to_list ns

-- `x in names`
unfoldable pub among : String → List String → Bool
among s [] = false
among s (x ∷ xs) = str_eq s x || among s xs

abbrev pub banned_nodes : List String
banned_nodes =
    "Import" ∷ "ImportFrom" ∷ "Attribute" ∷ "Global" ∷ "Nonlocal" ∷ "ClassDef" ∷ "Try" ∷ "Raise"
    ∷ "With" ∷ "AsyncWith" ∷ "Yield" ∷ "YieldFrom" ∷ "AsyncFunctionDef" ∷ "AsyncFor" ∷ "Await"
    ∷ "Delete" ∷ "JoinedStr" ∷ []

abbrev pub banned_names : List String
banned_names =
    "__import__" ∷ "eval" ∷ "exec" ∷ "compile" ∷ "open" ∷ "input" ∷ "globals" ∷ "locals" ∷ "vars"
    ∷ "dir" ∷ "getattr" ∷ "setattr" ∷ "delattr" ∷ "hasattr" ∷ "type" ∷ "object" ∷ "super"
    ∷ "__builtins__" ∷ "__class__" ∷ "__bases__" ∷ "__subclasses__" ∷ "__mro__" ∷ "__dict__"
    ∷ "__code__" ∷ "__globals__" ∷ []

-- s.endswith(t), for a `t` of one-byte characters
unfoldable pub ends_with : String → String → Bool
ends_with s t = leb (len t) (len s) && str_eq (slice s (len s - len t) (len s)) t

unfoldable pub is_dunder : String → Bool
is_dunder name = starts_with name "__" && ends_with name "__" && leb 4 (count name)

-- The checks of a node's text, by whether it is a `Name`, an `arg` or a `Constant`.
unfoldable pub check_text : Bool → Bool → Bool → String → Result SandboxError Unit
check_text true arg constant s =
    if among s banned_names || is_dunder s then err (ast_violation s) else ok tt
check_text false true constant s = if is_dunder s then err (ast_violation s) else ok tt
check_text false false true s = if is_dunder s then err (ast_violation s) else ok tt
check_text false false false s = ok tt

-- The checks of one node, in the loop's order.
unfoldable pub check_node : Node → Result SandboxError Unit
check_node (node c none ns) = if among c banned_nodes then err (ast_violation c) else ok tt
check_node (node c (some s) ns) =
    if among c banned_nodes
    then err (ast_violation c)
    else check_text (str_eq c "Name") (str_eq c "arg") (str_eq c "Constant") s

-- ast.walk: a queue of nodes, the children of each put at its end.
unfoldable pub walk_from : ℕ → List Node → List Node
walk_from zero todo = []
walk_from (suc n) [] = []
walk_from (suc n) (x ∷ todo) = x ∷ walk_from n (todo ++ children x)

-- How many nodes a tree has, which is how many rounds the walk takes.
unfoldable mutual
  pub size : Node → ℕ
  size (node c t ns) = suc (sizes ns)

  pub sizes : Nodes → ℕ
  sizes end = 0
  sizes (child x xs) = size x + sizes xs

unfoldable pub walk : Node → List Node
walk tree = walk_from (size tree) (tree ∷ [])

unfoldable pub check_all : List Node → Result SandboxError Unit
check_all [] = ok tt
check_all (x ∷ xs) = check_node x >> check_all xs

unfoldable pub validate_ast : Node → Result SandboxError Unit
validate_ast tree = check_all (walk tree)
