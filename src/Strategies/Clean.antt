-- ===== src/Strategies/Clean.antt =====
-- What a tree that passes the checks has in none of its nodes.
use Prim.Native.String.{◌++◌ as ◌<>◌}
use Prim.Native.String.{len, count, slice}
use text.Mathlib.TextPositions.{len-append, slice-append_right, eq_refl, starts_with-append}
use text.Mathlib.TextLemmas.{append_assoc, length-append}
use artic_trader.Prelude.{
  ◌+◌, ◌-◌, ◌⊎◌, inl, inr, leb, ◌&&◌, String, ◌≡◌, ◌≢◌, refl, sym, ◌∙◌, ◌↔◌, Bool, true, false,
  Option, none, some, List, [], ◌∷◌, eq_iff, arith,
}
use artic_trader.Prelude.Exec.{Result, ok, err}
use artic_trader.Prelude.Results.{◌>>◌}
use artic_trader.Strategies.Sandbox.{
  SandboxError, Node, node, Nodes, end, child, class_of, text_of, among, banned_nodes, banned_names,
  is_dunder, ends_with, check_text, check_node, check_all, validate_ast, walk,
}
use artic_trader.Strategies.Walk.{All, Everywhere, Everywheres, walk-Everywhere}

-- A node that the checks let pass: its class is not banned, a name in it is neither banned nor a
-- dunder, and no argument and no literal is a dunder.
pub record IsClean (x : Node) : Type 0 where
  pub syntax : among (class_of x) banned_nodes ≡ false
  pub names :
      (s : String)
      → class_of x ≡ "Name"
      → text_of x ≡ some s
      → (among s banned_names ≡ false) × (is_dunder s ≡ false)
  pub args : (s : String) → class_of x ≡ "arg" → text_of x ≡ some s → is_dunder s ≡ false
  pub literals : (s : String) → class_of x ≡ "Constant" → text_of x ≡ some s → is_dunder s ≡ false

pub check_node→IsClean : (x : Node) → check_node x ≡ ok tt → IsClean x
unfolding check_node check_text
check_node→IsClean (node c none ns) h = record {
  syntax = ground arith;
  names = λ s _ e. ground arith;
  args = λ s _ e. ground arith;
  literals = λ s _ e. ground arith;
}
check_node→IsClean (node c (some t) ns) h = record {
  syntax = ground arith;
  names = λ s e e'. ground (arith, eq_iff c "Name");
  args = λ s e e'. ground (arith, eq_iff c "Name", eq_iff c "arg");
  literals = λ s e e'. ground (arith, eq_iff c "Name", eq_iff c "arg", eq_iff c "Constant");
}

pub IsClean→check_node : (x : Node) → IsClean x → check_node x ≡ ok tt
unfolding check_node check_text
IsClean→check_node (node c none ns) h = ground (arith, h.syntax)
IsClean→check_node (node c (some t) ns) h = ground (
  arith,
  h.syntax,
  h.names t,
  h.args t,
  h.literals t,
  eq_iff c "Name",
  eq_iff c "arg",
  eq_iff c "Constant",
)

check_all→All : (xs : List Node) → check_all xs ≡ ok tt → All IsClean xs
unfolding check_all
check_all→All [] h = tt
check_all→All (x ∷ xs) h =
    (check_node→IsClean x (first (check_node x) h), check_all→All xs (second (check_node x) h))
  where
    first : (r : Result SandboxError Unit) → r >> check_all xs ≡ ok tt → r ≡ ok tt
    first (ok u) e = refl
    first (err _) e = cc

    second : (r : Result SandboxError Unit) → r >> check_all xs ≡ ok tt → check_all xs ≡ ok tt
    second (ok u) e = e
    second (err _) e = cc

accepted_if : (xs : List Node) → All IsClean xs → check_all xs ≡ ok tt
unfolding check_all
accepted_if [] a = refl
accepted_if (x ∷ xs) (c, a) = rw (IsClean→check_node x c, accepted_if xs a) refl

-- A syntax tree is accepted exactly if every node in it, at any depth, is clean: of no banned
-- class, no name banned or a dunder, no argument and no text literal a dunder.
pub validate_ast-Everywhere : (tree : Node) → (validate_ast tree ≡ ok tt) ↔ Everywhere IsClean tree
unfolding validate_ast
validate_ast-Everywhere tree = (
  λ h. (walk-Everywhere IsClean tree).0 (check_all→All (walk tree) h),
  λ e. accepted_if (walk tree) ((walk-Everywhere IsClean tree).1 e),
)

ends_with-append : (s t : String) → ends_with (s <> t) t ≡ true
unfolding ends_with
ends_with-append s t = rw (len-append s t, slice_last) (rw (eq_refl t) long_enough)
  where
    slice_last : slice (s <> t) (len s + len t - len t) (len s + len t) ≡ t
    slice_last = rw back (slice-append_right s t)
      where
        back : len s + len t - len t ≡ len s
        back = omega arith

    long_enough : (leb (len t) (len s + len t) && true) ≡ true
    long_enough = ground arith

-- Every text between two pairs of underscores is a dunder.
pub is_dunder-between : (m : String) → is_dunder ("__" <> (m <> "__")) ≡ true
unfolding is_dunder
is_dunder-between m = all_true (starts_with-append "__" (m <> "__")) ends long
  where
    all_true : {a b c : Bool} → a ≡ true → b ≡ true → c ≡ true → (a && b && c) ≡ true
    all_true p q r = rw (p, q, r) refl

    ends : ends_with ("__" <> (m <> "__")) "__" ≡ true
    ends = rw (← append_assoc "__" m "__") (ends_with-append ("__" <> m) "__")

    long : leb 4 (count ("__" <> (m <> "__"))) ≡ true
    long = rw (length-append "__" (m <> "__"), length-append m "__") (ground arith)

-- `x` is the tree or stands somewhere below it.
mutual
  pub data Within : Node → Node → Type 0 where
    here : {x : Node} → Within x x
    below :
        {x : Node} {c : String} {t : Option String} {ns : Nodes}
        → WithinSome x ns
        → Within x (node c t ns)

  pub data WithinSome : Node → Nodes → Type 0 where
    first : {x y : Node} {ys : Nodes} → Within x y → WithinSome x (child y ys)
    later : {x y : Node} {ys : Nodes} → WithinSome x ys → WithinSome x (child y ys)

module _ (P : Node → Type 0) where
  Everywhere-root : (tree : Node) → Everywhere P tree → P tree
  Everywhere-root (node c t ns) (p, es) = p

  mutual
    Everywhere-at : (x tree : Node) → Within x tree → Everywhere P tree → P x
    Everywhere-at x tree here e = Everywhere-root tree e
    Everywhere-at x (node c t ns) (below w) (p, es) = Everywheres-at x ns w es

    Everywheres-at : (x : Node) (ns : Nodes) → WithinSome x ns → Everywheres P ns → P x
    Everywheres-at x end w es = elim w [ ]
    Everywheres-at x (child y ys) (first w) (e, es) = Everywhere-at x y w e
    Everywheres-at x (child y ys) (later w) (e, es) = Everywheres-at x ys w es

-- A tree with a name, an argument or a text literal `__m__` anywhere in it is refused, whatever `m`
-- is.
pub validate_ast-dunder :
    (m : String) (c : String) (ns : Nodes) (tree : Node)
    → (c ≡ "Name") ⊎ (c ≡ "arg") ⊎ (c ≡ "Constant")
    → Within (node c (some ("__" <> (m <> "__"))) ns) tree
    → validate_ast tree ≢ ok tt
validate_ast-dunder m c ns tree k w h = caught k
  where
    s : String
    s = "__" <> (m <> "__")

    clean : IsClean (node c (some s) ns)
    clean = Everywhere-at IsClean (node c (some s) ns) tree w ((validate_ast-Everywhere tree).0 h)

    clash : is_dunder s ≡ false → ⊥
    clash e = absurd (sym (is_dunder-between m) ∙ e)
      where
        absurd : true ≡ false → ⊥
        absurd q = cc

    caught : (c ≡ "Name") ⊎ (c ≡ "arg") ⊎ (c ≡ "Constant") → ⊥
    caught (inl e) = clash (clean.names s e refl).1
    caught (inr (inl e)) = clash (clean.args s e refl)
    caught (inr (inr e)) = clash (clean.literals s e refl)
