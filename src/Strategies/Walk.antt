-- ===== src/Strategies/Walk.antt =====
-- What the walk of a syntax tree visits: every node of the tree, and nothing else.
use artic_trader.Prelude.{
  String, ℕ, zero, suc, ◌+◌, ◌≤◌, ◌≡◌, ◌↔◌, List, [], ◌∷◌, ◌++◌, arith, Option,
}
use artic_trader.Strategies.Sandbox.{
  Node, node, Nodes, end, child, to_list, size, sizes, walk, walk_from,
}

module _ (P : Node → Type 0) where
  abbrev pub All : List Node → Type 0
  All [] = Unit
  All (x ∷ xs) = P x × All xs

  -- Of a node and of all below it, by recursion on the tree.
  abbrev mutual
    pub Everywhere : Node → Type 0
    Everywhere (node c t ns) = P (node c t ns) × Everywheres ns

    pub Everywheres : Nodes → Type 0
    Everywheres end = Unit
    Everywheres (child x xs) = Everywhere x × Everywheres xs

module _ (P : Node → Type 0) where
  All-append : (xs ys : List Node) → All P xs → All P ys → All P (xs ++ ys)
  All-append [] ys a b = b
  All-append (x ∷ xs) ys (p, a) b = (p, All-append xs ys a b)

  All-left : (xs ys : List Node) → All P (xs ++ ys) → All P xs
  All-left [] ys a = tt
  All-left (x ∷ xs) ys (p, a) = (p, All-left xs ys a)

  All-right : (xs ys : List Node) → All P (xs ++ ys) → All P ys
  All-right [] ys a = a
  All-right (x ∷ xs) ys (p, a) = All-right xs ys a

abbrev total : List Node → ℕ
total [] = 0
total (x ∷ xs) = size x + total xs

total-append : (xs ys : List Node) → total (xs ++ ys) ≡ total xs + total ys
total-append [] ys = omega arith
total-append (x ∷ xs) ys = omega (arith, total-append xs ys)

total-to_list : (ns : Nodes) → total (to_list ns) ≡ sizes ns
unfolding size
total-to_list end = omega arith
total-to_list (child x xs) = omega (arith, total-to_list xs)

module _ (P : Node → Type 0) where
  Everywheres→All : (ns : Nodes) → Everywheres P ns → All (Everywhere P) (to_list ns)
  Everywheres→All end e = tt
  Everywheres→All (child x xs) (e, es) = (e, Everywheres→All xs es)

  All→Everywheres : (ns : Nodes) → All (Everywhere P) (to_list ns) → Everywheres P ns
  All→Everywheres end e = tt
  All→Everywheres (child x xs) (e, es) = (e, All→Everywheres xs es)

  -- A round takes one node from the queue and puts its children in.
  total-round :
      (n : ℕ) (c : String) (t : Option String) (ns : Nodes) (todo : List Node)
      → total (node c t ns ∷ todo) ≤ suc n
      → total (todo ++ to_list ns) ≤ n
  unfolding size
  total-round n c t ns todo h = omega (arith, total-append todo (to_list ns), total-to_list ns)

  size-pos :
      (c : String) (t : Option String) (ns : Nodes) (todo : List Node)
      → total (node c t ns ∷ todo) ≤ 0
      → ⊥
  unfolding size
  size-pos c t ns todo h = omega arith

  pub walk_from-Everywhere :
      (n : ℕ) (todo : List Node)
      → total todo ≤ n
      → All P (walk_from n todo)
      → All (Everywhere P) todo
  unfolding walk_from
  walk_from-Everywhere n [] h a = tt
  walk_from-Everywhere zero (node c t ns ∷ todo) h a = elim (size-pos c t ns todo h) [ ]
  walk_from-Everywhere (suc n) (node c t ns ∷ todo) h (p, a) =
      let all = walk_from-Everywhere n (todo ++ to_list ns) (total-round n c t ns todo h) a in
      let below = All→Everywheres ns (All-right (Everywhere P) todo (to_list ns) all) in
      ((p, below), All-left (Everywhere P) todo (to_list ns) all)

  pub Everywhere-walk_from :
      (n : ℕ) (todo : List Node) → All (Everywhere P) todo → All P (walk_from n todo)
  unfolding walk_from
  Everywhere-walk_from zero todo a = tt
  Everywhere-walk_from (suc n) [] a = tt
  Everywhere-walk_from (suc n) (node c t ns ∷ todo) ((p, es), a) = (
    p,
    Everywhere-walk_from n (todo ++ to_list ns)
        (All-append (Everywhere P) todo (to_list ns) a (Everywheres→All ns es)),
  )

-- The rounds are enough: what holds of all visited nodes holds everywhere in the tree.
pub walk-Everywhere : (P : Node → Type 0) (tree : Node) → All P (walk tree) ↔ Everywhere P tree
unfolding walk
walk-Everywhere P tree = (
  λ a. (walk_from-Everywhere P (size tree) (tree ∷ []) (omega arith) a).0,
  λ e. Everywhere-walk_from P (size tree) (tree ∷ []) (e, tt),
)
