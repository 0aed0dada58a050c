-- ===== src/Eval/Tree.antt =====
-- `eval_tree_within_budget` of harnesses/eval.c: the bound on the size of a parsed expression.
pub mod Laws
use r_oss_fuzz.Base.{ℕ, ◌+◌, ◌%◌, ◌^◌, max, Bool, true, false, ltb, if◌then◌else◌}

-- A parse tree as the walk sees it: calls and pairlists by their cells, expression vectors by their
-- elements, and everything else.
mutual
  pub data Tree : Type 0 where
    cells : Trees → Tree
    vector : Trees → Tree
    other : Tree

  pub data Trees : Type 0 where
    nil : Trees
    cons : Tree → Trees → Trees

abbrev pub max_depth : ℕ
max_depth = 64

abbrev pub max_nodes : ℕ
max_nodes = 1024

-- `++*nodes` and `depth + 1` on an `unsigned`.
abbrev pub next : ℕ → ℕ
next n = (n + 1) % 2 ^ 32

-- The result, and `*nodes` behind it.
unfoldable mutual
  pub eval_tree_within_budget : Tree → ℕ → ℕ → Bool × ℕ
  eval_tree_within_budget (cells l) depth nodes =
      let inside = walk_cells l (next depth) (next nodes) in
      if ltb max_depth depth
      then (false, nodes)
      else if ltb max_nodes (next nodes)
      then (false, next nodes)
      else inside
  eval_tree_within_budget (vector l) depth nodes =
      let inside = walk_elements l (next depth) (next nodes) in
      if ltb max_depth depth
      then (false, nodes)
      else if ltb max_nodes (next nodes)
      then (false, next nodes)
      else inside
  eval_tree_within_budget other depth nodes =
      if ltb max_depth depth
      then (false, nodes)
      else if ltb max_nodes (next nodes)
      then (false, next nodes)
      else (true, next nodes)

  -- The loop over the cells: each cell is a node too.
  pub walk_cells : Trees → ℕ → ℕ → Bool × ℕ
  walk_cells nil depth nodes = (true, nodes)
  walk_cells (cons x l) depth nodes =
      let item = eval_tree_within_budget x depth (next nodes) in
      let rest = walk_cells l depth item.1 in
      if ltb max_nodes (next nodes) then (false, next nodes) else if item.0 then rest else item

  pub walk_elements : Trees → ℕ → ℕ → Bool × ℕ
  walk_elements nil depth nodes = (true, nodes)
  walk_elements (cons x l) depth nodes =
      let item = eval_tree_within_budget x depth nodes in
      let rest = walk_elements l depth item.1 in if item.0 then rest else item
