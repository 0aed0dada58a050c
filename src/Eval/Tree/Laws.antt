-- ===== src/Eval/Tree/Laws.antt =====
-- `eval_tree_within_budget` against the height and the weight of a tree.
use r_oss_fuzz.Base.{
  ℕ, suc, ◌+◌, ◌≤◌, ◌<◌, max, Bool, true, false, ltb, if◌then◌else◌, ◌≡◌, ◌⊎◌, ◌↔◌, inl, inr, ap,
  sym, ◌∙◌, arith, dec_lt,
}
use mathlib.Core.Path.{subst}
use r_oss_fuzz.Eval.Tree.{
  Tree, Trees, cells, vector, other, nil, cons, max_depth, max_nodes, next, eval_tree_within_budget,
  walk_cells, walk_elements,
}

-- How deep a tree nests, and how many nodes it has: one for each subtree, and one for each cell of a
-- call or pairlist.
unfoldable mutual
  pub height : Tree → ℕ
  height (cells l) = heights l
  height (vector l) = heights l
  height other = 0

  pub heights : Trees → ℕ
  heights nil = 0
  heights (cons x l) = max (1 + height x) (heights l)

unfoldable mutual
  pub weight : Tree → ℕ
  weight (cells l) = 1 + cell_weight l
  weight (vector l) = 1 + element_weight l
  weight other = 1

  pub cell_weight : Trees → ℕ
  cell_weight nil = 0
  cell_weight (cons x l) = 1 + (weight x + cell_weight l)

  pub element_weight : Trees → ℕ
  element_weight nil = 0
  element_weight (cons x l) = weight x + element_weight l

-- A walk from `nodes` on that has `w` nodes to count, down to the level `level`: it counts them all if
-- both bounds allow that, and it fails otherwise.
abbrev Counts : Bool × ℕ → (level nodes w : ℕ) → Type 0
Counts r level nodes w =
    ((r ≡ (true, nodes + w)) × (level ≤ max_depth) × (nodes + w ≤ max_nodes))
    ⊎ ((r.0 ≡ false) × ((max_depth < level) ⊎ (max_nodes < nodes + w)))

next-suc : (n : ℕ) → n ≤ 1025 → next n ≡ suc n
next-suc n h = omega arith

-- The test at the head of the function.
enter :
    (inside : Bool × ℕ) (depth nodes hs w : ℕ)
    → nodes ≤ max_nodes
    → (depth ≤ max_depth → suc nodes ≤ max_nodes → Counts inside (depth + hs) (suc nodes) w)
    → Counts
        (if ltb max_depth depth
          then (false, nodes)
          else if ltb max_nodes (next nodes)
          then (false, next nodes)
          else inside)
        (depth + hs)
        nodes
        (1 + w)
enter inside depth nodes hs w n k = elim (dec_lt max_depth depth) [
  | yes deep ↦ inr (ground arith, inl (omega arith))
  | no level ↦ elim (dec_lt max_nodes (suc nodes)) [
    | yes many ↦ inr (ground (arith, next-suc nodes), inr (omega arith))
    | no few ↦ elim (k (omega arith) (omega arith)) [
      | inl (e, a, b) ↦ inl (ground (arith, next-suc nodes, e), a, omega arith)
      | inr (e, inl a) ↦ inr (ground (arith, next-suc nodes, e), inl a)
      | inr (e, inr b) ↦ inr (ground (arith, next-suc nodes, e), inr (omega arith))
    ]
  ]
]

-- The test in front of each item of a call.
cell :
    (inside : Bool × ℕ) (level nodes w : ℕ)
    → nodes ≤ max_nodes
    → (suc nodes ≤ max_nodes → Counts inside level (suc nodes) w)
    → Counts
        (if ltb max_nodes (next nodes) then (false, next nodes) else inside)
        level
        nodes
        (1 + w)
cell inside level nodes w n k = elim (dec_lt max_nodes (suc nodes)) [
  | yes many ↦ inr (ground (arith, next-suc nodes), inr (omega arith))
  | no few ↦ elim (k (omega arith)) [
    | inl (e, a, b) ↦ inl (ground (arith, next-suc nodes, e), a, omega arith)
    | inr (e, inl a) ↦ inr (ground (arith, next-suc nodes, e), inl a)
    | inr (e, inr b) ↦ inr (ground (arith, next-suc nodes, e), inr (omega arith))
  ]
]

-- What the others count, as a part of the whole.
widen :
    (r : Bool × ℕ) (depth nodes hx wx hs w : ℕ)
    → suc depth + hx ≤ max_depth
    → Counts r (depth + hs) (nodes + wx) w
    → Counts r (depth + max (1 + hx) hs) nodes (wx + w)
widen r depth nodes hx wx hs w fits (inl (e, a, b)) =
    inl (e ∙ ap (λ m. (true, m)) regroup, omega arith, omega arith)
  where
    regroup : nodes + wx + w ≡ nodes + (wx + w)
    regroup = omega arith
widen r depth nodes hx wx hs w fits (inr (e, inl a)) = inr (e, inl (omega arith))
widen r depth nodes hx wx hs w fits (inr (e, inr b)) = inr (e, inr (omega arith))

-- One item, and then the others.
step :
    (item : Bool × ℕ) (rest : ℕ → Bool × ℕ) (depth nodes hx wx hs w : ℕ)
    → Counts item (suc depth + hx) nodes wx
    → (nodes + wx ≤ max_nodes → Counts (rest (nodes + wx)) (depth + hs) (nodes + wx) w)
    → Counts (if item.0 then rest item.1 else item) (depth + max (1 + hx) hs) nodes (wx + w)
step item rest depth nodes hx wx hs w (inl (e, a, b)) k =
    subst (λ y. Counts (if y.0 then rest y.1 else y) (depth + max (1 + hx) hs) nodes (wx + w))
      (sym e) (widen (rest (nodes + wx)) depth nodes hx wx hs w a (k b))
step item rest depth nodes hx wx hs w (inr (e, inl a)) k =
    inr (ground (arith, e), inl (omega arith))
step item rest depth nodes hx wx hs w (inr (e, inr b)) k =
    inr (ground (arith, e), inr (omega arith))

mutual
  unfolding eval_tree_within_budget height weight

  tree-Counts :
      (x : Tree) (depth nodes : ℕ)
      → nodes ≤ max_nodes
      → Counts (eval_tree_within_budget x depth nodes) (depth + height x) nodes (weight x)
  tree-Counts (cells l) depth nodes n = enter _ depth nodes (heights l) (cell_weight l) n (λ d m.
      rw (next-suc depth (omega arith), next-suc nodes (omega arith))
        (cells-Counts l depth (suc nodes) d m))
  tree-Counts (vector l) depth nodes n =
      enter _ depth nodes (heights l) (element_weight l) n (λ d m.
        rw (next-suc depth (omega arith), next-suc nodes (omega arith))
          (elements-Counts l depth (suc nodes) d m))
  tree-Counts other depth nodes n =
      enter _ depth nodes 0 0 n
        (λ d m. inl (ap (λ k. (true, k)) (omega arith), omega arith, omega arith))

  cells-Counts :
      (l : Trees) (depth nodes : ℕ)
      → depth ≤ max_depth
      → nodes ≤ max_nodes
      → Counts (walk_cells l (suc depth) nodes) (depth + heights l) nodes (cell_weight l)
  cells-Counts nil depth nodes d n =
      inl (ap (λ k. (true, k)) (omega arith), omega arith, omega arith)
  cells-Counts (cons x l) depth nodes d n =
      cell _ (depth + max (1 + height x) (heights l)) nodes (weight x + cell_weight l) n (λ m.
        rw (next-suc nodes (omega arith)) (
          step (eval_tree_within_budget x (suc depth) (suc nodes)) (walk_cells l (suc depth)) depth
            (suc nodes) (height x) (weight x) (heights l) (cell_weight l)
            (tree-Counts x (suc depth) (suc nodes) m)
            (λ k. cells-Counts l depth (suc nodes + weight x) d k)))

  elements-Counts :
      (l : Trees) (depth nodes : ℕ)
      → depth ≤ max_depth
      → nodes ≤ max_nodes
      → Counts (walk_elements l (suc depth) nodes) (depth + heights l) nodes (element_weight l)
  elements-Counts nil depth nodes d n =
      inl (ap (λ k. (true, k)) (omega arith), omega arith, omega arith)
  elements-Counts (cons x l) depth nodes d n =
      step (eval_tree_within_budget x (suc depth) nodes) (walk_elements l (suc depth)) depth nodes
        (height x) (weight x) (heights l) (element_weight l) (tree-Counts x (suc depth) nodes n)
        (λ k. elements-Counts l depth (nodes + weight x) d k)

-- A parse tree is accepted exactly when it nests at most 64 deep and has at most 1024 nodes, cells of
-- calls included. The walk stops at the first node past either bound.
pub eval_tree_within_budget-height :
    (x : Tree)
    → ((eval_tree_within_budget x 0 0).0 ≡ true) ↔ ((height x ≤ max_depth) × (weight x ≤ max_nodes))
eval_tree_within_budget-height x = elim (tree-Counts x 0 0 (omega arith)) [
  | inl (e, a, b) ↦ (λ h. (omega arith, omega arith), λ h. ap (λ r. r.0) e)
  | inr (e, inl a) ↦ (λ h. cc, λ h. absurd (omega arith))
  | inr (e, inr b) ↦ (λ h. cc, λ h. absurd (omega arith))
]
