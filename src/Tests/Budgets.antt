-- ===== src/Tests/Budgets.antt =====
-- The bounds of the eval target at concrete inputs.
use r_oss_fuzz.Base.{true, false, some, List, [], ◌∷◌, Bytes, All, ◌-◌, ◌≤◌, ◌≡◌, ◌↔◌, arith}
use r_oss_fuzz.Eval.Tree.{
  Tree, cells, other, nil, cons, max_depth, max_nodes, eval_tree_within_budget,
}
use r_oss_fuzz.Eval.Tree.Laws.{eval_tree_within_budget-height, height, weight}
use r_oss_fuzz.Eval.Budget.{Rhost, Event, parsed, declined, finished, run}
use r_oss_fuzz.Eval.Budget.Laws.{polls-CutOff, CutOff, run-Within, Within, Spends}
use r_oss_fuzz.Eval.Utf8.Encoding.{IsByte}

-- 1+x
abbrev sum_tree : Tree
sum_tree = cells (cons other (cons other (cons other nil)))

eval_tree_within_budget-height_example :
    ((eval_tree_within_budget sum_tree 0 0).0 ≡ true)
    ↔ ((height sum_tree ≤ max_depth) × (weight sum_tree ≤ max_nodes))
eval_tree_within_budget-height_example = eval_tree_within_budget-height sum_tree

polls-CutOff_example : CutOff (false ∷ false ∷ true ∷ []) 2
polls-CutOff_example = polls-CutOff (false ∷ false ∷ true ∷ []) 2 (omega arith)

-- One expression, which polls once when it is evaluated.
abbrev one_poll : Rhost
one_poll = record {
  Code = Tree;
  parse = λ s. parsed (cons sum_tree nil);
  new_env = λ s. true;
  source = λ x. x;
  compile = λ b x. (b, declined);
  evaluate = λ b c. (b - 1, finished);
}

one_poll-Spends : Spends one_poll
one_poll-Spends b c = omega arith

abbrev sum_text : Bytes
sum_text = b'1' ∷ b'+' ∷ b'x' ∷ []

sum_text-IsByte : All IsByte sum_text
sum_text-IsByte = (omega arith, (omega arith, (omega arith, tt)))

run-Within_example :
    (events : List (Event one_poll)) × (run one_poll sum_text 0 ≡ some (events, 0))
    × All (Within one_poll) events
run-Within_example = run-Within one_poll one_poll-Spends sum_text sum_text-IsByte
