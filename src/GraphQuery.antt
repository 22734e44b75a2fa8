-- ===== src/GraphQuery.antt =====
-- tools/graphify_query.py: the search that is used where Graphify's own command is not there, and the
-- exit codes of the script. Texts are lists of code points; `lower` is `str.lower`, and the words of a
-- question are an input.
use load_balancer.Prelude.Sort.{sort}
use load_balancer.Prelude.{
  true, false, some, none, [], ◌∷◌, zero, suc, ℕ, List, Option, Bool, if◌then◌else◌, length, ◌+◌,
  ◌==◌, ◌-◌, ltb, ◌*◌, take, ◌||◌, ◌&&◌, leb,
}
use load_balancer.Prelude.Int.{ℤ, pos, negsuc}

pub record Node : Type 0 where
  pub label : List ℕ
  pub source_file : List ℕ
  pub id : List ℕ

pub data Command : Type 0 where
  query path explain : Command

-- What `subprocess.run` comes to: a return code, or an exception.
pub data Ran : Type 0 where
  returned : ℕ → Ran
  raised : Ran

unfoldable pub is_prefix : List ℕ → List ℕ → Bool
is_prefix [] text = true
is_prefix (c ∷ cs) [] = false
is_prefix (c ∷ cs) (d ∷ text) = c == d && is_prefix cs text

-- `t in text`
pub occurs : List ℕ → List ℕ → Bool
unfolding is_prefix
occurs t [] = is_prefix t []
occurs t (c ∷ text) = is_prefix t (c ∷ text) || occurs t text

-- `text.count(t)` for a word that is not empty: after an occurrence, its letters are skipped.
unfoldable pub count_from : List ℕ → ℕ → List ℕ → ℕ
unfolding is_prefix
count_from t skip [] = 0
count_from t (suc skip) (c ∷ text) = count_from t skip text
count_from t zero (c ∷ text) =
    let after = count_from t (length t - 1) text in
    let next = count_from t 0 text in if is_prefix t (c ∷ text) then 1 + after else next

-- What one field adds to the score for one word.
unfoldable pub field_score : ℕ → List ℕ → List ℕ → ℕ
unfolding occurs count_from
field_score weight t text = if occurs t text then weight * count_from t 0 text else 0

unfoldable pub score_node : (List ℕ → List ℕ) → Node → List (List ℕ) → ℕ
unfolding field_score
score_node lower node [] = 0
score_node lower node (t ∷ tokens) =
    field_score 4 t (lower node.label)
    + field_score 2 t (lower node.source_file)
    + field_score 1 t (lower node.id)
    + score_node lower node tokens

-- The nodes with a score above 0, in their order.
unfoldable pub scored_nodes : (List ℕ → List ℕ) → List (List ℕ) → List Node → List (ℕ × Node)
unfolding score_node
scored_nodes lower tokens [] = []
scored_nodes lower tokens (node ∷ nodes) =
    let rest = scored_nodes lower tokens nodes in
    let s = score_node lower node tokens in if ltb 0 s then (s, node) ∷ rest else rest

-- The nodes whose label or file has the question in it, each with the score 1.
unfoldable pub substring_nodes : (List ℕ → List ℕ) → List ℕ → List Node → List (ℕ × Node)
unfolding occurs
substring_nodes lower q [] = []
substring_nodes lower q (node ∷ nodes) =
    let rest = substring_nodes lower q nodes in
    if occurs (lower q) (lower node.label) || occurs (lower q) (lower node.source_file)
    then (1, node) ∷ rest
    else rest

-- `max(1, args.limit or 10)`
abbrev pub limit_of : Option ℤ → ℕ
limit_of none = 10
limit_of (some (pos zero)) = 10
limit_of (some (pos (suc n))) = suc n
limit_of (some (negsuc n)) = 1

-- What is printed: the best nodes first, and those of one score in their order.
unfoldable pub found :
    (List ℕ → List ℕ) → List (List ℕ) → List ℕ → Option ℤ → List Node → List (ℕ × Node)
unfolding scored_nodes substring_nodes sort
found lower tokens q limit nodes =
    let scored = scored_nodes lower tokens nodes in
    let matching : List (ℕ × Node) = elim scored [
      | [] ↦ substring_nodes lower q nodes
      | x ∷ xs ↦ x ∷ xs
    ] in
    take (limit_of limit) (sort (λ (a b : ℕ × Node). leb b.0 a.0) matching)

-- `fallback_query`: the exit code and what is printed, by the nodes of the graph if there is one.
unfoldable pub fallback_query :
    (List ℕ → List ℕ) → List (List ℕ) → List ℕ → Option ℤ → Option (List Node) → ℕ × List (ℕ × Node)
unfolding found
fallback_query lower tokens q limit none = (5, [])
fallback_query lower tokens q limit (some nodes) =
    let printed = found lower tokens q limit nodes in
    (if length printed == 0 then 6 else 0, printed)

-- `run_graphify_cli`, by what the command comes to if it is there.
unfoldable pub run_graphify_cli : Option Ran → ℕ
run_graphify_cli none = 2
run_graphify_cli (some (returned code)) = code
run_graphify_cli (some raised) = 4

-- `main`: the exit code, where `fallback` is what `fallback_query` gives.
unfoldable pub main_code : Option Command → Option Ran → ℕ → ℕ
unfolding run_graphify_cli
main_code none ran fallback = 1
main_code (some command) ran fallback =
    if run_graphify_cli ran == 0
    then 0
    else elim command [ query ↦ fallback | path ↦ 7 | explain ↦ 7 ]
