-- ===== src/GraphBench.antt =====
-- tools/graphify_bench.py: the comparison of the tokens that a search by grep reads with those that the
-- graph leads to. The files and the words of a query are inputs; texts are code points in lower case
-- where the script lowers them, and what it prints is left out.
pub mod Once
use load_balancer.Prelude.{
  ℕ, zero, suc, ◌+◌, ◌-◌, ◌*◌, ◌/◌, Bool, true, false, List, [], ◌∷◌, ◌++◌, map, Option, none, some,
  length, take, drop, max, min, ltb, leb, ◌==◌, if◌then◌else◌, refl, inl, inr,
}
use load_balancer.Prelude.Sort.{sort}
use load_balancer.Double.{Double, float, ◌⊖◌, ◌⊗◌, ◌⊘◌, fsum}
use load_balancer.Text.{Unicode, is_empty, contains}
use load_balancer.GraphQuery.{count_from}
use load_balancer.PrComment.{extract_line}

pub record Node : Type 0 where
  pub label : List ℕ
  pub source_file : List ℕ
  pub id : List ℕ
  -- `source_location` or `loc`
  pub location : List ℕ

-- A file by its path and its text, if it can be read.
pub record File : Type 0 where
  pub path : List ℕ
  pub text : Option (List ℕ)

-- `max(1, int(len(text) / 4))`, by the length.
abbrev pub approx_tokens : ℕ → ℕ
approx_tokens n = max 1 (n / 4)

-- `sum(txt.count(t) for t in tokens)`
unfoldable pub grep_score : List (List ℕ) → List ℕ → ℕ
unfolding count_from
grep_score [] text = 0
grep_score (t ∷ tokens) text = count_from t 0 text + grep_score tokens text

-- The files with a score above 0, with the lengths of their texts.
unfoldable pub matches_of : List (List ℕ) → List File → List (ℕ × ℕ)
unfolding grep_score
matches_of tokens [] = []
matches_of tokens (f ∷ files) =
    let rest = matches_of tokens files in
    elim f.text [
      | none ↦ rest
      | some text ↦
          if ltb 0 (grep_score tokens text)
          then (grep_score tokens text, length text) ∷ rest
          else rest
    ]

-- The best first; those of one score stay in their order.
abbrev pub by_score : {A : Type 0} → List (ℕ × A) → List (ℕ × A)
by_score {A = A} matches = sort (λ (a b : ℕ × A). leb b.0 a.0) matches

unfoldable pub find_grep_matches : List (List ℕ) → List File → ℕ → List (ℕ × ℕ)
unfolding matches_of sort
find_grep_matches tokens files limit = take limit (by_score (matches_of tokens files))

unfoldable pub token_sum : List (ℕ × ℕ) → ℕ
token_sum [] = 0
token_sum ((s, size) ∷ matches) = approx_tokens size + token_sum matches

-- The tokens with 150 for the prompt, and the number of files.
unfoldable pub baseline_token_estimate : List (ℕ × ℕ) → ℕ × ℕ
unfolding token_sum
baseline_token_estimate matches = (token_sum matches + 150, length matches)

unfoldable pub score_node : (List ℕ → List ℕ) → Node → List (List ℕ) → ℕ
unfolding count_from
score_node lower node [] = 0
score_node lower node (t ∷ tokens) =
    4 * count_from t 0 (lower node.label)
    + 2 * count_from t 0 (lower node.source_file)
    + count_from t 0 (lower node.id)
    + score_node lower node tokens

unfoldable pub scored_nodes : (List ℕ → List ℕ) → List (List ℕ) → List Node → List (ℕ × Node)
unfolding score_node
scored_nodes lower tokens [] = []
scored_nodes lower tokens (node ∷ nodes) =
    let rest = scored_nodes lower tokens nodes in
    let s = score_node lower node tokens in if ltb 0 s then (s, node) ∷ rest else rest

-- `total`, `files_seen` and `read_snippets`
pub record Estimate : Type 0 where
  pub total : ℕ
  pub files_seen : List (List ℕ)
  pub read_snippets : ℕ

-- The length of the lines put together.
unfoldable pub size_of : List (List ℕ) → ℕ
size_of [] = 0
size_of (line ∷ lines) = length line + size_of lines

module _ (u : Unicode) where
  -- The tokens of the lines around the place of the node.
  unfoldable pub snippet_tokens : Node → List (List ℕ) → ℕ
  unfolding size_of extract_line
  snippet_tokens node lines =
      let line_no = extract_line u node.location in
      let first = line_no - 5 in
      let last = min (length lines) (line_no + 4) in
      approx_tokens (size_of (drop first (take last lines)))

  -- Each file counts only once.
  unfoldable pub count_file : Node → List (List ℕ) → Estimate → Estimate
  unfolding contains snippet_tokens
  count_file node lines e = if contains node.source_file e.files_seen then e else record {
    total = e.total + snippet_tokens node lines;
    files_seen = node.source_file ∷ e.files_seen;
    read_snippets = e.read_snippets + 1;
  }

  -- A node whose file has no name or cannot be read is skipped; `read` gives the lines of a file.
  unfoldable pub visit : (List ℕ → Option (List (List ℕ))) → Node → Estimate → Estimate
  unfolding count_file
  visit read node e =
      if is_empty node.source_file
      then e
      else elim (read node.source_file) [ none ↦ e | some lines ↦ count_file node lines e ]

  unfoldable pub visit_all :
      (List ℕ → Option (List (List ℕ))) → List (ℕ × Node) → Estimate → Estimate
  unfolding visit
  visit_all read [] e = e
  visit_all read ((s, node) ∷ nodes) e = visit_all read nodes (visit read node e)

  -- What comes of the nodes with a score; 200 tokens if there is none, else 60 for the query itself.
  unfoldable pub estimate_of : (List ℕ → Option (List (List ℕ))) → ℕ → List (ℕ × Node) → ℕ × ℕ
  unfolding visit_all sort
  estimate_of read limit [] = (200, 0)
  estimate_of read limit (x ∷ scored) =
      let e =
        visit_all read (take limit (by_score (x ∷ scored)))
          (record { total = 0; files_seen = []; read_snippets = 0 }) in
      (e.total + 60, e.read_snippets)

  unfoldable pub graph_targeted_estimate :
      (List ℕ → List ℕ) → (List ℕ → Option (List (List ℕ))) → List (List ℕ) → List Node → ℕ → ℕ × ℕ
  unfolding scored_nodes estimate_of
  graph_targeted_estimate lower read tokens nodes limit =
      estimate_of read limit (scored_nodes lower tokens nodes)

  pub record Result (F : Type 0) : Type 0 where
    pub baseline_tokens : ℕ
    pub graph_tokens : ℕ
    pub savings : F

  module _ {F : Type 0} ⦃d : Double F⦄ where
    -- `100.0 * (baseline_tokens - graph_tokens) / baseline_tokens`
    abbrev pub savings_of : ℕ → ℕ → F
    savings_of baseline graph =
        if ltb 0 baseline
        then float 100 ⊗ (float baseline ⊖ float graph) ⊘ float baseline
        else float 0

    module _ (lower : List ℕ → List ℕ) (read : List ℕ → Option (List (List ℕ))) (files : List File)
        (nodes : List Node) (limit : ℕ) where
      unfoldable pub result_of : List (List ℕ) → Result F
      unfolding find_grep_matches baseline_token_estimate graph_targeted_estimate
      result_of tokens =
          let (baseline, _) = baseline_token_estimate (find_grep_matches tokens files limit) in
          let (graph, _) = graph_targeted_estimate lower read tokens nodes limit in
          record {
            baseline_tokens = baseline;
            graph_tokens = graph;
            savings = savings_of baseline graph;
          }

      unfoldable pub results_of : List (List (List ℕ)) → List (Result F)
      unfolding result_of
      results_of [] = []
      results_of (tokens ∷ queries) = result_of tokens ∷ results_of queries

      -- `sum(r[3] for r in results) / max(1, len(results))`
      abbrev pub average_of : List (Result F) → F
      average_of results =
          fsum (map (λ (r : Result F). r.savings) results) ⊘ float (max 1 (length results))

      -- `run_bench`: the exit code, and the results with the average if there are nodes.
      unfoldable pub run_bench : List (List (List ℕ)) → ℕ × Option (List (Result F) × F)
      unfolding results_of
      run_bench queries =
          let results = results_of queries in
          if length nodes == 0 then (2, none) else (0, some (results, average_of results))

      -- `main`: a file of queries that is not there is an error.
      unfoldable pub main : Option (List (List (List ℕ))) → ℕ × Option (List (Result F) × F)
      unfolding run_bench
      main none = (2, none)
      main (some queries) = run_bench queries
