-- ===== src/PrComment.antt =====
-- tools/graphify_pr_comment.py: the comment that lists the graph's nodes of the changed files. The files
-- are inputs, and the lines of the comment are values; their markup is left out.
pub mod Links
use load_balancer.Prelude.{
  ℕ, zero, suc, ◌+◌, ◌*◌, Bool, true, false, ◌&&◌, List, [], ◌∷◌, ◌++◌, map, Option, none, some,
  length, take, ◌==◌, if◌then◌else◌, refl, inl, inr,
}
use load_balancer.Decimal.{decimal}
use load_balancer.Text.{Unicode, is_empty, or_else, same_text, contains}
use load_balancer.GraphQuery.{occurs}

pub record Node : Type 0 where
  pub label : List ℕ
  pub id : List ℕ
  pub source_file : List ℕ
  pub source_location : List ℕ

-- A line of the comment that depends on the input.
pub data Line : Type 0 where
  changed_files : ℕ → Line
  graph_nodes : ℕ → Line
  heading : List ℕ → ℕ → Line
  node_link : List ℕ → List ℕ → List ℕ → Line
  no_changes : Line
  no_graph : Line

module _ (u : Unicode) where
  -- The number that the digits at the front spell behind `n`.
  pub digits_value : ℕ → List ℕ → ℕ
  digits_value n [] = n
  digits_value n (c ∷ cs) = elim (u.digit_value c) [
    | none ↦ n
    | some v ↦ digits_value (n * 10 + v) cs
  ]

  -- `\d+` at the front, by its value.
  unfoldable pub digits_at : List ℕ → Option ℕ
  unfolding digits_value
  digits_at [] = none
  digits_at (c ∷ cs) = elim (u.digit_value c) [ none ↦ none | some v ↦ some (digits_value v cs) ]

  -- `re.search(r"L(\d+)", loc)`: the first place where it fits.
  unfoldable pub search_line : List ℕ → Option ℕ
  unfolding digits_at
  search_line [] = none
  search_line (c ∷ cs) =
      let rest = search_line cs in
      if c == b'L' then (elim (digits_at cs) [ none ↦ rest | some n ↦ some n ]) else rest

  abbrev pub or_one : Option ℕ → ℕ
  or_one none = 1
  or_one (some n) = n

  -- `extract_line`
  unfoldable pub extract_line : List ℕ → ℕ
  unfolding search_line
  extract_line loc = if is_empty loc then 1 else or_one (search_line loc)

  -- `sf.endswith(cf) or cf in sf`; the former is a case of the latter.
  abbrev pub belongs : List ℕ → Node → Bool
  belongs cf n = if is_empty cf then false else occurs cf n.source_file

  -- The node once for each time that the file stands among the changed ones.
  unfoldable pub copies : List ℕ → Node → List (List ℕ) → List Node
  unfolding same_text
  copies cf n [] = []
  copies cf n (c ∷ changed) =
      let rest = copies cf n changed in
      if same_text c cf then (if belongs c n then n ∷ rest else rest) else rest

  -- `file_nodes.get(cf, [])`
  unfoldable pub file_nodes : List (List ℕ) → List Node → List ℕ → List Node
  unfolding copies
  file_nodes changed [] cf = []
  file_nodes changed (n ∷ nodes) cf = copies cf n changed ++ file_nodes changed nodes cf

  -- `sum(len(v) for v in file_nodes.values())`: each file once.
  unfoldable pub total_nodes : List (List ℕ) → List Node → List (List ℕ) → List (List ℕ) → ℕ
  unfolding contains
  total_nodes changed nodes seen [] = 0
  total_nodes changed nodes seen (cf ∷ files) =
      (if contains cf seen then 0 else length (file_nodes changed nodes cf))
      + total_nodes changed nodes (cf ∷ seen) files

  -- `{sf}#L{line_no}`
  abbrev pub link_of : List ℕ → ℕ → List ℕ
  link_of sf line_no = sf ++ b'#' ∷ b'L' ∷ decimal line_no

  abbrev pub unknown : List ℕ
  unknown = b'<' ∷ b'u' ∷ b'n' ∷ b'k' ∷ b'n' ∷ b'o' ∷ b'w' ∷ b'n' ∷ b'>' ∷ []

  unfoldable pub node_line : List ℕ → Node → Line
  unfolding extract_line
  node_line cf n =
      let sf = or_else n.source_file cf in
      node_link (or_else (or_else n.label n.id) unknown) sf
        (link_of sf (extract_line n.source_location))

  unfoldable pub file_lines : ℕ → List (List ℕ) → List Node → List (List ℕ) → List Line
  unfolding file_nodes node_line
  file_lines limit changed nodes [] = []
  file_lines limit changed nodes (cf ∷ files) =
      let ln = file_nodes changed nodes cf in
      heading cf (length ln)
      ∷ (map (node_line cf) (take limit ln) ++ file_lines limit changed nodes files)

  -- `main`: the lines, and the exit code. The graph is not there, or has its nodes.
  unfoldable pub main : ℕ → List (List ℕ) → Option (List Node) → List Line × ℕ
  unfolding total_nodes file_lines
  main limit [] graph = (no_changes ∷ [], 0)
  main limit (cf ∷ files) none = (no_graph ∷ [], 1)
  main limit (cf ∷ files) (some nodes) =
      let changed = cf ∷ files in
      (
        changed_files (length changed)
            ∷ graph_nodes (total_nodes changed nodes [] changed)
            ∷ file_lines limit changed nodes changed,
        0,
      )
