-- ===== src/GraphBench/Once.antt =====
-- Each file that the graph leads to is read once.
use load_balancer.Prelude.{
  ℕ, suc, ◌+◌, ◌≤◌, ◌≡◌, refl, true, false, Bool-cases, inl, inr, List, [], ◌∷◌, Option, some,
  length, length-take, take, arith, ==_iff, Option-cases,
}
use load_balancer.Prelude.All.{All}
use load_balancer.Text.{Unicode, is_empty, same_text, contains}
use load_balancer.GraphBench.{
  Node, Estimate, by_score, count_file, visit, visit_all, estimate_of, scored_nodes,
  graph_targeted_estimate,
}

same_text_refl : (s : List ℕ) → same_text s s ≡ true
unfolding same_text
same_text_refl [] = refl
same_text_refl (c ∷ s) = rw ((==_iff c c).1 refl) (same_text_refl s)

contains_here : (s : List ℕ) (texts : List (List ℕ)) → contains s (s ∷ texts) ≡ true
unfolding contains
contains_here s texts = rw (same_text_refl s) refl

contains_there :
    (s t : List ℕ) (texts : List (List ℕ)) → contains s texts ≡ true → contains s (t ∷ texts) ≡ true
unfolding contains
contains_there s t texts h = elim (Bool-cases (same_text t s)) [
  | inl e ↦ rw e refl
  | inr e ↦ rw e h
]

-- No text stands in the list twice.
pub IsOnce : List (List ℕ) → Type 0
IsOnce [] = Unit
IsOnce (t ∷ texts) = (contains t texts ≡ false) × IsOnce texts

module _ (u : Unicode) (read : List ℕ → Option (List (List ℕ))) where
  -- A file with a name, that can be read.
  abbrev pub IsReadable : List ℕ → Type 0
  IsReadable file = (lines : List (List ℕ)) × (is_empty file ≡ false) × (read file ≡ some lines)

  abbrev pub IsSeen : List (List ℕ) → ℕ × Node → Type 0
  IsSeen seen (s, node) = IsReadable node.source_file → contains node.source_file seen ≡ true

  -- What has been read after `k` nodes.
  record IsTally (k : ℕ) (e : Estimate) : Type 0 where
    once : IsOnce e.files_seen
    readable : All IsReadable e.files_seen
    counted : e.read_snippets ≡ length e.files_seen
    enough : e.read_snippets ≤ e.total
    few : e.read_snippets ≤ k

  -- A node more: the tally stays, what was seen is seen, and so is the node's file.
  abbrev Keeps : ℕ → ℕ × Node → Estimate → Estimate → Type 0
  Keeps k x e e' =
      IsTally (suc k) e'
      × IsSeen e'.files_seen x
      × ((f : List ℕ) → contains f e.files_seen ≡ true → contains f e'.files_seen ≡ true)

  more : (k : ℕ) (e : Estimate) → IsTally k e → IsTally (suc k) e
  more k e t = record {
    once = t.once;
    readable = t.readable;
    counted = t.counted;
    enough = t.enough;
    few = omega (arith, t.few);
  }

  count_file-Keeps :
      (k s : ℕ) (node : Node) (lines : List (List ℕ)) (e : Estimate)
      → IsTally k e
      → IsReadable node.source_file
      → Keeps k (s, node) e (count_file u node lines e)
  unfolding count_file IsOnce
  count_file-Keeps k s node lines e t r =
      elim (Bool-cases (contains node.source_file e.files_seen)) [
        | inl old ↦ rw old (more k e t, (λ _. old), (λ f h. h))
        | inr new ↦ rw new (
          record {
            once = (new, t.once);
            readable = (r, t.readable);
            counted = omega (arith, t.counted);
            enough = omega (arith, t.enough);
            few = omega (arith, t.few);
          },
          (λ _. contains_here node.source_file e.files_seen),
          (λ f h. contains_there f node.source_file e.files_seen h),
        )
      ]

  visit-Keeps :
      (k s : ℕ) (node : Node) (e : Estimate)
      → IsTally k e
      → Keeps k (s, node) e (visit u read node e)
  unfolding visit
  visit-Keeps k s node e t = elim (Bool-cases (is_empty node.source_file)) [
    | inl no_name ↦ rw no_name (more k e t, (λ r. cc), (λ f h. h))
    | inr name ↦ rw name (elim (Option-cases (read node.source_file)) [
      | inl none_there ↦ rw none_there (more k e t, (λ r. cc), (λ f h. h))
      | inr (lines, there) ↦ rw there (
          let (t', seen, keeps) = count_file-Keeps k s node lines e t (lines, name, there) in
          (t', (λ r. seen (lines, name, there)), keeps))
    ])
  ]

  visit_all-Keeps :
      (k : ℕ) (nodes : List (ℕ × Node)) (e : Estimate)
      → IsTally k e
      → IsTally (length nodes + k) (visit_all u read nodes e)
        × All (IsSeen (visit_all u read nodes e).files_seen) nodes
        × ((f : List ℕ)
            → contains f e.files_seen ≡ true
            → contains f (visit_all u read nodes e).files_seen ≡ true)
  unfolding visit_all
  visit_all-Keeps k [] e t = ((let same : 0 + k ≡ k = omega arith in rw same t), tt, (λ f h. h))
  visit_all-Keeps k ((s, node) ∷ nodes) e t =
      let (t1, seen, keeps) = visit-Keeps k s node e t in
      let (t2, all, stays) = visit_all-Keeps (suc k) nodes (visit u read node e) t1 in
      let same : length nodes + suc k ≡ suc (length nodes) + k = omega arith in
      (rw (← same) t2, ((λ r. stays node.source_file (seen r)), all), (λ f h. stays f (keeps f h)))

  -- What an estimate says of the nodes that are looked at.
  pub record IsEstimate (limit : ℕ) (top : List (ℕ × Node)) (out : ℕ × ℕ) : Type 0 where
    pub files : List (List ℕ)
    pub files_once : IsOnce files
    pub files_readable : All IsReadable files
    pub all_seen : All (IsSeen files) top
    pub snippets : out.1 ≡ length files
    pub within : out.1 ≤ limit
    pub enough_tokens : out.1 + 60 ≤ out.0

  nothing_seen : IsTally 0 (record { total = 0; files_seen = []; read_snippets = 0 })
  unfolding IsOnce
  nothing_seen = record {
    once = tt;
    readable = tt;
    counted = refl;
    enough = omega arith;
    few = omega arith;
  }

  estimate_of-IsEstimate :
      (limit : ℕ) (x : ℕ × Node) (scored : List (ℕ × Node))
      → IsEstimate limit
          (take limit (by_score (x ∷ scored)))
          (estimate_of u read limit (x ∷ scored))
  unfolding estimate_of
  estimate_of-IsEstimate limit x scored =
      let top = take limit (by_score (x ∷ scored)) in
      let start : Estimate = record { total = 0; files_seen = []; read_snippets = 0 } in
      let (t, all, _) = visit_all-Keeps 0 top start nothing_seen in
      record {
        files = (visit_all u read top start).files_seen;
        files_once = t.once;
        files_readable = t.readable;
        all_seen = all;
        snippets = t.counted;
        within = omega (arith, t.few, length-take limit (by_score (x ∷ scored)));
        enough_tokens = omega (arith, t.enough);
      }

  -- If some node has a score: the files read by the estimate are different ones that can be read, all of
  -- those that the best nodes name are among them, as many snippets are counted as files, no more than the
  -- limit, and at least a token for each beside the 60 of the query.
  pub graph_targeted_estimate-IsEstimate :
      (lower : List ℕ → List ℕ) (tokens : List (List ℕ)) (nodes : List Node) (limit : ℕ)
      → 1 ≤ length (scored_nodes lower tokens nodes)
      → IsEstimate limit
          (take limit (by_score (scored_nodes lower tokens nodes)))
          (graph_targeted_estimate u lower read tokens nodes limit)
  unfolding graph_targeted_estimate
  graph_targeted_estimate-IsEstimate lower tokens nodes limit h =
      go (scored_nodes lower tokens nodes) h
    where
      go :
          (scored : List (ℕ × Node))
          → 1 ≤ length scored
          → IsEstimate limit (take limit (by_score scored)) (estimate_of u read limit scored)
      go [] none_left = absurd (omega arith)
      go (x ∷ scored) some_left = estimate_of-IsEstimate limit x scored
