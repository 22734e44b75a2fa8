-- ===== src/Metrics/Tick.antt =====
-- demo/metrics_store.py, `_prune` and `_aggregate_tick`.
use load_balancer.Prelude.{
  [], ◌∷◌, zero, suc, ℕ, List, map, ◌++◌, if◌then◌else◌, Bool, drop, length, get_or, ltb, ◌-◌, ◌+◌,
}
use load_balancer.Double.{Double, ◌⊗◌, ◌⊖◌, float, fsum, literal, ◌⊕◌, ◌≺◌, ◌⊘◌, fmin}
use load_balancer.Metrics.{Metrics, Bool}
use load_balancer.Prelude.All.{select}

pub record Sample (F : Type 0) : Type 0 where
  pub lat : F
  pub load : F
  pub err : F
  pub rps : F

module _ {F : Type 0} ⦃d : Double F⦄ where
  -- `_prune(window, cutoff)`
  unfoldable pub prune : F → List (F × F) → List (F × F)
  prune cutoff = select (λ (e : F × F). cutoff ≺ e.0)

  -- `[ts for ts in win if ts > cutoff]`
  unfoldable pub prune_times : F → List F → List F
  prune_times cutoff = select (λ (t : F). cutoff ≺ t)

  -- `float(np.mean(xs)) if xs else 0.0`
  unfoldable pub mean_or_zero : List F → F
  mean_or_zero [] = float 0
  mean_or_zero (x ∷ xs) = fsum (x ∷ xs) ⊘ float (length (x ∷ xs))

  -- The values of a window that are newer than the cutoff.
  unfoldable pub recent : F → List (F × F) → List F
  unfolding prune
  recent cutoff w = map (λ (e : F × F). e.1) (prune cutoff w)

  -- What the loop computes of one backend from its pruned windows.
  unfoldable pub sample : F → List (F × F) → List (F × F) → List F → ℕ → F → Sample F
  unfolding mean_or_zero recent
  sample now lat_win err_win req_win active rate_limit =
      let cutoff = now ⊖ float 2 in
      let rps = float (length req_win) ⊘ float 2 in
      record {
        lat = mean_or_zero (recent cutoff lat_win);
        load = fmin (float 1) ((float active ⊕ rps ⊘ float 50) ⊘ (rate_limit ⊘ float 50));
        err = mean_or_zero (recent cutoff err_win);
        rps = rps;
      }

  unfoldable pub pruned : F → Metrics F → Metrics F
  unfolding prune prune_times
  pruned now m = record m {
    lat_win = map (prune (now ⊖ float 10)) m.lat_win;
    err_win = map (prune (now ⊖ float 10)) m.err_win;
    req_win = map (prune_times (now ⊖ float 2)) m.req_win;
  }

  unfoldable pub sample_of : F → Metrics F → ℕ → Sample F
  unfolding sample
  sample_of now m i =
      sample now (get_or m.lat_win i []) (get_or m.err_win i []) (get_or m.req_win i [])
        (get_or m.active i 0) (get_or m.rate_limits i (float 0))

  -- The samples of the backends of `range(k)`.
  unfoldable pub samples : F → Metrics F → ℕ → List (Sample F)
  unfolding sample_of
  samples now m zero = []
  samples now m (suc i) = samples now m i ++ sample_of now m i ∷ []

  -- `np.roll(xs, -1)` with the last place then set to `x`.
  unfoldable pub shift : F → List F → List F
  shift x [] = []
  shift x (y ∷ ys) = ys ++ x ∷ []

  unfoldable pub shift_rows : List F → List (List F) → List (List F)
  unfolding shift
  shift_rows (x ∷ xs) (row ∷ rows) = shift x row ∷ shift_rows xs rows
  shift_rows _ rows = rows

  -- `hist[:, -k:]`
  abbrev pub last_columns : ℕ → List (List F) → List (List F)
  last_columns k = map (λ row. drop (length row - k) row)

  -- `hist[:, -1]`
  unfoldable pub last_column : List (List F) → List F
  last_column = map (λ row. get_or row (length row - 1) (float 0))

  -- `hist.mean(axis=0)` over `k` columns.
  unfoldable pub column_means : ℕ → List (List F) → List F
  column_means zero rows = []
  column_means (suc j) rows =
      column_means j rows
      ++ fsum (map (λ row. get_or row j (float 0)) rows) ⊘ float (length rows) ∷ []

  -- `np.arange(10, dtype=float) - 4.5`
  abbrev pub offsets : ℕ → List F
  offsets zero = []
  offsets (suc j) = offsets j ++ (float j ⊖ literal 45 10) ∷ []

  unfoldable pub dot : List F → List F → F
  dot (x ∷ xs) (y ∷ ys) = x ⊗ y ⊕ dot xs ys
  dot _ _ = float 0

  -- The slope of the mean load over the last ten ticks.
  unfoldable pub slope : List (List F) → F
  unfolding column_means dot
  slope load_hist =
      let mean_load = column_means 10 (last_columns 10 load_hist) in
      let xs = offsets 10 in
      let denom = dot xs xs in if float 0 ≺ denom then dot xs mean_load ⊘ denom else float 0

  -- `(slope * 30) > 0.75`
  unfoldable pub is_rising : List (List F) → Bool
  unfolding slope
  is_rising load_hist = literal 75 100 ≺ slope load_hist ⊗ float 30

  unfoldable pub aggregate_tick : F → Metrics F → Metrics F
  unfolding pruned samples shift shift_rows is_rising
  aggregate_tick now m0 =
      let m = pruned now m0 in
      let s = samples now m m.n in
      let load_hist = shift_rows (map (λ (x : Sample F). x.load) s) m.load_hist in
      record m {
        latency_hist = shift_rows (map (λ (x : Sample F). x.lat) s) m.latency_hist;
        load_hist = load_hist;
        error_hist = shift_rows (map (λ (x : Sample F). x.err) s) m.error_hist;
        rps_hist = shift (fsum (map (λ (x : Sample F). x.rps) s)) m.rps_hist;
        proactive_active = if ltb 10 m.tick then is_rising load_hist else m.proactive_active;
        tick = m.tick + 1;
      }
