-- ===== src/Metrics/History.antt =====
-- The histories after a tick: as long as before, moved by one place, with the new samples last.
use mathlib.Core.List.{map-append}
use load_balancer.Prelude.{
  refl, [], ◌∷◌, zero, suc, ℕ, List, ◌<◌, ◌∙◌, length, get_or, ◌≡◌, ◌++◌, ◌-◌, arith, ap,
  length-append, map, sym, length-map, subst,
}
use load_balancer.Double.{Double, float}
use load_balancer.Metrics.Tick.{
  shift_rows, shift, samples, last_column, Sample, sample_of, aggregate_tick, pruned,
}
use load_balancer.Metrics.{Metrics}
use load_balancer.Prelude.All.{All, All-append}
use mathlib.Core.Path.{ap₂}
use load_balancer.Double.Laws.{IsOrdered, ◌≲◌, fmin-le_left}

module _ {F : Type 0} ⦃d : Double F⦄ where
  length-shift : (x : F) (row : List F) → length (shift x row) ≡ length row
  unfolding shift
  length-shift x [] = refl
  length-shift x (y ∷ ys) = omega (arith, length-append ys (x ∷ []))

  get_or-append_left :
      (ys zs : List F) (j : ℕ) (o : F) → j < length ys → get_or (ys ++ zs) j o ≡ get_or ys j o
  get_or-append_left [] zs j o h = elim h [ ]
  get_or-append_left (y ∷ ys) zs zero o h = refl
  get_or-append_left (y ∷ ys) zs (suc j) o h = get_or-append_left ys zs j o (omega arith)

  get_or-append_right : (ys : List F) (x o : F) → get_or (ys ++ x ∷ []) (length ys) o ≡ x
  get_or-append_right [] x o = refl
  get_or-append_right (y ∷ ys) x o = get_or-append_right ys x o

  -- Every place but the last takes what stood at its right.
  pub get_or-shift :
      (x : F) (row : List F) (j : ℕ) (o : F)
      → suc j < length row
      → get_or (shift x row) j o ≡ get_or row (suc j) o
  unfolding shift
  get_or-shift x [] j o h = elim h [ ]
  get_or-shift x (y ∷ ys) j o h = get_or-append_left ys (x ∷ []) j o (omega arith)

  pub get_or-shift_last :
      (x : F) (row : List F) (o : F) → 0 < length row → get_or (shift x row) (length row - 1) o ≡ x
  unfolding shift
  get_or-shift_last x [] o h = elim h [ ]
  get_or-shift_last x (y ∷ ys) o h =
      let e : suc (length ys) - 1 ≡ length ys = omega arith in rw e (get_or-append_right ys x o)

  abbrev pub Rows : ℕ → List (List F) → Type 0
  Rows k = All (λ (row : List F). length row ≡ k)

  length-shift_rows :
      (xs : List F) (rows : List (List F)) → length (shift_rows xs rows) ≡ length rows
  unfolding shift_rows
  length-shift_rows (x ∷ xs) (row ∷ rows) = ap suc (length-shift_rows xs rows)
  length-shift_rows [] rows = refl
  length-shift_rows (x ∷ xs) [] = refl

  shift_rows-Rows :
      (k : ℕ) (xs : List F) (rows : List (List F)) → Rows k rows → Rows k (shift_rows xs rows)
  unfolding shift_rows
  shift_rows-Rows k (x ∷ xs) (row ∷ rows) h =
      (length-shift x row ∙ h.0, shift_rows-Rows k xs rows h.1)
  shift_rows-Rows k [] rows h = h
  shift_rows-Rows k (x ∷ xs) [] h = h

  last_column-shift_rows :
      (k : ℕ) (xs : List F) (rows : List (List F))
      → length xs ≡ length rows
      → Rows (suc k) rows
      → last_column (shift_rows xs rows) ≡ xs
  unfolding shift_rows last_column
  last_column-shift_rows k [] [] e h = refl
  last_column-shift_rows k [] (row ∷ rows) e h = absurd (omega arith)
  last_column-shift_rows k (x ∷ xs) [] e h = absurd (omega arith)
  last_column-shift_rows k (x ∷ xs) (row ∷ rows) e h =
      ap₂ ◌∷◌
        (ap (λ l. get_or (shift x row) (l - 1) (float 0)) (length-shift x row)
          ∙ get_or-shift_last x row (float 0) (omega (arith, h.0)))
        (last_column-shift_rows k xs rows (omega arith) h.1)

  length-samples : (now : F) (m : Metrics F) (k : ℕ) → length (samples now m k) ≡ k
  unfolding samples
  length-samples now m zero = refl
  length-samples now m (suc i) =
      omega
        (arith, length-append (samples now m i) (sample_of now m i ∷ []), length-samples now m i)

  -- The histories have a row for each backend and `k` columns.
  pub record IsShaped (k : ℕ) (m : Metrics F) : Type 0 where
    pub latency_rows : length m.latency_hist ≡ m.n
    pub load_rows : length m.load_hist ≡ m.n
    pub error_rows : length m.error_hist ≡ m.n
    pub latency_columns : Rows k m.latency_hist
    pub load_columns : Rows k m.load_hist
    pub error_columns : Rows k m.error_hist
    pub rps_columns : length m.rps_hist ≡ k

  -- The new columns of a tick.
  abbrev pub new_loads : F → Metrics F → List F
  new_loads now m = map (λ (x : Sample F). x.load) (samples now (pruned now m) m.n)

  abbrev pub new_latencies : F → Metrics F → List F
  new_latencies now m = map (λ (x : Sample F). x.lat) (samples now (pruned now m) m.n)

  abbrev pub new_errors : F → Metrics F → List F
  new_errors now m = map (λ (x : Sample F). x.err) (samples now (pruned now m) m.n)

  length-column :
      (now : F) (m : Metrics F) (f : Sample F → F)
      → length (map f (samples now (pruned now m) m.n)) ≡ m.n
  length-column now m f =
      length-map (samples now (pruned now m) m.n) f ∙ length-samples now (pruned now m) m.n

  -- A tick keeps the shape of the histories, and puts the samples of the backends, taken from the
  -- pruned windows, into the last column of the three histories.
  pub aggregate_tick-IsShaped :
      (now : F) (k : ℕ) (m : Metrics F)
      → IsShaped (suc k) m
      → let m' = aggregate_tick now m in
        IsShaped (suc k) m'
        × (last_column m'.load_hist ≡ new_loads now m)
        × (last_column m'.latency_hist ≡ new_latencies now m)
        × (last_column m'.error_hist ≡ new_errors now m)
  unfolding aggregate_tick pruned
  aggregate_tick-IsShaped now k m h = (
    record {
      latency_rows = length-shift_rows (new_latencies now m) m.latency_hist ∙ h.latency_rows;
      load_rows = length-shift_rows (new_loads now m) m.load_hist ∙ h.load_rows;
      error_rows = length-shift_rows (new_errors now m) m.error_hist ∙ h.error_rows;
      latency_columns =
          shift_rows-Rows (suc k) (new_latencies now m) m.latency_hist h.latency_columns;
      load_columns = shift_rows-Rows (suc k) (new_loads now m) m.load_hist h.load_columns;
      error_columns = shift_rows-Rows (suc k) (new_errors now m) m.error_hist h.error_columns;
      rps_columns = length-shift _ m.rps_hist ∙ h.rps_columns;
    },
    last_column-shift_rows k (new_loads now m) m.load_hist (length-column now m _ ∙ sym h.load_rows)
        h.load_columns,
    last_column-shift_rows k (new_latencies now m) m.latency_hist
        (length-column now m _ ∙ sym h.latency_rows) h.latency_columns,
    last_column-shift_rows k (new_errors now m) m.error_hist
        (length-column now m _ ∙ sym h.error_rows) h.error_columns,
  )

module _ {F : Type 0} ⦃d : Double F⦄ (laws : IsOrdered F) where
  samples-load :
      (now : F) (m : Metrics F) (k : ℕ)
      → All (λ x. x ≲ float 1) (map (λ (x : Sample F). x.load) (samples now m k))
  unfolding samples
  samples-load now m zero = tt
  samples-load now m (suc i) =
      rw (map-append (λ (x : Sample F). x.load) (samples now m i) (sample_of now m i ∷ [])) (
        All-append _ (map (λ (x : Sample F). x.load) (samples now m i)) _ (samples-load now m i)
          (fmin-le_left laws (float 1) _, tt))

  -- The load that the control loop reads after a tick is at most 1 for every backend.
  pub aggregate_tick-load :
      (now : F) (k : ℕ) (m : Metrics F)
      → IsShaped (suc k) m
      → All (λ x. x ≲ float 1) (last_column (aggregate_tick now m).load_hist)
  aggregate_tick-load now k m h =
      subst (All (λ x. x ≲ float 1)) (sym (aggregate_tick-IsShaped now k m h).1)
        (samples-load now (pruned now m) m.n)
