-- ===== src/Desktop/Snapshot/Rows.antt =====
-- Each backend has its row.
use load_balancer.Prelude.{
  ℕ, zero, suc, ◌+◌, ◌<◌, ◌≡◌, refl, ap, ◌∙◌, List, some, length, get_or, arith,
}
use load_balancer.Double.{Double}
use load_balancer.Desktop.Snapshot.{
  Status, Shown, shown_row, names_size, newest_rps, kpis_of, rows_from, render_snapshot,
}

module _ {F : Type 0} ⦃d : Double F⦄ where
  length-rows_from : (s : Status F) (n i : ℕ) → length (rows_from s n i) ≡ n
  unfolding rows_from
  length-rows_from s zero i = refl
  length-rows_from s (suc n) i = omega (arith, length-rows_from s n (suc i))

  get_or-rows_from :
      (s : Status F) (n i j : ℕ) (row : Shown F)
      → j < n
      → get_or (rows_from s n i) j row ≡ shown_row s (i + j)
  unfolding rows_from
  get_or-rows_from s zero i j row h = elim h [ ]
  get_or-rows_from s (suc n) i zero row h = ap (shown_row s) (omega arith)
  get_or-rows_from s (suc n) i (suc j) row h =
      get_or-rows_from s n (suc i) j row (omega arith) ∙ ap (shown_row s) (omega arith)

  -- A status with a rate is shown with a row for each name, in their order, whatever lists are too short.
  pub render_snapshot-rows :
      (s : Status F) (rps : F) (j : ℕ) (row : Shown F)
      → newest_rps s.rps_hist ≡ some rps
      → j < names_size s
      → (rows : List (Shown F)) × (render_snapshot s ≡ some (kpis_of s rps, rows))
        × (length rows ≡ names_size s)
        × (get_or rows j row ≡ shown_row s j)
  unfolding render_snapshot
  render_snapshot-rows s rps j row e h = (
    rows_from s (names_size s) 0,
    rw (e, render_snapshot) refl,
    length-rows_from s (names_size s) 0,
    get_or-rows_from s (names_size s) 0 j row h ∙ ap (shown_row s) (omega arith),
  )
