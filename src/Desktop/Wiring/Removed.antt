-- ===== src/Desktop/Wiring/Removed.antt =====
-- The removal of the selected rows, one after the other from the last to the first.
use load_balancer.Prelude.{ℕ, suc, ◌≡◌, refl, ap, ◌∙◌, Bool, true, false, List, [], ◌∷◌, ◌++◌, map}
use load_balancer.Desktop.Wiring.{Row, remove_row, selected_rows, remove_rows, remove_selected}

-- The rows without a mark, in their order.
pub unmarked : List Bool → List Row → List Row
unmarked (true ∷ marks) (row ∷ rows) = unmarked marks rows
unmarked (false ∷ marks) (row ∷ rows) = row ∷ unmarked marks rows
unmarked _ rows = rows

remove_rows-append :
    (rs qs : List ℕ) (rows : List Row)
    → remove_rows (rs ++ qs) rows ≡ remove_rows qs (remove_rows rs rows)
unfolding remove_rows
remove_rows-append [] qs rows = refl
remove_rows-append (r ∷ rs) qs rows = remove_rows-append rs qs (remove_row r rows)

remove_rows-suc :
    (rs : List ℕ) (row : Row) (rows : List Row)
    → remove_rows (map suc rs) (row ∷ rows) ≡ row ∷ remove_rows rs rows
unfolding remove_rows
remove_rows-suc [] row rows = refl
remove_rows-suc (r ∷ rs) row rows = remove_rows-suc rs row (remove_row r rows)

remove_rows_empty : (rs : List ℕ) → remove_rows rs [] ≡ []
unfolding remove_rows
remove_rows_empty [] = refl
remove_rows_empty (r ∷ rs) = remove_rows_empty rs

-- Though each removal moves the rows behind it, exactly the selected rows are removed.
pub remove_selected-unmarked :
    (marks : List Bool) (rows : List Row) → remove_selected marks rows ≡ unmarked marks rows
unfolding remove_selected selected_rows remove_rows unmarked
remove_selected-unmarked [] [] = refl
remove_selected-unmarked [] (row ∷ rows) = refl
remove_selected-unmarked (true ∷ marks) [] =
    remove_rows_empty (map suc (selected_rows marks) ++ 0 ∷ [])
remove_selected-unmarked (false ∷ marks) [] =
    remove_rows_empty (map suc (selected_rows marks) ++ [])
remove_selected-unmarked (true ∷ marks) (row ∷ rows) =
    remove_rows-append (map suc (selected_rows marks)) (0 ∷ []) (row ∷ rows)
    ∙ ap (remove_rows (0 ∷ [])) (remove_rows-suc (selected_rows marks) row rows)
    ∙ remove_selected-unmarked marks rows
remove_selected-unmarked (false ∷ marks) (row ∷ rows) =
    remove_rows-append (map suc (selected_rows marks)) [] (row ∷ rows)
    ∙ remove_rows-suc (selected_rows marks) row rows
    ∙ ap (λ rest. row ∷ rest) (remove_selected-unmarked marks rows)
