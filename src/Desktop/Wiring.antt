-- ===== src/Desktop/Wiring.antt =====
-- desktop/omegalb_desktop.py, the rows of the wiring table and what `_extract_backends_from_ui` reads
-- from them.
pub mod Checked
pub mod Removed
use load_balancer.Prelude.{
  ℕ, ◌+◌, ◌%◌, ◌&&◌, Bool, true, false, not, List, [], ◌∷◌, ◌++◌, Option, none, some, leb,
  if◌then◌else◌, refl, zero, suc, inl, inr, ◌≡◌, map,
}
use load_balancer.Decimal.{decimal}
use load_balancer.Text.{Unicode, or_else, is_empty, strip, isdigit, int_of}

-- The texts of a row, where a cell may be missing.
pub record Row : Type 0 where
  pub name : Option (List ℕ)
  pub host : Option (List ℕ)
  pub port : Option (List ℕ)
  pub zone : Option (List ℕ)
  pub health : Option (List ℕ)
  pub latency : Option (List ℕ)

pub record Backend : Type 0 where
  pub name : List ℕ
  pub host : List ℕ
  pub port : ℕ
  pub zone : List ℕ

-- The messages of the `ValueError`s, with the number of the row.
pub data Error : Type 0 where
  host_required : ℕ → Error
  port_not_number : ℕ → Error
  port_unreadable : ℕ → Error
  port_range : ℕ → Error
  no_backends : Error

pub data Result (A : Type 0) : Type 0 where
  returned : A → Result A
  raised : Error → Result A

infixl 5 ◌>>=◌
abbrev pub ◌>>=◌ : {A B : Type 0} → Result A → (A → Result B) → Result B
returned rows >>= next = next rows
raised reason >>= next = raised reason

-- A chain that has a result has one in each part.
pub bind_parts :
    {A B : Type 0} {last : B} (first : Result A) (next : A → Result B)
    → (first >>= next) ≡ returned last
    → (rows : A) × (first ≡ returned rows) × (next rows ≡ returned last)
bind_parts (returned rows) next e = (rows, refl, e)
bind_parts (raised reason) next e = cc

abbrev pub local : List ℕ
local = b'l' ∷ b'o' ∷ b'c' ∷ b'a' ∷ b'l' ∷ []

abbrev pub localhost : List ℕ
localhost = b'1' ∷ b'2' ∷ b'7' ∷ b'.' ∷ b'0' ∷ b'.' ∷ b'0' ∷ b'.' ∷ b'1' ∷ []

-- `f"backend-{r}"`
abbrev pub backend_name : ℕ → List ℕ
backend_name r = b'b' ∷ b'a' ∷ b'c' ∷ b'k' ∷ b'e' ∷ b'n' ∷ b'd' ∷ b'-' ∷ decimal r

-- `_add_backend_row`
abbrev pub row_of : List ℕ → List ℕ → List ℕ → List ℕ → Row
row_of name host port zone = record {
  name = some name;
  host = some host;
  port = some port;
  zone = some zone;
  health = some (b'-' ∷ []);
  latency = some (b'-' ∷ []);
}

-- `wiring_table.removeRow(r)`
unfoldable pub remove_row : ℕ → List Row → List Row
remove_row r [] = []
remove_row zero (row ∷ rows) = rows
remove_row (suc r) (row ∷ rows) = row ∷ remove_row r rows

-- The indices of the marked rows, the greatest first.
unfoldable pub selected_rows : List Bool → List ℕ
selected_rows [] = []
selected_rows (m ∷ marks) = map suc (selected_rows marks) ++ (if m then 0 ∷ [] else [])

unfoldable pub remove_rows : List ℕ → List Row → List Row
unfolding remove_row
remove_rows [] rows = rows
remove_rows (r ∷ rs) rows = remove_rows rs (remove_row r rows)

-- `_remove_selected_backend_rows`, by which rows are selected.
unfoldable pub remove_selected : List Bool → List Row → List Row
unfolding selected_rows remove_rows
remove_selected marks rows = remove_rows (selected_rows marks) rows

-- The rows of `_load_demo_wiring`, from the first numbers on.
pub demo_rows : List ℕ → List Row
demo_rows [] = []
demo_rows (i ∷ is) =
    row_of (backend_name i) localhost (decimal (9000 + i)) (local ++ b'-' ∷ (b'a' + i % 3) ∷ [])
    ∷ demo_rows is

unfoldable pub demo_wiring : List Row
unfolding demo_rows
demo_wiring = demo_rows (0 ∷ 1 ∷ 2 ∷ 3 ∷ [])

-- `int(port_txt)` and its range.
unfoldable pub port_of : ℕ → Option ℕ → Result ℕ
port_of r none = raised (port_unreadable (r + 1))
port_of r (some port) =
    if leb 1 port && leb port 65535 then returned port else raised (port_range (r + 1))

-- `if not backends`
abbrev pub some_backends : List Backend → Result (List Backend)
some_backends [] = raised no_backends
some_backends (b ∷ bs) = returned (b ∷ bs)

module _ (u : Unicode) where
  -- `item.text().strip() if item else default`
  abbrev pub cell : Option (List ℕ) → List ℕ → List ℕ
  cell none default = default
  cell (some text) default = strip u text

  -- The row with the index `r`.
  unfoldable pub extract_row : ℕ → Row → Result Backend
  unfolding port_of
  extract_row r row =
      let name = cell row.name (backend_name r) in
      let host = cell row.host [] in
      let port_txt = cell row.port [] in
      let zone = cell row.zone local in
      if is_empty host
      then raised (host_required (r + 1))
      else if not (isdigit u port_txt)
      then raised (port_not_number (r + 1))
      else do
        port ← port_of r (int_of u port_txt)
        returned (record {
          name = or_else name (backend_name r);
          host = host;
          port = port;
          zone = or_else zone local;
        })

  -- The rows from the index `r` on.
  unfoldable pub extract_from : ℕ → List Row → Result (List Backend)
  extract_from r [] = returned []
  extract_from r (row ∷ rows) = do
    b ← extract_row r row
    bs ← extract_from (r + 1) rows
    returned (b ∷ bs)

  -- `_extract_backends_from_ui`
  unfoldable pub extract_backends : List Row → Result (List Backend)
  extract_backends rows = do backends ← extract_from 0 rows; some_backends backends
