-- ===== src/Desktop/Wiring/Checked.antt =====
-- What the rows of an accepted table hold, and that such rows are read as they are.
use load_balancer.Prelude.{
  ℕ, suc, ◌+◌, ◌≤◌, ◌≡◌, refl, ap, false, List, [], ◌∷◌, map, some, none, Option, length, take,
  Bool-cases, inl, inr, arith,
}
use load_balancer.Prelude.All.{All, All-append, All-mono}
use load_balancer.Decimal.{decimal}
use load_balancer.Text.{Unicode, or_else, HasDigits, is_empty, strip}
use load_balancer.Text.Strip.{strip-strip, strip_id}
use load_balancer.Text.Digits.{decimal_no_space, strip-decimal, isdigit-decimal, int_of-decimal}
use load_balancer.Desktop.Wiring.{
  Row, Backend, returned, backend_name, local, row_of, cell, port_of, extract_row, extract_from,
  extract_backends, some_backends, bind_parts,
}

some_backends-returned :
    (all bs : List Backend) → some_backends all ≡ returned bs → (bs ≡ all) × (1 ≤ length bs)
some_backends-returned [] bs e = cc
some_backends-returned (b ∷ all) bs e = ground arith

some_backends_all : (bs : List Backend) → 1 ≤ length bs → some_backends bs ≡ returned bs
some_backends_all [] h = absurd (omega arith)
some_backends_all (b ∷ bs) h = refl

-- A text that is not empty, with no space around it.
pub record IsTrimmed (u : Unicode) (text : List ℕ) : Type 0 where
  pub stripped : strip u text ≡ text
  pub filled : is_empty text ≡ false

-- A backend that the configuration may hold.
pub record IsChecked (u : Unicode) (b : Backend) : Type 0 where
  pub name_trimmed : IsTrimmed u b.name
  pub host_trimmed : IsTrimmed u b.host
  pub zone_trimmed : IsTrimmed u b.zone
  pub port_low : 1 ≤ b.port
  pub port_high : b.port ≤ 65535

-- The row that shows a backend.
abbrev pub shown : Backend → Row
shown b = row_of b.name b.host (decimal b.port) b.zone

module _ (u : Unicode) (laws : HasDigits u) where
  open laws use {printable_not_space}

  abbrev NoSpace : ℕ → Type 0
  NoSpace c = u.is_space c ≡ false

  printable : (cs : List ℕ) → All (λ c. (33 ≤ c) × (c ≤ 126)) cs → All NoSpace cs
  printable cs h = All-mono (λ c p. printable_not_space c p.0 p.1) cs h

  backend_name-IsTrimmed : (r : ℕ) → IsTrimmed u (backend_name r)
  backend_name-IsTrimmed r = record {
    stripped = strip_id u (backend_name r) (
        All-append NoSpace (take 8 (backend_name 0)) (decimal r)
          (printable (take 8 (backend_name 0)) (omega arith)) (decimal_no_space u laws r));
    filled = refl;
  }

  local-IsTrimmed : IsTrimmed u local
  local-IsTrimmed = record {
    stripped = strip_id u local (printable local (omega arith));
    filled = refl;
  }

  -- `text.strip() or default`, with a default that is trimmed.
  or_else-IsTrimmed :
      (item : Option (List ℕ)) (default : List ℕ)
      → IsTrimmed u default
      → IsTrimmed u (or_else (cell u item default) default)
  or_else-IsTrimmed none default t = rw (t.filled) t
  or_else-IsTrimmed (some text) default t = elim (Bool-cases (is_empty (strip u text))) [
    | inl e ↦ rw e t
    | inr e ↦ rw e (record { stripped = strip-strip u text; filled = e })
  ]

  cell-stripped : (item : Option (List ℕ)) → strip u (cell u item []) ≡ cell u item []
  cell-stripped none = strip_id u [] tt
  cell-stripped (some text) = strip-strip u text

  -- The backend that a row with these cells gives.
  abbrev backend_of : ℕ → Row → ℕ → Backend
  backend_of r row port = record {
    name = or_else (cell u row.name (backend_name r)) (backend_name r);
    host = cell u row.host [];
    port = port;
    zone = or_else (cell u row.zone local) local;
  }

  backend_of-IsChecked :
      (r : ℕ) (row : Row) (port : ℕ)
      → is_empty (cell u row.host []) ≡ false
      → 1 ≤ port
      → port ≤ 65535
      → IsChecked u (backend_of r row port)
  backend_of-IsChecked r row port h low high = record {
    name_trimmed = or_else-IsTrimmed row.name (backend_name r) (backend_name-IsTrimmed r);
    host_trimmed = record { stripped = cell-stripped row.host; filled = h };
    zone_trimmed = or_else-IsTrimmed row.zone local local-IsTrimmed;
    port_low = low;
    port_high = high;
  }

  -- What an accepted row has, and its backend.
  extract_row-returned :
      (r : ℕ) (row : Row) (b : Backend)
      → extract_row u r row ≡ returned b
      → (is_empty (cell u row.host []) ≡ false)
        × (1 ≤ b.port)
        × (b.port ≤ 65535)
        × (b ≡ backend_of r row b.port)
  unfolding extract_row port_of
  extract_row-returned r row b e = ground arith

  pub extract_row-IsChecked :
      (r : ℕ) (row : Row) (b : Backend) → extract_row u r row ≡ returned b → IsChecked u b
  extract_row-IsChecked r row b e =
      let (h, low, high, same) = extract_row-returned r row b e in
      rw same (backend_of-IsChecked r row b.port h low high)

  pub extract_from-IsChecked :
      (r : ℕ) (rows : List Row) (bs : List Backend)
      → extract_from u r rows ≡ returned bs
      → All (IsChecked u) bs × (length bs ≡ length rows)
  unfolding extract_from
  extract_from-IsChecked r [] bs e =
      let none_left : bs ≡ [] = ground arith in rw none_left (tt, refl)
  extract_from-IsChecked r (row ∷ rows) bs e =
      let (b, first, e') = bind_parts (extract_row u r row) _ e in
      let (rest, others, e'') = bind_parts (extract_from u (r + 1) rows) _ e' in
      let all : bs ≡ b ∷ rest = ground arith in
      let (checked, many) = extract_from-IsChecked (r + 1) rows rest others in
      rw all ((extract_row-IsChecked r row b first, checked), ap suc many)

  -- A row that shows a backend is read as it.
  extract_row-shown : (r : ℕ) (b : Backend) → IsChecked u b → extract_row u r (shown b) ≡ returned b
  unfolding extract_row port_of
  extract_row-shown r b c = ground (
    arith,
    c.name_trimmed.stripped,
    c.host_trimmed.stripped,
    c.zone_trimmed.stripped,
    c.name_trimmed.filled,
    c.host_trimmed.filled,
    c.zone_trimmed.filled,
    strip-decimal u laws b.port,
    isdigit-decimal u laws b.port,
    int_of-decimal u laws b.port,
  )

  pub extract_from-shown :
      (r : ℕ) (bs : List Backend)
      → All (IsChecked u) bs
      → extract_from u r (map shown bs) ≡ returned bs
  unfolding extract_from
  extract_from-shown r [] h = refl
  extract_from-shown r (b ∷ bs) h =
      ground (arith, extract_row-shown r b h.0, extract_from-shown (r + 1) bs h.1)

  -- Rows that are accepted give one backend each: with a name, a host and a zone that have no spaces
  -- around them, and a port from 1 to 65535; and there is at least one.
  pub extract_backends-IsChecked :
      (rows : List Row) (bs : List Backend)
      → extract_backends u rows ≡ returned bs
      → All (IsChecked u) bs × (length bs ≡ length rows) × (1 ≤ length bs)
  unfolding extract_backends
  extract_backends-IsChecked rows bs e =
      let (all, e1, e2) = bind_parts (extract_from u 0 rows) some_backends e in
      let (same, some_left) = some_backends-returned all bs e2 in
      let (checked, many) = extract_from-IsChecked 0 rows all e1 in
      rw same (checked, many, rw (← same) some_left)

  -- The table that shows the backends of an accepted table is accepted, and gives them again.
  pub extract_backends-shown :
      (rows : List Row) (bs : List Backend)
      → extract_backends u rows ≡ returned bs
      → extract_backends u (map shown bs) ≡ returned bs
  unfolding extract_backends
  extract_backends-shown rows bs e =
      let (checked, _, some_left) = extract_backends-IsChecked rows bs e in
      rw (extract_from-shown 0 bs checked) (some_backends_all bs some_left)
