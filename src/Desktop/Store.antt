-- ===== src/Desktop/Store.antt =====
-- desktop/omegalb_desktop.py, `_load_wiring_from_config` and `_save_wiring_to_config`: the table and
-- the configuration file.
pub mod Kept
use load_balancer.Prelude.{
  ℕ, ◌+◌, Bool, true, false, List, [], ◌∷◌, ◌++◌, map, Option, none, some, if◌then◌else◌, refl,
  zero, suc, inl, inr,
}
use load_balancer.Decimal.{decimal}
use load_balancer.Text.{Unicode}
use load_balancer.Desktop.Wiring.{
  Row, Backend, Result, returned, raised, backend_name, local, localhost, row_of, demo_wiring,
  extract_backends,
}

-- A scalar of the file, for which `str` is called.
pub data Value : Type 0 where
  num : ℕ → Value
  text : List ℕ → Value

-- A backend in the file.
pub record Entry : Type 0 where
  pub name : Option Value
  pub host : Option Value
  pub port : Option Value
  pub zone : Option Value

-- `proxy.port` in the file, by what `int` makes of it.
pub data Port : Type 0 where
  missing : Port
  number : ℕ → Port
  invalid : Port

-- The settings of the file; `others` are those that the window leaves alone.
pub record Settings : Type 0 where
  pub proxy_host : Option Value
  pub proxy_port : Port
  pub backends : List Entry
  pub others : List (List ℕ × Value)

-- The file: it may not be there, or reading it may raise.
pub data File : Type 0 where
  absent : File
  unreadable : File
  holds : Settings → File

pub record Window : Type 0 where
  pub rows : List Row
  pub file : File
  pub proxy_url : List ℕ
  pub status_url : List ℕ

-- `{}`
abbrev pub no_settings : Settings
no_settings = record { proxy_host = none; proxy_port = missing; backends = []; others = [] }

-- `_read_config`
unfoldable pub read_config : File → Option Settings
read_config absent = some no_settings
read_config unreadable = none
read_config (holds cfg) = some cfg

-- `str(entry.get(key, default))`
abbrev pub str_or : Option Value → List ℕ → List ℕ
str_or none default = default
str_or (some (num n)) default = decimal n
str_or (some (text t)) default = t

-- The rows for the entries from the index `i` on.
unfoldable pub entry_rows : ℕ → List Entry → List Row
entry_rows i [] = []
entry_rows i (b ∷ entries) =
    row_of (str_or b.name (backend_name i)) (str_or b.host localhost)
      (str_or b.port (decimal (9000 + i))) (str_or b.zone local)
    ∷ entry_rows (i + 1) entries

-- The demo targets stand in for a table without rows.
abbrev pub or_demo : List Row → List Row
or_demo [] = demo_wiring
or_demo (row ∷ rows) = row ∷ rows

-- `int(proxy.get("port", 8080))`; `none` is an exception.
abbrev pub port_number : Port → Option ℕ
port_number missing = some 8080
port_number (number n) = some n
port_number invalid = none

-- `f"http://{host}:{port}"` and `f"{self.proxy_url}/_omega/status"`
abbrev pub url_of : List ℕ → ℕ → List ℕ
url_of host port = b'h' ∷ b't' ∷ b't' ∷ b'p' ∷ b':' ∷ b'/' ∷ b'/' ∷ (host ++ b':' ∷ decimal port)

abbrev pub status_path : List ℕ
status_path =
    b'/' ∷ b'_' ∷ b'o' ∷ b'm' ∷ b'e' ∷ b'g' ∷ b'a' ∷ b'/' ∷ b's' ∷ b't' ∷ b'a' ∷ b't' ∷ b'u' ∷ b's'
    ∷ []

-- The settings with a port that `int` has read.
unfoldable pub show_settings : Settings → Option ℕ → Window → Window
unfolding entry_rows
show_settings cfg none w = record w { rows = demo_wiring }
show_settings cfg (some port) w =
    let url = url_of (str_or cfg.proxy_host localhost) port in
    record w {
      proxy_url = url;
      status_url = url ++ status_path;
      rows = or_demo (entry_rows 0 cfg.backends);
    }

abbrev pub show_config : Option Settings → Window → Window
show_config none w = record w { rows = demo_wiring }
show_config (some cfg) w = show_settings cfg (port_number cfg.proxy_port) w

-- `_load_wiring_from_config`
unfoldable pub load_wiring : Window → Window
unfolding read_config show_settings
load_wiring w = show_config (read_config w.file) w

abbrev pub entry_of : Backend → Entry
entry_of b = record {
  name = some (text b.name);
  host = some (text b.host);
  port = some (num b.port);
  zone = some (text b.zone);
}

-- What is left of the save when the table is read; `writable` says whether the file can be written.
abbrev pub write_backends : Bool → Settings → Result (List Backend) → Window → Window × Bool
write_backends writable cfg (raised e) w = (w, false)
write_backends writable cfg (returned bs) w =
    if writable
    then (record w { file = holds (record cfg { backends = map entry_of bs }) }, true)
    else (w, false)

abbrev pub save_settings : Unicode → Bool → Option Settings → Window → Window × Bool
save_settings u writable none w = (w, false)
save_settings u writable (some cfg) w = write_backends writable cfg (extract_backends u w.rows) w

-- `_save_wiring_to_config`
unfoldable pub save_wiring : Unicode → Bool → Window → Window × Bool
unfolding read_config
save_wiring u writable w = save_settings u writable (read_config w.file) w
