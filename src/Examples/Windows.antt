-- ===== src/Examples/Windows.antt =====
-- The desktop window with two backends, one of them without a name.
use load_balancer.Prelude.{
  ◌-◌, ◌≤◌, ◌≡◌, refl, true, false, ◌&&◌, List, [], ◌∷◌, none, some, leb, ◌==◌, length,
  if◌then◌else◌, arith,
}
use load_balancer.Prelude.All.{All}
use load_balancer.Text.{Unicode, HasDigits, strip, isdigit, int_of}
use load_balancer.Decimal.{decimal}
use load_balancer.Desktop.Wiring.{
  Row, Backend, returned, extract_backends, extract_from, extract_row, localhost, row_of,
}
use load_balancer.Desktop.Wiring.Checked.{IsChecked, extract_backends-IsChecked}
use load_balancer.Desktop.Store.{Window, absent, read_config, save_wiring}
use load_balancer.Desktop.Store.Kept.{HasPort, IsKept, load_wiring-save_wiring}
use load_balancer.Desktop.Stack.{Desktop, backends, proxy, Surroundings, Status}
use load_balancer.Desktop.Stack.Watch.{poll_all, poll_all-alive}
use load_balancer.Desktop.Stack.Reach.{Reach}

-- The tables for ASCII.
abbrev pub ascii : Unicode
ascii = record {
  is_space = λ c. c == 32;
  is_digit = λ c. leb b'0' c && leb c b'9';
  digit_value = λ c. if leb b'0' c && leb c b'9' then some (c - b'0') else none;
}

ascii_digits : HasDigits ascii
ascii_digits = record {
  printable_not_space = λ c low high. ground arith;
  digit_is_digit = λ d h. ground arith;
  digit_has_value = λ d h. ground arith;
}

abbrev two_rows : List Row
two_rows =
    row_of [] (b' ' ∷ localhost) (b'9' ∷ b'1' ∷ []) []
    ∷ row_of (b'z' ∷ []) localhost (b'8' ∷ []) []
    ∷ []

abbrev window : Window
window = record { rows = two_rows; file = absent; proxy_url = []; status_url = [] }

abbrev two_backends : List Backend
two_backends =
    record {
      name = b'b' ∷ b'a' ∷ b'c' ∷ b'k' ∷ b'e' ∷ b'n' ∷ b'd' ∷ b'-' ∷ b'0' ∷ [];
      host = localhost;
      port = 91;
      zone = b'l' ∷ b'o' ∷ b'c' ∷ b'a' ∷ b'l' ∷ [];
    }
    ∷ record {
      name = b'z' ∷ [];
      host = localhost;
      port = 8;
      zone = b'l' ∷ b'o' ∷ b'c' ∷ b'a' ∷ b'l' ∷ [];
    }
    ∷ []

two_read : extract_backends ascii two_rows ≡ returned two_backends
unfolding extract_backends decimal strip isdigit int_of extract_from extract_row
two_read = refl

extract_backends-IsChecked_example :
    All (IsChecked ascii) two_backends
    × (length two_backends ≡ length two_rows)
    × (1 ≤ length two_backends)
extract_backends-IsChecked_example =
    extract_backends-IsChecked ascii ascii_digits two_rows two_backends two_read

no_invalid : HasPort absent
unfolding read_config
no_invalid cfg e bad = cc

saved : (save_wiring ascii true window).1 ≡ true
unfolding save_wiring
saved = rw two_read refl

load_wiring-save_wiring_example : IsKept ascii ascii_digits window (save_wiring ascii true window).0
load_wiring-save_wiring_example = load_wiring-save_wiring ascii ascii_digits window no_invalid saved

abbrev desktop : Desktop
desktop = record {
  window = window;
  boxes = record { managed = true; with_loadgen = true; with_dashboard = false };
  processes =
      record { name = backends; alive = true } ∷ record { name = proxy; alive = false } ∷ [];
  runtime_started = true;
  online = true;
  secure = true;
}

poll_all-alive_example :
    let out = poll_all (Status.shown ∷ Status.unreachable ∷ []) desktop in
    (out.0.processes ≡ record { name = backends; alive = true } ∷ []) × (out.1 ≡ proxy ∷ [])
poll_all-alive_example =
    poll_all-alive (Status.shown ∷ Status.unreachable ∷ []) desktop (omega arith)

abbrev idle : Desktop
idle = record desktop { processes = []; runtime_started = false }

abbrev here_now : Surroundings
here_now = record { free = λ _. true; writable = true; confirmed = true }
