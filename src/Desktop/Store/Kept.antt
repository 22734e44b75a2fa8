-- ===== src/Desktop/Store/Kept.antt =====
-- What is saved is what is loaded.
use load_balancer.Prelude.{
  ℕ, ◌+◌, ◌≤◌, ◌≡◌, ◌≢◌, refl, ap, true, List, [], ◌∷◌, map, Option, none, some, length, arith,
}
use load_balancer.Text.{Unicode, HasDigits}
use load_balancer.Desktop.Wiring.{Backend, Result, returned, raised, extract_backends}
use load_balancer.Desktop.Wiring.Checked.{shown, extract_backends-IsChecked, extract_backends-shown}
use load_balancer.Desktop.Store.{
  Window, Settings, File, holds, Port, missing, number, invalid, read_config, entry_rows, entry_of,
  or_demo, port_number, show_settings, load_wiring, save_wiring, write_backends, save_settings,
}

-- The settings of the file have a port that `int` reads.
abbrev pub HasPort : File → Type 0
HasPort file = (cfg : Settings) → read_config file ≡ some cfg → cfg.proxy_port ≢ invalid

entry_rows-shown : (i : ℕ) (bs : List Backend) → entry_rows i (map entry_of bs) ≡ map shown bs
unfolding entry_rows
entry_rows-shown i [] = refl
entry_rows-shown i (b ∷ bs) = ap (λ rows. shown b ∷ rows) (entry_rows-shown (i + 1) bs)

or_demo_some : (bs : List Backend) → 1 ≤ length bs → or_demo (map shown bs) ≡ map shown bs
or_demo_some [] h = absurd (omega arith)
or_demo_some (b ∷ bs) h = refl

port_number-some : (p : Port) → p ≢ invalid → (n : ℕ) × (port_number p ≡ some n)
port_number-some missing h = (8080, refl)
port_number-some (number n) h = (n, refl)
port_number-some invalid h = absurd (h refl)

-- The window after a save of these backends.
abbrev written : Window → Settings → List Backend → Window
written w cfg bs = record w { file = holds (record cfg { backends = map entry_of bs }) }

load_written :
    (w : Window) (cfg : Settings) (bs : List Backend)
    → cfg.proxy_port ≢ invalid
    → 1 ≤ length bs
    → (load_wiring (written w cfg bs)).rows ≡ map shown bs
unfolding load_wiring read_config show_settings
load_written w cfg bs port some_left =
    let (n, e) = port_number-some cfg.proxy_port port in
    rw e (rw (entry_rows-shown 0 bs) (or_demo_some bs some_left))

module _ (u : Unicode) (laws : HasDigits u) (w : Window) where
  -- The settings that a window reads, the backends of its table, and what a save and a load leave.
  abbrev pub IsKept : Window → Type 0
  IsKept w' =
      (cfg : Settings) × (bs : List Backend) × (read_config w.file ≡ some cfg)
      × (extract_backends u w.rows ≡ returned bs)
      × (read_config w'.file ≡ some (record cfg { backends = map entry_of bs }))
      × (extract_backends u (load_wiring w').rows ≡ returned bs)

  write-IsKept :
      (cfg : Settings) (r : Result (List Backend))
      → read_config w.file ≡ some cfg
      → cfg.proxy_port ≢ invalid
      → extract_backends u w.rows ≡ r
      → (write_backends true cfg r w).1 ≡ true
      → IsKept (write_backends true cfg r w).0
  unfolding read_config
  write-IsKept cfg (raised e) read port table saved = cc
  write-IsKept cfg (returned bs) read port table saved =
      let (_, _, some_left) = extract_backends-IsChecked u laws w.rows bs table in
      (
        cfg,
        bs,
        read,
        table,
        refl,
        rw (load_written w cfg bs port some_left) (extract_backends-shown u laws w.rows bs table),
      )

  save_settings-IsKept :
      (o : Option Settings)
      → read_config w.file ≡ o
      → ((cfg : Settings) → read_config w.file ≡ some cfg → cfg.proxy_port ≢ invalid)
      → (save_settings u true o w).1 ≡ true
      → IsKept (save_settings u true o w).0
  save_settings-IsKept none read port saved = cc
  save_settings-IsKept (some cfg) read port saved =
      write-IsKept cfg (extract_backends u w.rows) read (port cfg read) refl saved

  -- A save that succeeds writes the backends of the table and leaves the other settings as they
  -- were; and the table that is loaded from the file then has these backends again, if the port of
  -- the proxy in the file is a number or missing.
  pub load_wiring-save_wiring :
      HasPort w.file → (save_wiring u true w).1 ≡ true → IsKept (save_wiring u true w).0
  unfolding save_wiring
  load_wiring-save_wiring port saved = save_settings-IsKept (read_config w.file) refl port saved
