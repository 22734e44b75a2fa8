-- ===== src/Desktop.antt =====
-- desktop/omegalb_desktop.py, `OmegaDesktop`: the wiring table of the backends, the configuration
-- file, and the processes that the window starts and watches. The file is its settings, and Qt's
-- widgets are the values that they show.
pub mod Wiring
pub mod Store
pub mod Stack
pub mod Snapshot
use load_balancer.Prelude.{refl, true, false, some, none, [], ◌∷◌, zero, suc, inl, inr}
