-- ===== src/Examples/Pages.antt =====
-- A page that reads the metrics of three backends two seconds after they are written.
use load_balancer.Prelude.{ℕ, refl, false, true, [], ◌∷◌, none}
use load_balancer.Prelude.Int.{◌-ℤ◌}
use load_balancer.Double.{float, literal}
use load_balancer.Double.Milli.{Milli, milli_double}
use load_balancer.Metrics.{Metrics, metrics}
use load_balancer.Metrics.Snapshot.{read_live_metrics, write_json}
use load_balancer.Dashboard.{LogDraw, StepDraw}
use load_balancer.Dashboard.Page.{Page, load_data}
use load_balancer.Dashboard.Shown.{IsShown, load_data-IsShown}

abbrev one_down : Metrics Milli
one_down = record (metrics 3) { health = true ∷ false ∷ true ∷ [] }

abbrev line_draw : ℕ → LogDraw Milli
line_draw k = record {
  target = 1;
  path = k;
  noise = λ m. float 0;
  chance = literal 1 10;
  status = 500;
}

abbrev step_draw : StepDraw Milli
step_draw = record { short_sin = float 0; long_sin = float 1; backends = []; logs = line_draw }

abbrev blank : Page Milli
blank = record { sim = none; live_logs = [] }

load_data-IsShown_example : IsShown one_down (
    load_data [] line_draw step_draw
      (read_live_metrics (float 102) (write_json true (float 100) one_down none))
      blank)
unfolding metrics ◌-ℤ◌
load_data-IsShown_example =
    load_data-IsShown [] line_draw step_draw one_down (float 100) (float 102) none blank refl refl
